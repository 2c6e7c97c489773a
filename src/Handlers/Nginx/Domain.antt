-- ===== src/Handlers/Nginx/Domain.antt =====
-- The domains that `nginx.install_cert` makes a directory for.
use panel_agent.Common.{ℕ, ◌≤◌, ◌≡◌, ◌≢◌, ap, true, false, [], ◌∷◌, ◌++◌, Text, length, arith, All}
use panel_agent.Runtime.{ok}
use panel_agent.Handlers.Nginx.{validate_domain_for_path, has_dotdot, has_byte}

domain_parts :
    (domain : Text)
    → validate_domain_for_path domain ≡ ok tt
    → (1 ≤ length domain)
      × (length domain ≤ 253)
      × (has_dotdot domain ≡ false)
      × (has_byte b'/' domain ≡ false)
unfolding validate_domain_for_path
domain_parts domain h = ground arith

no_byte : (b : ℕ) (s : Text) → has_byte b s ≡ false → All (λ c. c ≢ b) s
unfolding has_byte
no_byte b [] h = tt
no_byte b (c ∷ s) h = (ground arith, no_byte b s (ground arith))

dots_found : (a b : Text) → has_dotdot (a ++ b'.' ∷ b'.' ∷ b) ≡ true
unfolding has_dotdot
dots_found [] b = ground arith
dots_found (c ∷ []) b = ground arith
dots_found (c ∷ d ∷ a) b = ground (arith, dots_found (d ∷ a) b)

-- A domain that is accepted for a certificate has 1 to 253 bytes, none of them a slash, and nowhere
-- two dots in a row: as a path component it names no directory above the certificates.
pub validate_domain_for_path-safe :
    (domain : Text)
    → validate_domain_for_path domain ≡ ok tt
    → (1 ≤ length domain)
      × (length domain ≤ 253)
      × All (λ c. c ≢ b'/') domain
      × ((a b : Text) → domain ≢ a ++ b'.' ∷ b'.' ∷ b)
validate_domain_for_path-safe domain h =
    let (least, most, dots, slash) = domain_parts domain h in
    (
      least,
      most,
      no_byte b'/' domain slash,
      λ a b eq. absurd (ground (arith, dots, ap has_dotdot eq, dots_found a b)),
    )
