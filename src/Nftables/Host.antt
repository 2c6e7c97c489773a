-- ===== src/Nftables/Host.antt =====
-- The URLs that `extract_url_host` is meant for: a scheme, a host and perhaps a port.
use panel_agent.Common.{
  ℕ, ◌≡◌, ◌≢◌, refl, ap, ◌∙◌, Option, none, some, List, [], ◌∷◌, ◌++◌, Text, split_on, arith, All,
  All-append,
}
use panel_agent.Nftables.Url.{
  extract_url_host, host_part, split_slashes, through_bracket, second_or, first_or, cons_first,
  nonempty,
}

pub data Host : Type 0 where
  named : Text → Host
  bracketed : Text → Host  -- an IPv6 address

abbrev pub print_host : Host → Text
print_host (Host.named name) = name
print_host (Host.bracketed addr) = b'[' ∷ (addr ++ (b']' ∷ []))

abbrev pub print_port : Option Text → Text
print_port none = []
print_port (some port) = b':' ∷ port

abbrev pub IsNoSlash : ℕ → Type 0
IsNoSlash c = c ≢ b'/'

-- A name is not empty, starts with no bracket and has neither `:` nor `/`; an address has neither
-- `]` nor `/`.
abbrev pub IsHost : Host → Type 0
IsHost (Host.named []) = ⊥
IsHost (Host.named (c ∷ name)) = (c ≢ b'[') × All (λ d. (d ≢ b':') × (d ≢ b'/')) (c ∷ name)
IsHost (Host.bracketed addr) = All (λ d. (d ≢ b']') × (d ≢ b'/')) addr

abbrev pub print_url : Text → Host → Option Text → Text
print_url scheme host port = scheme ++ (b'/' ∷ (b'/' ∷ (print_host host ++ print_port port)))

unsplit : (t : Text) → All IsNoSlash t → split_slashes t ≡ t ∷ []
unfolding split_slashes
unsplit [] h = refl
unsplit (c ∷ []) h = refl
unsplit (c ∷ d ∷ s) h = ground (arith, unsplit (d ∷ s) h.1)

split_scheme :
    (scheme rest : Text)
    → All IsNoSlash scheme
    → All IsNoSlash rest
    → split_slashes (scheme ++ (b'/' ∷ (b'/' ∷ rest))) ≡ scheme ∷ rest ∷ []
unfolding split_slashes
split_scheme [] rest h k = ground (arith, unsplit rest k)
split_scheme (c ∷ []) rest h k = ground (arith, split_scheme [] rest tt k)
split_scheme (c ∷ d ∷ s) rest h k = ground (arith, split_scheme (d ∷ s) rest h.1 k)

first_or-cons_first :
    (t : Text) (c : ℕ) (parts : List Text) → first_or t (cons_first c parts) ≡ c ∷ first_or [] parts
first_or-cons_first t c [] = refl
first_or-cons_first t c (part ∷ parts) = refl

first_part :
    (t name : Text) (port : Option Text)
    → All (λ d. (d ≢ b':') × (d ≢ b'/')) name
    → first_or t (split_on b':' (name ++ print_port port)) ≡ name
unfolding split_on
first_part t [] none h = refl
first_part t [] (some port) h = refl
first_part t (c ∷ name) port h =
    let rest = split_on b':' (name ++ print_port port) in
    let first = first_or-cons_first t c rest in
    let later = first_part [] name port h.1 in ground arith

bracket_part :
    (addr rest : Text)
    → All (λ d. (d ≢ b']') × (d ≢ b'/')) addr
    → through_bracket ((addr ++ (b']' ∷ [])) ++ rest) ≡ some (addr ++ (b']' ∷ []))
unfolding through_bracket
bracket_part [] rest h = refl
bracket_part (c ∷ addr) rest h = ground (arith, bracket_part addr rest h.1)

second_half : (P : ℕ → Type 0) (t : Text) → All (λ d. P d × (d ≢ b'/')) t → All IsNoSlash t
second_half P [] h = tt
second_half P (c ∷ t) h = (h.0.1, second_half P t h.1)

print_host-IsNoSlash : (host : Host) → IsHost host → All IsNoSlash (print_host host)
print_host-IsNoSlash (Host.named []) h = absurd h
print_host-IsNoSlash (Host.named (c ∷ name)) h = second_half (λ d. d ≢ b':') (c ∷ name) h.1
print_host-IsNoSlash (Host.bracketed addr) h = (
  ground arith,
  All-append IsNoSlash addr (b']' ∷ []) (second_half (λ d. d ≢ b']') addr h) (ground arith, tt),
)

host_part-print :
    (host : Host) (port : Option Text)
    → IsHost host
    → host_part (print_host host ++ print_port port) ≡ print_host host
unfolding host_part
host_part-print (Host.named []) port h = absurd h
host_part-print (Host.named (c ∷ name)) port h =
    let first = first_part ((c ∷ name) ++ print_port port) (c ∷ name) port h.1 in ground arith
host_part-print (Host.bracketed addr) port h =
    let cut = bracket_part addr (print_port port) h in ground arith

nonempty-print : (host : Host) → IsHost host → nonempty (print_host host) ≡ some (print_host host)
nonempty-print (Host.named []) h = absurd h
nonempty-print (Host.named (c ∷ name)) h = refl
nonempty-print (Host.bracketed addr) h = refl

extract_steps :
    (scheme rest : Text)
    → extract_url_host (scheme ++ (b'/' ∷ rest))
      ≡ nonempty (
          host_part (second_or (scheme ++ (b'/' ∷ rest)) (split_slashes (scheme ++ (b'/' ∷ rest)))))
unfolding extract_url_host
extract_steps [] rest = refl
extract_steps (c ∷ scheme) rest = refl

-- The host that is read from a URL of a scheme without `/`, a host and perhaps a port without `/` is
-- that host, a name or an address in brackets, with its brackets; the port is not part of it.
pub extract_url_host-print_url :
    (scheme : Text) (host : Host) (port : Option Text)
    → All IsNoSlash scheme
    → IsHost host
    → All IsNoSlash (print_port port)
    → extract_url_host (print_url scheme host port) ≡ some (print_host host)
extract_url_host-print_url scheme host port s h p =
    let rest = print_host host ++ print_port port in
    let cut =
      split_scheme scheme rest s (
        All-append IsNoSlash (print_host host) (print_port port) (print_host-IsNoSlash host h) p) in
    extract_steps scheme (b'/' ∷ rest)
    ∙ ap (λ parts. nonempty (host_part (second_or (print_url scheme host port) parts))) cut
    ∙ ap nonempty (host_part-print host port h)
    ∙ nonempty-print host h
