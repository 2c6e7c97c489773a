-- ===== src/Update/Download.antt =====
-- The download and the verification of a release, of src/update/mod.rs.
use panel_agent.Common.{
  ℕ, ◌/◌, Bool, false, not, ◌&&◌, ◌||◌, Option, none, some, List, [], ◌∷◌, ◌++◌, Text, txt,
  starts_with, decimal, length, any, all, ltb, leb, ◌==◌,
}
use panel_agent.Runtime.{Env, M, ◌>>=◌, ◌>>◌, pure, ask, refuse_if, or_throw}
use panel_agent.Runtime.Web.{Ip, Client, Web}

-- The steps that can fail.
pub data UpdateError : Type 0 where
  domain bad_url no_host no_port dns no_address private_address build : UpdateError
  request status too_long body : UpdateError
  release_key signature_length signature : UpdateError
  write permissions backup rename : UpdateError
  releases no_release : UpdateError

abbrev all_zero : List ℕ → Bool
all_zero segments = all (λ x. x == 0) segments

-- `::1`
abbrev is_one : List ℕ → Bool
is_one [] = false
is_one (x ∷ []) = x == 1
is_one (x ∷ y ∷ xs) = x == 0 && is_one (y ∷ xs)

-- `is_private`, `is_loopback`, `is_link_local` and `is_unspecified` of an IPv4 address.
abbrev v4_private : ℕ → ℕ → Bool
v4_private a b = a == 10 || (a == 172 && (leb 16 b && leb b 31) || (a == 192 && b == 168))

-- The masks: a segment of fc00::/7 has 126 above its nine last bits, one of fe80::/10 has 1018 above
-- its six last.
unfoldable pub is_private_ip : Ip → Bool
is_private_ip (Ip.v4 a b c d) =
    v4_private a b
    || (a == 127 || (a == 169 && b == 254 || (a == 0 && (b == 0 && (c == 0 && d == 0)))))
is_private_ip (Ip.v6 []) = false
is_private_ip (Ip.v6 (x ∷ xs)) =
    is_one (x ∷ xs) || (all_zero (x ∷ xs) || (x / 512 == 126 || x / 64 == 1018))

abbrev allowed : List Text
allowed = txt "https://github.com/" ∷ txt "https://objects.githubusercontent.com/" ∷ []

-- One of the prefixes.
unfoldable pub is_allowed : Text → Bool
unfolding txt starts_with
is_allowed url = any (λ prefix. starts_with url prefix) allowed

abbrev pub size_limit : ℕ
size_limit = 209715200

-- The length that the header announces is over the limit.
abbrev announces_more : Option ℕ → Bool
announces_more none = false
announces_more (some n) = ltb size_limit n

abbrev pub first_of : List Ip → Option Ip
first_of [] = none
first_of (ip ∷ ips) = some ip

module _ (e : Env) (web : Web e.machine.World e.json.Value) where
  open e use {machine, crypto}
  open machine use {World}
  open web use {parse_url, lookup_host, build_client, get}

  unfoldable pub validate_github_url : Text → M World UpdateError (Unit {0})
  validate_github_url url = refuse_if (not (is_allowed url)) UpdateError.domain

  unfoldable pub build_ssrf_safe_client : Text → M World UpdateError Client
  unfolding txt
  build_ssrf_safe_client url = do
    parsed ← or_throw (parse_url url) UpdateError.bad_url
    host ← or_throw parsed.host UpdateError.no_host
    port ← or_throw parsed.port UpdateError.no_port
    found ← ask (lookup_host (host ++ (txt ":" ++ decimal port)))
    addrs ← or_throw found UpdateError.dns
    address ← or_throw (first_of addrs) UpdateError.no_address
    refuse_if (any is_private_ip addrs) UpdateError.private_address
    built ← ask build_client
    refuse_if (not built) UpdateError.build
    pure (record { host = host; address = address })

  unfoldable pub download_bytes : Client → Text → M World UpdateError Text
  download_bytes client url = do
    reply ← ask (get client url)
    resp ← or_throw reply UpdateError.request
    refuse_if (not (leb 200 resp.status && leb resp.status 299)) UpdateError.status
    refuse_if (announces_more resp.content_length) UpdateError.too_long
    bytes ← or_throw resp.body UpdateError.body
    refuse_if (ltb size_limit (length bytes)) UpdateError.too_long
    pure bytes

module _ (e : Env) (decode_base64 : Text → Option Text) where
  open e use {machine, crypto}
  open machine use {World}

  unfoldable pub load_verify_key : M World UpdateError Text
  unfolding txt
  load_verify_key = do
    bytes ←
        or_throw (decode_base64 (txt "APh+kh61dJeT0HzG+KQXELzDjK4ccvqY9K+FptOZ3+Y="))
          UpdateError.release_key
    refuse_if (not (length bytes == 32)) UpdateError.release_key
    pure bytes

  unfoldable pub verify_signature : Text → Text → M World UpdateError (Unit {0})
  unfolding load_verify_key
  verify_signature binary sig_bytes = do
    key ← load_verify_key
    refuse_if (not (crypto.key_is_valid key)) UpdateError.release_key
    refuse_if (not (length sig_bytes == 64)) UpdateError.signature_length
    refuse_if (not (crypto.verify key binary sig_bytes)) UpdateError.signature
