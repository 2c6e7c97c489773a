-- ===== src/Runtime/Web.antt =====
-- The HTTP client and the resolver of the background tasks: reqwest, the url crate and tokio's
-- `lookup_host`, as an interface.
use panel_agent.Common.{ℕ, Bool, Option, List, Text}

pub data Ip : Type 0 where
  v4 : (a b c d : ℕ) → Ip
  v6 : (segments : List ℕ) → Ip

-- A URL as the url crate reads it: `host_str` and `port_or_known_default`.
pub record UrlParts : Type 0 where
  pub host : Option Text
  pub port : Option ℕ

-- A client that reaches this host at this address (`resolve`). Like every client of reqwest it
-- follows redirects, and looks up any other host that it is sent to.
pub record Client : Type 0 where
  pub host : Text
  pub address : Ip

-- `body` is missing if it cannot be read to its end.
pub record Response : Type 0 where
  pub status : ℕ
  pub content_length : Option ℕ
  pub body : Option Text

pub record Web (W V : Type 0) : Type 0 where
  pub parse_url : Text → Option UrlParts
  pub lookup_host : Text → W → Option (List Ip) × W
  pub build_client : W → Bool × W
  pub get : Client → Text → W → Option Response × W
  pub get_json : Client → Text → W → Option V × W  -- sent, a success, and JSON
  pub is_healthy : Text → W → Bool × W  -- sent, and a success
  pub sleep : ℕ → W → W
  pub timestamp : W → Text × W
