-- ===== src/Daemon/Listener.antt =====
-- The choice between mTLS and plain HTTP in src/main.rs. rustls is a parameter.
use panel_agent.Common.{Option, none, some, Text}
use panel_agent.Settings.{Settings}

-- What rustls makes of DER bytes, where it accepts them.
pub record Tls : Type 1 where
  pub Roots : Type 0
  pub Verifier : Type 0
  pub ServerConfig : Type 0
  pub add_root : Text → Option Roots
  pub client_verifier : Roots → Option Verifier
  pub with_single_cert : Verifier → Text → Text → Option ServerConfig

module _ (tls : Tls) where
  open tls use {Roots, Verifier, ServerConfig, add_root, client_verifier, with_single_cert}

  pub data Listener : Type 0 where
    mtls : ServerConfig → Listener
    plain : Listener

  abbrev with_verifier : Text → Text → Option Verifier → Option ServerConfig
  with_verifier cert_der key_der none = none
  with_verifier cert_der key_der (some verifier) = with_single_cert verifier cert_der key_der

  abbrev with_roots : Text → Text → Option Roots → Option ServerConfig
  with_roots cert_der key_der none = none
  with_roots cert_der key_der (some roots) = with_verifier cert_der key_der (client_verifier roots)

  -- A step that fails is logged, and gives `none`.
  abbrev acceptor_of : Option Text → Option Text → Option Text → Option ServerConfig
  acceptor_of none key ca = none
  acceptor_of (some cert_der) none ca = none
  acceptor_of (some cert_der) (some key_der) none = none
  acceptor_of (some cert_der) (some key_der) (some ca_cert_der) =
      with_roots cert_der key_der (add_root ca_cert_der)

  unfoldable pub build_tls_acceptor : Settings → Option ServerConfig
  build_tls_acceptor config =
      acceptor_of config.tls_cert_der config.tls_key_der config.tls_ca_cert_der

  -- The `match` that serves.
  unfoldable pub listener_of : Option ServerConfig → Listener
  listener_of (some acceptor) = Listener.mtls acceptor
  listener_of none = Listener.plain
