-- ===== src/Cert.antt =====
-- src/cert.rs: the certificate that the dashboard's CA signs for an agent.
pub mod Validity
use panel_agent.Common.{
  ℕ, ◌^◌, Bool, not, ◌||◌, Option, none, some, Text, txt, text_eq, length, ltb, leb, ◌==◌, trim,
  if◌then◌else◌,
}
use panel_agent.Runtime.{Env, SignedCert, M, ◌>>=◌, ◌>>◌, pure, ask, refuse_if, or_throw}

pub data CertError : Type 0 where
  payload_base64 signature_base64 bad_key signature_length signature_invalid : CertError
  payload_json wrong_agent expired : CertError

-- `now > expires_at` on i64: a pattern from 2^63 on is negative.
unfoldable pub is_expired : ℕ → ℕ → Bool
is_expired now expires_at = leb (2 ^ 63) expires_at || ltb expires_at now

module _ (e : Env) where
  open e use {crypto, machine, parse_cert}
  open machine use {World, clock, read_file, env_var}

  -- `and_then(|p| read_to_string(p).ok())`
  unfoldable pub read_path : {E : Type 0} → Option Text → M World E (Option Text)
  read_path none = pure none
  read_path (some path) = ask (read_file path)

  -- `or_else`: the variable is read when the file gives nothing.
  unfoldable pub or_variable : {E : Type 0} → Option Text → M World E (Option Text)
  unfolding txt
  or_variable none = ask (env_var (txt "CA_PUBLIC_KEY"))
  or_variable (some raw) = pure (some raw)

  abbrev pub key_of_length : Option Text → Option Text
  key_of_length none = none
  key_of_length (some bytes) = if length bytes == 32 then some bytes else none

  abbrev pub decode_key : Option Text → Option Text
  decode_key none = none
  decode_key (some raw) = key_of_length (crypto.decode_base64url (trim raw))

  unfoldable pub load_ca_public_key : {E : Type 0} → M World E (Option Text)
  unfolding read_path or_variable txt
  load_ca_public_key = do
    path ← ask (env_var (txt "CA_PUBLIC_KEY_FILE"))
    from_file ← read_path path
    raw ← or_variable from_file
    pure (decode_key raw)

  unfoldable pub verify_cert : SignedCert → Text → Text → M World CertError (Unit {0})
  verify_cert cert ca_public expected_agent_id = do
    payload_bytes ← or_throw (crypto.decode_base64url cert.payload) CertError.payload_base64
    sig_bytes ← or_throw (crypto.decode_base64url cert.signature) CertError.signature_base64
    refuse_if (not (crypto.key_is_valid ca_public)) CertError.bad_key
    refuse_if (not (length sig_bytes == 64)) CertError.signature_length
    refuse_if (not (crypto.verify ca_public payload_bytes sig_bytes)) CertError.signature_invalid
    payload ← or_throw (parse_cert payload_bytes) CertError.payload_json
    refuse_if (not (text_eq payload.agent_id expected_agent_id)) CertError.wrong_agent
    now ← ask clock
    refuse_if (is_expired now payload.expires_at) CertError.expired
