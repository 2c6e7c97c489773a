-- ===== src/Auth/Envelope.antt =====
-- Steps 1 to 5 of `verify_command`: nothing here touches the state.
use panel_agent.Common.{
  ℕ, ◌+◌, ◌-◌, ◌%◌, ◌^◌, Bool, true, false, ◌&&◌, Option, none, some, Text, txt, text_eq, length,
  ltb, ◌==◌, if◌then◌else◌, ◌++◌, decimal,
}
use panel_agent.Runtime.{Crypto, Json, SignedCommand, CommandPayload, Outcome, ok, err, panicked}

abbrev pub max_timestamp_skew_secs : ℕ
max_timestamp_skew_secs = 30

pub data VerifyError : Type 0 where
  payload_base64 signature_base64 bad_key signature_length signature_invalid : VerifyError
  payload_json wrong_agent : VerifyError
  stale : ℕ → VerifyError
  purge_failed insert_failed replay : VerifyError

-- `e.to_string()`: the outermost context.
unfoldable pub verify_message : VerifyError → Text
unfolding txt
verify_message VerifyError.payload_base64 = txt "payload: invalid base64url"
verify_message VerifyError.signature_base64 = txt "signature: invalid base64url"
verify_message VerifyError.bad_key = txt "invalid dashboard verify key"
verify_message VerifyError.signature_length = txt "signature must be 64 bytes"
verify_message VerifyError.signature_invalid = txt "signature verification failed"
verify_message VerifyError.payload_json = txt "invalid payload JSON"
verify_message VerifyError.wrong_agent = txt "command not addressed to this agent"
verify_message (VerifyError.stale skew) =
    txt "timestamp too old or in future (skew=" ++ decimal skew ++ txt "s)"
verify_message VerifyError.purge_failed = txt "purge expired nonces"
verify_message VerifyError.insert_failed = txt "insert nonce"
verify_message VerifyError.replay = txt "nonce already used (replay attack)"

-- `(now - timestamp).abs()` on i64, as bit patterns: both operations wrap in a release build.
unfoldable pub skew_of : ℕ → ℕ → ℕ
skew_of now timestamp =
    let d = (now + 2 ^ 64 - timestamp) % 2 ^ 64 in
    if ltb d (2 ^ 63) then d else (2 ^ 64 - d) % 2 ^ 64

-- `skew > MAX_TIMESTAMP_SKEW_SECS` on i64: a pattern from 2^63 on is negative.
unfoldable pub is_stale : ℕ → Bool
is_stale skew = ltb skew (2 ^ 63) && ltb max_timestamp_skew_secs skew

infixl 5 ◌>>=◌
abbrev ◌>>=◌ :
    {A B : Type 0} → Outcome VerifyError A → (A → Outcome VerifyError B) → Outcome VerifyError B
ok a >>= f = f a
err e >>= f = err e
panicked >>= f = panicked

abbrev require : Bool → VerifyError → Outcome VerifyError (Unit {0})
require true e = ok tt
require false e = err e

abbrev some_or : {A : Type 0} → Option A → VerifyError → Outcome VerifyError A
some_or none e = err e
some_or (some a) e = ok a

-- Steps 1 to 4, up to the test of `agent_id`.
unfoldable pub open_envelope :
    (c : Crypto) (j : Json)
    → (Text → Option (CommandPayload j.Value))
    → Text
    → Text
    → SignedCommand
    → Outcome VerifyError (CommandPayload j.Value)
open_envelope c j parse key own signed = do
  payload_bytes ← some_or (c.decode_base64url signed.payload) VerifyError.payload_base64
  sig_bytes ← some_or (c.decode_base64url signed.signature) VerifyError.signature_base64
  _ ← require (c.key_is_valid key) VerifyError.bad_key
  _ ← require (length sig_bytes == 64) VerifyError.signature_length
  _ ← require (c.verify key payload_bytes sig_bytes) VerifyError.signature_invalid
  payload ← some_or (parse payload_bytes) VerifyError.payload_json
  _ ← require (text_eq payload.agent_id own) VerifyError.wrong_agent
  ok payload

module _ (j : Json) where
  open j use {Value, get, as_str}

  -- `.get(key).and_then(|v| v.as_str())`
  abbrev pub get_str : Text → Value → Option Text
  get_str key v = elim (get key v) [ none ↦ none | some found ↦ as_str found ]

  abbrev is_ack_name : Option Text → Bool
  is_ack_name none = false
  is_ack_name (some t) = text_eq t (txt "agent.heartbeat_ack")

  unfoldable pub is_heartbeat_ack : Value → Bool
  is_heartbeat_ack command = is_ack_name (get_str (txt "type") command)
