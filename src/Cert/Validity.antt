-- ===== src/Cert/Validity.antt =====
-- What an accepted certificate has passed.
use panel_agent.Common.{
  ℕ, ◌≤◌, ◌<◌, ◌^◌, ◌≡◌, true, some, inl, inr, Text, length, arith, text_eq_iff, Option-cases,
}
use panel_agent.Runtime.{Env, SignedCert, AgentCert, Agent, ok}
use panel_agent.Cert.{verify_cert, is_expired}

-- The certificate is signed by the CA, is the agent's own, and has not expired at the time.
pub record IsValid (e : Env) (cert : SignedCert) (ca agent_id : Text) (now : ℕ) : Type 0 where
  pub bytes : Text
  pub signature : Text
  pub content : AgentCert
  pub decoded : e.crypto.decode_base64url cert.payload ≡ some bytes
  pub decoded_signature : e.crypto.decode_base64url cert.signature ≡ some signature
  pub length_64 : length signature ≡ 64
  pub verified : e.crypto.verify ca bytes signature ≡ true
  pub parsed : e.parse_cert bytes ≡ some content
  pub own : content.agent_id ≡ agent_id
  pub unexpired : now ≤ content.expires_at
  pub not_negative : content.expires_at < 2 ^ 63

-- A certificate that `verify` accepts decodes to bytes that the CA's key verifies with a signature
-- of 64 bytes, names this agent, and expires no earlier than the clock reads; the state is kept.
pub verify_cert_sound :
    (e : Env) (cert : SignedCert) (ca agent_id : Text) (s : Agent e.machine.World)
    → (verify_cert e cert ca agent_id s).0 ≡ ok tt
    → IsValid e cert ca agent_id (e.machine.clock s.world).0
      × ((verify_cert e cert ca agent_id s).1.app ≡ s.app)
      × ((verify_cert e cert ca agent_id s).1.db ≡ s.db)
unfolding verify_cert is_expired
verify_cert_sound e cert ca agent_id s h =
    elim (Option-cases (e.crypto.decode_base64url cert.payload)) [
      | inl bad ↦ absurd (ground arith)
      | inr (bytes, d) ↦ elim (Option-cases (e.crypto.decode_base64url cert.signature)) [
        | inl bad ↦ absurd (ground arith)
        | inr (signature, d') ↦ elim (Option-cases (e.parse_cert bytes)) [
          | inl bad ↦ absurd (ground arith)
          | inr (content, parsed) ↦ (
            record {
              bytes = bytes;
              signature = signature;
              content = content;
              decoded = d;
              decoded_signature = d';
              length_64 = ground arith;
              verified = ground arith;
              parsed = parsed;
              own = ground (arith, text_eq_iff content.agent_id agent_id);
              unexpired = ground arith;
              not_negative = ground arith;
            },
            ground arith,
            ground arith,
          )
        ]
      ]
    ]
