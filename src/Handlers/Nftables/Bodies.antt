-- ===== src/Handlers/Nftables/Bodies.antt =====
-- What `nftables.apply` leaves in memory.
use panel_agent.Common.{◌≡◌, ap, inl, inr, Option, none, some, Text, arith}
use panel_agent.Runtime.{Env, Agent, ok, AgentError, or_throw, modify_app, ◌>>=◌, Answer}
use panel_agent.Runtime.Laws.{Outcome-cases}
use panel_agent.State.{AppState}
use panel_agent.Nftables.{apply, render_ruleset, store_checksums, run_nft, persist_ruleset}
use panel_agent.Handlers.Nftables.{
  set_body, apply_chain, apply_stored, apply_current_ruleset, current_ruleset, try_update,
}

module _ (e : Env) (chain rules : Text) where
  open e use {json, machine, crypto, config}

  changed_steps :
      (why : Text) (s : Agent machine.World) (o : Option AppState) (b : AppState)
      → o ≡ some b
      → (or_throw o (AgentError.bad_request why) >>= λ app.
            modify_app (λ _. app) >>= λ _. apply_stored e chain rules)
          s
        ≡ apply_stored e chain rules (record s { app = b })
  changed_steps why s none b h = absurd (ground arith)
  changed_steps why s (some c) b h =
      ap
        (λ o.
          (or_throw o (AgentError.bad_request why) >>= λ app.
          modify_app (λ _. app) >>= λ _. apply_stored e chain rules)
            s)
        h

  pub apply_chain_steps :
      (s : Agent machine.World) (b : AppState)
      → set_body chain rules s.app ≡ some b
      → apply_chain e chain rules s ≡ apply_stored e chain rules (record s { app = b })
  unfolding apply_chain
  apply_chain_steps s b h = changed_steps _ s (set_body chain rules s.app) b h

  apply-ok :
      (s : Agent machine.World) {nft : Text}
      → (apply machine crypto (current_ruleset config s.app) s).0 ≡ ok nft
      → nft ≡ render_ruleset (current_ruleset config s.app)
  unfolding apply run_nft persist_ruleset
  apply-ok s h = ground arith

  applied_ok :
      (s : Agent machine.World) {a : Answer}
      → (apply_current_ruleset e s).0 ≡ ok a
      → (apply_current_ruleset e s).1.app.nft_last_ruleset
        ≡ some (render_ruleset (current_ruleset config s.app))
  unfolding apply_current_ruleset
  applied_ok s h = elim (Outcome-cases (apply machine crypto (current_ruleset config s.app) s).0) [
    | inl (nft, eq) ↦
        let shown = apply-ok s eq in
        elim (Outcome-cases
          (store_checksums machine crypto
            (apply machine crypto (current_ruleset config s.app) s).1).0) [
              | inl (_, stored) ↦ ground arith
              | inr bad ↦ absurd (ground arith)
            ]
    | inr bad ↦ absurd (ground arith)
  ]

  stored_ok :
      (s : Agent machine.World) {a : Answer}
      → (apply_stored e chain rules s).0 ≡ ok a
      → (apply_stored e chain rules s).1.app.nft_last_ruleset
        ≡ some (render_ruleset (current_ruleset config s.app))
  unfolding apply_stored try_update
  stored_ok s h = elim (Outcome-cases (apply_current_ruleset e s).0) [
    | inl (a, eq) ↦ let kept = applied_ok s eq in ground arith
    | inr bad ↦ absurd (ground arith)
  ]

  -- If a chain's body is applied, the ruleset remembered for a restoration is the one that the
  -- new bodies in memory render to.
  pub apply_chain_remembers :
      (s : Agent machine.World) (b : AppState) {a : Answer}
      → set_body chain rules s.app ≡ some b
      → (apply_chain e chain rules s).0 ≡ ok a
      → (apply_chain e chain rules s).1.app.nft_last_ruleset
        ≡ some (render_ruleset (current_ruleset config b))
  apply_chain_remembers s b {a} changed =
      rw (apply_chain_steps s b changed) (stored_ok (record s { app = b }) {a = a})
