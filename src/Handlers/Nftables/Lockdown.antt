-- ===== src/Handlers/Nftables/Lockdown.antt =====
-- Frame lemmas for the nftables commands: the lockdown.
use panel_agent.Common.{ℕ, ◌≡◌, refl, ap, ◌∙◌, Option, none, some, Text, arith}
use panel_agent.Runtime.{Env, Agent, Db, VerifiedCommand, ◌>>=◌, or_throw, modify_app, AgentError}
use panel_agent.Runtime.Frame.{Keeps, keeps, guard, kept}
use panel_agent.State.{AppState}
use panel_agent.Nftables.Lockdown.{raw-Keeps, apply-Keeps, current-Keeps, store-Keeps}
use panel_agent.Handlers.Nftables.{
  apply_current_ruleset, try_update, set_body, apply_stored, apply_chain, apply_port, apply_by,
  handle_nftables_apply, handle_nftables_restore, handle_nftables_accept,
}

module _ (e : Env) where
  applied-Keeps : Keeps (apply_current_ruleset e)
  unfolding apply_current_ruleset
  applied-Keeps = search (keeps, apply-Keeps, store-Keeps) depth 20

  try-Keeps : (f : Db → Db) → ((db : Db) → (f db).audit_log ≡ db.audit_log) → Keeps (try_update e f)
  unfolding try_update
  try-Keeps f h = search keeps depth 20

  port-Keeps : (n : ℕ) → Keeps (apply_port e n)
  unfolding apply_port
  port-Keeps n = search (keeps, applied-Keeps, try-Keeps) depth 20

  pub nftables_restore-Keeps :
      (cmd : VerifiedCommand e.json.Value) → Keeps (handle_nftables_restore e cmd)
  unfolding handle_nftables_restore
  nftables_restore-Keeps cmd = search (keeps, raw-Keeps, store-Keeps) depth 20

  pub nftables_accept-Keeps :
      (cmd : VerifiedCommand e.json.Value) → Keeps (handle_nftables_accept e cmd)
  unfolding handle_nftables_accept
  nftables_accept-Keeps cmd = search (keeps, current-Keeps) depth 20

  guard-set_body :
      (chain rules : Text) (a b : AppState) → set_body chain rules a ≡ some b → guard b ≡ guard a
  unfolding set_body
  guard-set_body chain rules a b h = ground arith

  stored-Keeps : (chain rules : Text) → Keeps (apply_stored e chain rules)
  unfolding apply_stored
  stored-Keeps chain rules = search (keeps, applied-Keeps, try-Keeps) depth 20

  -- After `set_body`, that gives `o`.
  guard-changed :
      (chain rules why : Text) (s : Agent e.machine.World) (o : Option AppState)
      → ((b : AppState) → o ≡ some b → guard b ≡ guard s.app)
      → kept
          ((or_throw o (AgentError.bad_request why) >>= λ app.
              modify_app (λ _. app) >>= λ _. apply_stored e chain rules)
            s).1
        ≡ kept s
  unfolding Keeps
  guard-changed chain rules why s none h = refl
  guard-changed chain rules why s (some b) h =
      stored-Keeps chain rules (record s { app = b }) ∙ ap (λ g. (g, s.db.audit_log)) (h b refl)

  chain-Keeps : (chain rules : Text) → Keeps (apply_chain e chain rules)
  unfolding apply_chain Keeps
  chain-Keeps chain rules s =
      guard-changed chain rules _ s (set_body chain rules s.app)
        (λ b. guard-set_body chain rules s.app b)

  by-Keeps : (chain : Option Text) (v : e.json.Value) → Keeps (apply_by e chain v)
  unfolding apply_by
  by-Keeps none v = port-Keeps _
  by-Keeps (some chain) v = chain-Keeps chain _

  pub nftables_apply-Keeps :
      (cmd : VerifiedCommand e.json.Value) → Keeps (handle_nftables_apply e cmd)
  unfolding handle_nftables_apply
  nftables_apply-Keeps cmd = search (keeps, by-Keeps) depth 20
