-- ===== src/Startup/Reload.antt =====
-- What the reload at a start leaves in memory.
use panel_agent.Common.{◌≡◌, ◌≢◌, refl, ap, sym, ◌∙◌, subst, false, some, Text, arith, inl, inr}
use panel_agent.State.{AppState}
use panel_agent.Runtime.{Env, Agent, AgentError, Outcome, ok, err, panicked, branch, pure}
use panel_agent.Runtime.Laws.{Outcome-cases, catch_bind}
use panel_agent.Nftables.{
  apply, run_nft, persist_ruleset, store_chain_checksums, current_checksum, chain_checksum,
}
use panel_agent.Handlers.Nftables.{current_ruleset}
use panel_agent.Startup.{
  StoredBodies, stored_bodies, load_bodies, reload_nftables, after_apply, apply_loaded,
}

-- The four bodies of the state are those of the record.
abbrev pub HasBodies : AppState → StoredBodies → Type 0
HasBodies a b =
    (a.nft_global_body ≡ b.global_body)
    × (a.nft_local_body ≡ b.local_body)
    × (a.nft_global_output_body ≡ b.global_output_body)
    × (a.nft_local_output_body ≡ b.local_output_body)

-- Two states with the same four bodies.
abbrev pub SameBodies : AppState → AppState → Type 0
SameBodies a b =
    (a.nft_global_body ≡ b.nft_global_body)
    × (a.nft_local_body ≡ b.nft_local_body)
    × (a.nft_global_output_body ≡ b.nft_global_output_body)
    × (a.nft_local_output_body ≡ b.nft_local_output_body)

module _ (e : Env) where
  open e use {machine, crypto, config}

  chain_checksums_keep :
      (s : Agent machine.World)
      → SameBodies (store_chain_checksums machine crypto s).1.app s.app
        × ((store_chain_checksums machine crypto s).0 ≢ panicked)
  unfolding store_chain_checksums chain_checksum
  chain_checksums_keep s = ground arith

  checksum_keeps : (s : Agent machine.World) → (current_checksum machine crypto s).1.app ≡ s.app
  unfolding current_checksum
  checksum_keeps s = ground arith

  after_apply_keeps :
      (r : Outcome AgentError Text) (s : Agent machine.World)
      → SameBodies (after_apply e r s).1.app s.app
  unfolding after_apply
  after_apply_keeps (ok rendered) s =
      let kept = checksum_keeps s in
      elim (Outcome-cases (current_checksum machine crypto s).0) [
        | inl (c, h) ↦
            let t : Agent machine.World = record (current_checksum machine crypto s).1 {
              app = record (current_checksum machine crypto s).1.app { nft_checksum = some c };
            } in
            let (same, _) = chain_checksums_keep t in ground arith
        | inr (inl (x, h)) ↦
            let (same, _) = chain_checksums_keep (current_checksum machine crypto s).1 in
            ground arith
        | inr (inr h) ↦ ground arith
      ]
  after_apply_keeps (err x) s = (refl, refl, refl, refl)
  after_apply_keeps panicked s = (refl, refl, refl, refl)

  apply_keeps :
      (s : Agent machine.World)
      → (apply machine crypto (current_ruleset config s.app) s).1.app ≡ s.app
  unfolding apply run_nft persist_ruleset
  apply_keeps s = ground arith

  abbrev loaded : Agent machine.World → Agent machine.World
  loaded s = record s {
    app = load_bodies (stored_bodies s.db) s.app;
    world = (machine.query_fails s.world).1;
  }

  panic_passes : (s : Agent machine.World) → after_apply e panicked s ≡ (panicked, s)
  unfolding after_apply
  panic_passes s = refl

  reload_steps :
      (s : Agent machine.World)
      → (machine.query_fails s.world).0 ≡ false
      → reload_nftables e s
        ≡ after_apply e
            (apply machine crypto (current_ruleset config (loaded s).app) (loaded s)).0
            (apply machine crypto (current_ruleset config (loaded s).app) (loaded s)).1
  unfolding reload_nftables
  reload_steps s h =
      let caught =
        catch_bind (after_apply e) (loaded s)
          (apply machine crypto (current_ruleset config (loaded s).app)) panic_passes in
      ap
        (λ fails.
          branch fails (pure tt) (apply_loaded e s.db)
            (record s { world = (machine.query_fails s.world).1 }))
        h
      ∙ caught

  loaded-HasBodies : (s : Agent machine.World) → HasBodies (loaded s).app (stored_bodies s.db)
  unfolding load_bodies
  loaded-HasBodies s = (refl, refl, refl, refl)

  pub reload-HasBodies :
      (s : Agent machine.World)
      → (machine.query_fails s.world).0 ≡ false
      → HasBodies (reload_nftables e s).1.app (stored_bodies s.db)
  reload-HasBodies s h =
      let r = apply machine crypto (current_ruleset config (loaded s).app) (loaded s) in
      let after : SameBodies (after_apply e r.0 r.1).1.app r.1.app = after_apply_keeps r.0 r.1 in
      let same : r.1.app ≡ (loaded s).app = apply_keeps (loaded s) in
      let has : HasBodies r.1.app (stored_bodies s.db) =
        subst (λ a. HasBodies a (stored_bodies s.db)) (sym same) (loaded-HasBodies s) in
      let (g, l, go, lo) = after in
      let (g', l', go', lo') = has in
      subst (λ p. HasBodies p.1.app (stored_bodies s.db)) (sym (reload_steps s h))
        (g ∙ g', l ∙ l', go ∙ go', lo ∙ lo')
