-- ===== src/Nftables/Restore.antt =====
-- What the divergence check does with the ruleset, the baseline and the lockdown.
use panel_agent.Common.{
  ◌≡◌, ◌≢◌, Option-cases, inl, inr, Bool, true, false, some, Text, text_eq, text_eq_iff, length,
  arith, ltb,
}
use panel_agent.State.{LockdownReason, set_lockdown}
use panel_agent.Runtime.{Env, Agent, AgentError, ok, err, panicked}
use panel_agent.Runtime.Laws.{Outcome-cases}
use panel_agent.Nftables.Apply.{
  apply_emergency, run_nft, persist_ruleset, current_checksum, chain_checksum, checksum_of,
}
use panel_agent.Nftables.Divergence.{
  Chain, expected_chain_checksum, chain_name, blamed, check_once, repair, restore_and_notify,
  restore, is_chain_diverged, after_restore, notify_dashboard,
}

module _ (e : Env) where
  open e use {machine, crypto, config}

  checksum_keeps :
      (s : Agent machine.World)
      → ((current_checksum machine crypto s).1.app ≡ s.app)
        × ((current_checksum machine crypto s).1.db ≡ s.db)
        × ((current_checksum machine crypto s).0 ≢ panicked)
  unfolding current_checksum checksum_of
  checksum_keeps s = ground arith

  chain_keeps :
      (chain : Text) (s : Agent machine.World)
      → ((chain_checksum machine crypto chain s).1.app ≡ s.app)
        × ((chain_checksum machine crypto chain s).1.db ≡ s.db)
        × ((chain_checksum machine crypto chain s).0 ≢ panicked)
  unfolding chain_checksum checksum_of
  chain_keeps chain s = ground arith

  -- A round that has no baseline, or cannot read the table, or reads the checksum of the baseline,
  -- leaves the state and the tables as they were and succeeds: no ruleset is applied.
  pub check_once_quiet :
      (s : Agent machine.World)
      → ((expected current : Text)
          → s.app.nft_checksum ≡ some expected
          → (current_checksum machine crypto s).0 ≡ ok current
          → current ≡ expected)
      → ((check_once e s).0 ≡ ok tt)
        × ((check_once e s).1.app ≡ s.app)
        × ((check_once e s).1.db ≡ s.db)
  unfolding check_once
  check_once_quiet s same = elim (Option-cases s.app.nft_checksum) [
    | inl none_yet ↦ ground arith
    | inr (expected, baseline) ↦ elim (Outcome-cases (current_checksum machine crypto s).0) [
      | inl (current, read) ↦
          let eq = same expected current baseline read in
          ground (arith, checksum_keeps s, text_eq_iff current expected)
      | inr bad ↦ ground (arith, checksum_keeps s)
    ]
  ]

  diverged_keeps :
      (chain : Chain) (s : Agent machine.World)
      → ((is_chain_diverged e chain s).1.app ≡ s.app)
        × ((is_chain_diverged e chain s).0 ≢ panicked)
        × ((x : AgentError) → (is_chain_diverged e chain s).0 ≢ err x)
  unfolding is_chain_diverged
  diverged_keeps chain s =
      elim (Option-cases (expected_chain_checksum chain s.app.nft_chain_checksums)) [
        | inl no_baseline ↦ (ground arith, ground arith, λ x. ground arith)
        | inr (expected, known) ↦
            let kept = chain_keeps (chain_name chain) s in
            (ground arith, ground arith, λ x. ground arith)
      ]

  diverged_ok :
      (chain : Chain) (s : Agent machine.World)
      → (b : Bool) × ((is_chain_diverged e chain s).0 ≡ ok b)
  diverged_ok chain s =
      let (_, total, no_err) = diverged_keeps chain s in
      elim (Outcome-cases (is_chain_diverged e chain s).0) [
        | inl found ↦ found
        | inr (inl (x, eq)) ↦ absurd (no_err x eq)
        | inr (inr eq) ↦ absurd (total eq)
      ]

  -- The state when `restore` is called.
  abbrev pub before_restore : Agent machine.World → Agent machine.World
  before_restore s =
      (is_chain_diverged e Chain.local
        (is_chain_diverged e Chain.global (is_chain_diverged e Chain.base s).1).1).1

  emergency_total : (s : Agent machine.World) → (apply_emergency machine crypto s).0 ≢ panicked
  unfolding apply_emergency run_nft persist_ruleset
  emergency_total s = ground arith

  after_failure :
      (s : Agent machine.World) (x : AgentError)
      → ((after_restore e (err x) s).0 ≡ ok tt)
        × ((after_restore e (err x) s).1.app.lockdown ≡ true)
        × ((after_restore e (err x) s).1.app.lockdown_reason ≡ some LockdownReason.nftables_failure)
  unfolding after_restore set_lockdown
  after_failure s x = ground (arith, emergency_total s)

  notify_keeps :
      (chain : Text) (b : Bool) (s : Agent machine.World)
      → ((notify_dashboard e chain b s).1.app ≡ s.app) × ((notify_dashboard e chain b s).0 ≡ ok tt)
  unfolding notify_dashboard
  notify_keeps chain b s = elim (Option-cases config.dashboard_url) [
    | inl no_url ↦ ground arith
    | inr (url, u) ↦ elim (Option-cases config.sync_token) [
      | inl no_token ↦ ground arith
      | inr (token, t) ↦ ground arith
    ]
  ]

  notified_locks :
      (s : Agent machine.World) (chain : Text) (b : Bool) {x : AgentError}
      → (restore e s).0 ≡ err x
      → ((restore_and_notify e chain b s).1.app.lockdown ≡ true)
        × ((restore_and_notify e chain b s).1.app.lockdown_reason
            ≡ some LockdownReason.nftables_failure)
  unfolding restore_and_notify
  notified_locks s chain b {x} failed =
      let s1 = (restore e s).1 in
      let locked = after_failure s1 x in
      let told = notify_keeps chain b (after_restore e (err x) s1).1 in (ground arith, ground arith)

  repair_locks :
      (s : Agent machine.World) (expected current : Text) {x : AgentError}
      → ltb (length expected) 16 ≡ false
      → ltb (length current) 16 ≡ false
      → (restore e (before_restore s)).0 ≡ err x
      → ((repair e expected current s).1.app.lockdown ≡ true)
        × ((repair e expected current s).1.app.lockdown_reason
            ≡ some LockdownReason.nftables_failure)
  unfolding repair
  repair_locks s expected current {x} long long' failed =
      let s1 = (is_chain_diverged e Chain.base s).1 in
      let s2 = (is_chain_diverged e Chain.global s1).1 in
      let (b, eb) = diverged_ok Chain.base s in
      let (g, eg) = diverged_ok Chain.global s1 in
      let (l, el) = diverged_ok Chain.local s2 in
      let locked = notified_locks (before_restore s) (blamed b g l) b failed in
      (ground arith, ground arith)

  -- If a round finds the table changed, its checksums not shorter than the sixteen bytes that are
  -- logged, and the restoration fails, the agent is locked down with the reason `NftablesFailure`,
  -- whatever the state was and whether or not the emergency ruleset can be applied.
  pub check_once_locks :
      (s : Agent machine.World) (expected current : Text) {x : AgentError}
      → s.app.nft_checksum ≡ some expected
      → (current_checksum machine crypto s).0 ≡ ok current
      → text_eq current expected ≡ false
      → ltb (length expected) 16 ≡ false
      → ltb (length current) 16 ≡ false
      → (restore e (before_restore (current_checksum machine crypto s).1)).0 ≡ err x
      → ((check_once e s).1.app.lockdown ≡ true)
        × ((check_once e s).1.app.lockdown_reason ≡ some LockdownReason.nftables_failure)
  unfolding check_once
  check_once_locks s expected current baseline read changed long long' failed =
      let locked =
        repair_locks (current_checksum machine crypto s).1 expected current long long' failed in
      (ground arith, ground arith)
