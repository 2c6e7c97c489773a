-- ===== src/Nftables/Growth.antt =====
-- A round of the divergence check, and the lockdown and the audit log.
use panel_agent.Common.{
  ◌≡◌, refl, Bool, true, false, Option, none, some, Text, text_eq, if◌then◌else◌, arith,
}
use panel_agent.State.{AppState, LockdownReason, set_lockdown}
use panel_agent.State.Lockdown.{LockEvent, lock_event, lock_event-IsStuck, lock_event-IsConsistent}
use panel_agent.Runtime.{Env, Agent, AgentError, Outcome, ok, err, panicked, M, ◌>>=◌, pure, catch}
use panel_agent.Runtime.Frame.{Keeps, keeps, kept}
use panel_agent.Runtime.Growth.{Locks, Grows, Grows-refl, Stays, stays, lock-Stays}
use panel_agent.Nftables.Apply.{apply_emergency, chain_checksum, current_checksum}
use panel_agent.Nftables.Divergence.{
  Chain, chain_name, is_chain_diverged, restore, notify_dashboard, after_restore,
  restore_and_notify, repair, compare_checksums, differs, check_once,
}
use panel_agent.Nftables.Lockdown.{raw-Keeps, current-Keeps, chain-Keeps, store-Keeps}

restore_failed-Locks : (a : AppState) → Locks a (set_lockdown LockdownReason.nftables_failure a)
unfolding lock_event
restore_failed-Locks a = (
  lock_event-IsStuck LockEvent.restore_failed a,
  lock_event-IsConsistent LockEvent.restore_failed a,
)

module _ (e : Env) where
  open e use {machine, crypto}

  abbrev chain_test : Chain → Text → M machine.World AgentError Bool
  chain_test chain expected = do
    current ← catch {D = AgentError} (chain_checksum machine crypto (chain_name chain))
    pure (differs expected current)

  test-Keeps : (chain : Chain) (expected : Text) → Keeps (chain_test chain expected)
  test-Keeps chain expected = search (keeps, chain-Keeps) depth 20

  abbrev tested :
      Chain → Option Text → Agent machine.World → Outcome AgentError Bool × Agent machine.World
  tested chain o s = elim o [ none ↦ (ok false, s) | some expected ↦ chain_test chain expected s ]

  tested-Keeps :
      (chain : Chain) (o : Option Text) (s : Agent machine.World)
      → kept (tested chain o s).1 ≡ kept s
  unfolding Keeps
  tested-Keeps chain none s = refl
  tested-Keeps chain (some expected) s = test-Keeps chain expected s

  diverged-Keeps : (chain : Chain) → Keeps (is_chain_diverged e chain)
  unfolding Keeps is_chain_diverged
  diverged-Keeps chain s = tested-Keeps chain _ s

  restore-Keeps : Keeps (restore e)
  unfolding restore
  restore-Keeps = search (keeps, raw-Keeps, store-Keeps) depth 20

  notify-Keeps : (chain : Text) (critical : Bool) → Keeps (notify_dashboard e chain critical)
  unfolding notify_dashboard Keeps
  notify-Keeps chain critical s = ground arith

  emergency-Keeps : Keeps (apply_emergency machine crypto)
  unfolding apply_emergency
  emergency-Keeps = search (keeps, raw-Keeps) depth 20

  after-Stays : (r : Outcome AgentError (Unit {0})) → Stays e.crypto (after_restore e r)
  unfolding after_restore
  after-Stays (ok a) = search stays
  after-Stays (err x) =
      search
        (stays, emergency-Keeps, lock-Stays e.crypto machine.World AgentError, restore_failed-Locks)
        depth 20
  after-Stays panicked = search stays

  repair-Stays : (expected current : Text) → Stays e.crypto (repair e expected current)
  unfolding repair restore_and_notify
  repair-Stays expected current =
      search (stays, diverged-Keeps, restore-Keeps, after-Stays, notify-Keeps) depth 20

  compared-Grows :
      (expected current : Text) (same : Bool) (s : Agent machine.World)
      → Grows e.crypto s (if same then (ok tt, s) else repair e expected current s).1
  unfolding Stays
  compared-Grows expected current true s = Grows-refl e.crypto s
  compared-Grows expected current false s = repair-Stays expected current s

  compare-Stays :
      (expected : Text) (r : Outcome AgentError Text)
      → Stays e.crypto (compare_checksums e expected r)
  unfolding Stays
  compare-Stays expected (ok current) s =
      compared-Grows expected current (text_eq current expected) s
  compare-Stays expected (err x) s = Grows-refl e.crypto s
  compare-Stays expected panicked s = Grows-refl e.crypto s

  abbrev check : Text → M machine.World AgentError (Unit {0})
  check expected = do
    current ← catch {D = AgentError} (current_checksum machine crypto)
    compare_checksums e expected current

  check-Stays : (expected : Text) → Stays e.crypto (check expected)
  check-Stays expected = search (stays, current-Keeps, compare-Stays) depth 20

  abbrev checked :
      Option Text → Agent machine.World → Outcome AgentError (Unit {0}) × Agent machine.World
  checked o s = elim o [ none ↦ (ok tt, s) | some expected ↦ check expected s ]

  checked-Grows : (o : Option Text) (s : Agent machine.World) → Grows e.crypto s (checked o s).1
  unfolding Stays
  checked-Grows none s = Grows-refl e.crypto s
  checked-Grows (some expected) s = check-Stays expected s

  pub check_once-Stays : Stays e.crypto (check_once e)
  unfolding check_once Stays
  check_once-Stays s = checked-Grows s.app.nft_checksum s
