-- ===== src/Conflict/Growth.antt =====
-- A round of the search for conflicting software, and the lockdown and the audit log.
use panel_agent.Common.{List, [], ◌∷◌, Option, none, some, Text}
use panel_agent.State.{AppState, LockdownReason, set_lockdown}
use panel_agent.State.Lockdown.{LockEvent, lock_event, lock_event-IsStuck, lock_event-IsConsistent}
use panel_agent.Runtime.{Env, Outcome, ok, err, panicked}
use panel_agent.Runtime.Growth.{Locks, Stays, stays, lock-Stays}
use panel_agent.Audit.Calm.{append-Stays}
use panel_agent.Conflict.{
  IncompatibleSoftware, is_legacy_iptables, is_running, any_installed, is_present, notify_dashboard,
  record_audit, command_exists, remove_with, try_manager, remove, on_removal, check_software,
  check_all, check_and_remove,
}

removal_failed-Locks :
    (a : AppState) → Locks a (set_lockdown LockdownReason.incompatible_software a)
unfolding lock_event
removal_failed-Locks a = (
  lock_event-IsStuck LockEvent.removal_failed a,
  lock_event-IsConsistent LockEvent.removal_failed a,
)

module _ (e : Env) (E : Type 0) where
  open e use {machine}

  legacy-Stays : Stays e.crypto (is_legacy_iptables e {E = E})
  unfolding is_legacy_iptables
  legacy-Stays = search stays

  running-Stays : (o : Option Text) → Stays e.crypto (is_running e {E = E} o)
  unfolding is_running
  running-Stays none = search stays
  running-Stays (some name) = search stays

  installed-Stays : (packages : List Text) → Stays e.crypto (any_installed e {E = E} packages)
  unfolding any_installed
  installed-Stays [] = search stays
  installed-Stays (pkg ∷ packages) = search (stays, installed-Stays packages) depth 20

  present-Stays : (sw : IncompatibleSoftware) → Stays e.crypto (is_present e {E = E} sw)
  unfolding is_present
  present-Stays sw = search (stays, legacy-Stays, running-Stays, installed-Stays) depth 20

  notify-Stays :
      (software detail : Text) → Stays e.crypto (notify_dashboard e {E = E} software detail)
  unfolding notify_dashboard
  notify-Stays software detail = search (stays, append-Stays e)

  record-Stays : (software action : Text) → Stays e.crypto (record_audit e {E = E} software action)
  unfolding record_audit
  record-Stays software action = search (stays, append-Stays e)

  module _ (io_error : Text) where
    with-Stays :
        (program action : Text) (packages : List Text)
        → Stays e.crypto (remove_with e io_error program action packages)
    unfolding remove_with
    with-Stays program action [] = search stays
    with-Stays program action (pkg ∷ packages) =
        search (stays, with-Stays program action packages) depth 20

    manager-Stays :
        (program action : Text) (packages : List Text)
        → Stays e.crypto (try_manager e io_error program action packages)
    unfolding try_manager command_exists
    manager-Stays program action packages = search (stays, with-Stays) depth 20

    remove-Stays : (sw : IncompatibleSoftware) → Stays e.crypto (remove e io_error sw)
    unfolding remove
    remove-Stays sw = search (stays, manager-Stays) depth 20

    removal-Stays :
        (sw : IncompatibleSoftware) (r : Outcome Text (Unit {0}))
        → Stays e.crypto (on_removal e io_error {E = E} sw r)
    unfolding on_removal
    removal-Stays sw (ok a) = search (stays, notify-Stays, record-Stays) depth 20
    removal-Stays sw (err x) =
        search
          (
            stays,
            notify-Stays,
            record-Stays,
            lock-Stays e.crypto machine.World E,
            removal_failed-Locks,
          )
          depth 20
    removal-Stays sw panicked = search stays

    software-Stays :
        (sw : IncompatibleSoftware) → Stays e.crypto (check_software e io_error {E = E} sw)
    unfolding check_software
    software-Stays sw =
        search (stays, present-Stays, notify-Stays, remove-Stays, removal-Stays) depth 20

    all-Stays :
        (sws : List IncompatibleSoftware) → Stays e.crypto (check_all e io_error {E = E} sws)
    unfolding check_all
    all-Stays [] = search stays
    all-Stays (sw ∷ rest) = search (stays, software-Stays, all-Stays rest) depth 20

    pub check_and_remove-Stays : Stays e.crypto (check_and_remove e io_error {E = E})
    unfolding check_and_remove
    check_and_remove-Stays = all-Stays _
