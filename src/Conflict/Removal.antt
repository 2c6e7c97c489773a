-- ===== src/Conflict/Removal.antt =====
-- The calls that look for software and remove it: they end, and leave the state in memory alone.
use panel_agent.Common.{Option, none, some, List, [], ◌∷◌, Text}
use panel_agent.Runtime.{Env}
use panel_agent.Runtime.Ends.{Runs, Ends, runs, ends}
use panel_agent.Audit.Calm.{append-Runs}
use panel_agent.Conflict.{
  IncompatibleSoftware, command_exists, is_legacy_iptables, is_running, any_installed, is_present,
  remove_with, try_manager, remove, notify_dashboard, record_audit,
}

module _ (e : Env) where
  open e use {machine}

  module _ (E : Type 0) where
    running-Ends : (o : Option Text) → Ends (is_running e {E = E} o)
    unfolding is_running
    running-Ends none = search ends
    running-Ends (some name) = search ends

    installed-Ends : (packages : List Text) → Ends (any_installed e {E = E} packages)
    unfolding any_installed
    installed-Ends [] = search ends
    installed-Ends (pkg ∷ packages) = search (ends, installed-Ends packages) depth 20

    pub present-Ends : (sw : IncompatibleSoftware) → Ends (is_present e {E = E} sw)
    unfolding is_present is_legacy_iptables
    present-Ends sw = search (ends, running-Ends, installed-Ends) depth 30

    pub notify-Ends : (software detail : Text) → Ends (notify_dashboard e {E = E} software detail)
    unfolding notify_dashboard
    notify-Ends software detail = search (ends, append-Runs) depth 20

    pub record-Ends : (software action : Text) → Ends (record_audit e {E = E} software action)
    unfolding record_audit
    record-Ends software action = search (ends, append-Runs) depth 20

  module _ (io_error : Text) where
    with-Runs :
        (program action : Text) (packages : List Text)
        → Runs (remove_with e io_error program action packages)
    unfolding remove_with
    with-Runs program action [] = search runs
    with-Runs program action (pkg ∷ packages) =
        search (runs, with-Runs program action packages) depth 20

    manager-Runs :
        (program action : Text) (packages : List Text)
        → Runs (try_manager e io_error program action packages)
    unfolding try_manager command_exists
    manager-Runs program action packages = search (runs, with-Runs) depth 20

    pub remove-Runs : (sw : IncompatibleSoftware) → Runs (remove e io_error sw)
    unfolding remove
    remove-Runs sw = search (runs, manager-Runs) depth 20
