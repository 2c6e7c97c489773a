-- ===== src/Conflict.antt =====
-- src/conflict.rs: the check for software that changes the firewall behind the agent's back. The
-- text of an error to start a process is a parameter.
pub mod Removal
pub mod Growth
pub mod Lockdown
use panel_agent.Common.{
  Bool, true, false, not, Option, none, some, List, [], ◌∷◌, ◌++◌, Text, txt, text_eq, contains,
}
use panel_agent.Runtime.{
  Env, Cmd, Proc, Outcome, ok, err, panicked, M, ◌>>=◌, ◌>>◌, pure, throw, ask, branch, ignore,
  catch, modify_app, from_outcome, command, must_start,
}
use panel_agent.State.{LockdownReason, set_lockdown}
use panel_agent.Audit.{AuditEntry, AuditResult, append}

pub record IncompatibleSoftware : Type 0 where
  pub name : Text
  pub packages : List Text
  pub process : Option Text

abbrev pub incompatible : List IncompatibleSoftware
unfolding txt
incompatible =
    record {
      name = txt "docker";
      packages = txt "docker-ce" ∷ txt "docker.io" ∷ txt "docker-engine" ∷ [];
      process = some (txt "dockerd");
    }
    ∷ record {
      name = txt "containerd";
      packages = txt "containerd" ∷ txt "containerd.io" ∷ [];
      process = some (txt "containerd");
    }
    ∷ record {
      name = txt "firewalld";
      packages = txt "firewalld" ∷ [];
      process = some (txt "firewalld");
    }
    ∷ record { name = txt "ufw"; packages = txt "ufw" ∷ []; process = none }
    ∷ record { name = txt "iptables"; packages = txt "iptables" ∷ []; process = none }
    ∷ []

-- `.map(|s| s.success()).unwrap_or(false)`
abbrev pub proc_success : Proc → Bool
proc_success Proc.failed = false
proc_success (Proc.exited success stdout) = success

abbrev pub proc_stdout : Proc → Text
proc_stdout Proc.failed = []
proc_stdout (Proc.exited success stdout) = stdout

unfoldable pub contains_legacy_marker : Text → Bool
unfolding txt contains
contains_legacy_marker version = contains version (txt "(legacy)")

module _ (e : Env) where
  open e use {machine, config}
  open machine use {World, run}

  abbrev note : Text → AuditResult → Text → Text → AuditEntry
  note command_type result software detail = record {
    agent_id = config.agent_id;
    organization_id = none;
    user_id = none;
    command_type = command_type;
    result = result;
    error = some (software ++ (txt ": " ++ detail));
  }

  module _ {E : Type 0} where
    abbrev pub succeeds : Cmd → M World E Bool
    succeeds c = do p ← ask (run c); pure (proc_success p)

    unfoldable pub command_exists : Text → M World E Bool
    unfolding txt
    command_exists cmd = succeeds (command (txt "which") (cmd ∷ []))

    unfoldable pub is_legacy_iptables : M World E Bool
    unfolding txt contains_legacy_marker
    is_legacy_iptables = do
      out ← ask (run (command (txt "iptables") (txt "--version" ∷ [])))
      pure (contains_legacy_marker (proc_stdout out))

    -- The process, if one is named, is running.
    unfoldable pub is_running : Option Text → M World E Bool
    unfolding txt
    is_running none = pure false
    is_running (some name) = succeeds (command (txt "pgrep") (txt "-x" ∷ name ∷ []))

    -- One of the packages is installed, by dpkg or by rpm.
    unfoldable pub any_installed : List Text → M World E Bool
    unfolding txt
    any_installed [] = pure false
    any_installed (pkg ∷ packages) = do
      installed_dpkg ← succeeds (command (txt "dpkg") (txt "-s" ∷ pkg ∷ []))
      branch installed_dpkg (pure true) (do
        installed_rpm ← succeeds (command (txt "rpm") (txt "-q" ∷ pkg ∷ []))
        branch installed_rpm (pure true) (any_installed packages))

    unfoldable pub is_present : IncompatibleSoftware → M World E Bool
    unfolding txt text_eq is_legacy_iptables is_running any_installed
    is_present sw =
        branch (text_eq sw.name (txt "iptables")) is_legacy_iptables (do
          running ← is_running sw.process
          branch running (pure true) (any_installed sw.packages))

    unfoldable pub notify_dashboard : Text → Text → M World E (Unit {0})
    unfolding txt
    notify_dashboard software detail =
        ignore {D = E}
          (append e (note (txt "conflicting_software_detected") AuditResult.failed software detail))

    unfoldable pub record_audit : Text → Text → M World E (Unit {0})
    unfolding txt
    record_audit software action =
        ignore {D = E}
          (append e (note (txt "conflicting_software_removed") AuditResult.success software action))

module _ (e : Env) (io_error : Text) where
  open e use {machine}
  open machine use {World, run}

  -- `.status().map_err(…)?`: whether the process succeeded.
  abbrev started : Text → Cmd → M World Text Bool
  started program c = do
    (success, _) ← must_start machine (program ++ (txt ": " ++ io_error)) c
    pure success

  -- The loop over the packages: whether one of them was removed.
  unfoldable pub remove_with : Text → Text → List Text → M World Text Bool
  unfolding txt
  remove_with program action [] = pure false
  remove_with program action (pkg ∷ packages) = do
    removed ← started program (command program (txt "-y" ∷ action ∷ pkg ∷ []))
    branch removed (pure true) (remove_with program action packages)

  -- One package manager, if it is there.
  unfoldable pub try_manager : Text → Text → List Text → M World Text Bool
  unfolding remove_with
  try_manager program action packages = do
    exists ← command_exists e program
    branch exists (remove_with program action packages) (pure false)

  unfoldable pub remove : IncompatibleSoftware → M World Text (Unit {0})
  unfolding txt try_manager
  remove sw = do
    by_apt ← try_manager (txt "apt-get") (txt "purge") sw.packages
    branch by_apt (pure tt) (do
      by_dnf ← try_manager (txt "dnf") (txt "remove") sw.packages
      branch by_dnf (pure tt) (throw (txt "no package manager succeeded removing " ++ sw.name)))

  module _ {E : Type 0} where
    -- What follows a removal: whether the loop goes on. No `catch` gives `panicked`.
    unfoldable pub on_removal : IncompatibleSoftware → Outcome Text (Unit {0}) → M World E Bool
    unfolding txt set_lockdown
    on_removal sw (ok _) = do
      notify_dashboard e sw.name (txt "removed")
      record_audit e sw.name (txt "removed")
      pure true
    on_removal sw (err x) = do
      notify_dashboard e sw.name (txt "removal_failed: " ++ x)
      record_audit e sw.name (txt "removal_failed: " ++ x)
      modify_app (set_lockdown LockdownReason.incompatible_software)
      pure false
    on_removal sw panicked = from_outcome panicked

    abbrev pub handle_present : IncompatibleSoftware → M World E Bool
    handle_present sw = do
      notify_dashboard e sw.name (txt "detected")
      result ← catch (remove sw)
      on_removal sw result

    -- One turn of the loop: whether it goes on.
    unfoldable pub check_software : IncompatibleSoftware → M World E Bool
    check_software sw = do present ← is_present e sw; branch present (handle_present sw) (pure true)

    unfoldable pub check_all : List IncompatibleSoftware → M World E (Unit {0})
    check_all [] = pure tt
    check_all (sw ∷ rest) = do more ← check_software sw; branch more (check_all rest) (pure tt)

    unfoldable pub check_and_remove : M World E (Unit {0})
    check_and_remove = check_all incompatible
