-- ===== src/Podman/Users.antt =====
-- The system user of a tenant, its subordinate ids, and how a command is run as that user.
use panel_agent.Common.{
  ℕ, ◌+◌, ◌^◌, Bool, not, Option, none, some, List, [], ◌∷◌, ◌++◌, Text, txt, parse_uint, splitn,
  lines, trim, decimal, concat, ltb, if◌then◌else◌,
}
use panel_agent.Runtime.{
  Machine, FileOp, AgentError, M, ◌>>=◌, ◌>>◌, pure, ask, refuse_if, or_throw, when, must_file,
  must_start, must_run, command,
}
use panel_agent.State.{u64}

unfoldable pub username : Text → Text
unfolding txt
username tenant_id = txt "lynx-tenant-" ++ tenant_id

unfoldable pub home_dir : Text → Text
unfolding txt
home_dir tenant_id = txt "/var/lib/lynx/orgs/" ++ tenant_id

abbrev pub min_start : ℕ
min_start = 100000

abbrev added : Option ℕ → Option ℕ → Option ℕ
added (some start) (some count) = some (u64 (start + count))
added (some start) none = none
added none count = none

abbrev fields_end : List Text → Option ℕ
fields_end (name ∷ start ∷ count ∷ rest) =
    added (parse_uint (2 ^ 64) start) (parse_uint (2 ^ 64) count)
fields_end parts = none

-- The end of the range that a line `username:start:count` occupies; the sum wraps.
unfoldable pub subid_end : Text → Option ℕ
subid_end line = fields_end (splitn 2 b':' line)

abbrev pub add_end : Option ℕ → List ℕ → List ℕ
add_end none es = es
add_end (some n) es = n ∷ es

unfoldable pub subid_ends : List Text → List ℕ
subid_ends [] = []
subid_ends (line ∷ rest) = add_end (subid_end line) (subid_ends rest)

abbrev pub larger : ℕ → ℕ → ℕ
larger a b = if ltb a b then b else a

unfoldable pub max_from : ℕ → List ℕ → ℕ
max_from m [] = m
max_from m (n ∷ ns) = max_from (larger m n) ns

abbrev pub lines_of : Option Text → List Text
lines_of none = []
lines_of (some content) = lines content

module _ (m : Machine) where
  open m use {World, read_file}

  -- A file that cannot be read is skipped.
  unfoldable pub next_subid_start : M World AgentError ℕ
  unfolding max_from subid_ends txt
  next_subid_start = do
    subuid ← ask (read_file (txt "/etc/subuid"))
    subgid ← ask (read_file (txt "/etc/subgid"))
    pure (max_from min_start (subid_ends (lines_of subuid ++ lines_of subgid)))

  unfoldable pub add_subid_range : Text → M World AgentError (Unit {0})
  unfolding next_subid_start txt
  add_subid_range user = do
    start ← next_subid_start
    let range = decimal start ++ (txt "-" ++ decimal (u64 (start + 65535)))
    must_run m AgentError.internal
        (command (txt "usermod") (txt "--add-subuids" ∷ range ∷ user ∷ []))
    must_run m AgentError.internal
        (command (txt "usermod") (txt "--add-subgids" ∷ range ∷ user ∷ []))
    pure tt

  unfoldable pub tenant_uid : Text → M World AgentError ℕ
  unfolding username txt
  tenant_uid tenant_id = do
    stdout ←
        must_run m AgentError.internal (command (txt "id") (txt "-u" ∷ username tenant_id ∷ []))
    or_throw (parse_uint (2 ^ 32) (trim stdout)) AgentError.internal

  -- The statements of `if !exists { … }`.
  unfoldable pub create_tenant_user : Text → M World AgentError (Unit {0})
  unfolding add_subid_range tenant_uid username home_dir txt
  create_tenant_user tenant_id = do
    must_file m AgentError.internal (FileOp.create_dir_all (txt "/var/lib/lynx/orgs"))
    must_run m AgentError.internal (
        command (txt "useradd") (
          txt "--system"
          ∷ txt "--create-home"
          ∷ txt "--home-dir"
          ∷ home_dir tenant_id
          ∷ txt "--shell"
          ∷ txt "/usr/sbin/nologin"
          ∷ username tenant_id
          ∷ []))
    add_subid_range (username tenant_id)
    uid ← tenant_uid tenant_id
    ask (m.run (command (txt "loginctl") (txt "enable-linger" ∷ username tenant_id ∷ [])))
    ask (
        m.run (
          command (txt "systemctl")
            (txt "start" ∷ concat (txt "user@" ∷ decimal uid ∷ txt ".service" ∷ []) ∷ [])))
    pure tt

  unfoldable pub ensure_tenant_user : Text → M World AgentError (Unit {0})
  unfolding create_tenant_user username txt
  ensure_tenant_user tenant_id = do
    (exists, _) ← must_start m AgentError.internal (command (txt "id") (username tenant_id ∷ []))
    when (not exists) (create_tenant_user tenant_id)

  -- `podman_as_tenant` and `run_as_tenant`; the current directory is not modelled.
  unfoldable pub podman_as_tenant : Text → List Text → M World AgentError (Bool × Text)
  unfolding tenant_uid username home_dir txt
  podman_as_tenant tenant_id args = do
    uid ← tenant_uid tenant_id
    must_start m AgentError.internal (record {
      program = txt "runuser";
      args = txt "-u" ∷ username tenant_id ∷ txt "--" ∷ txt "podman" ∷ args;
      env =
          (txt "HOME", home_dir tenant_id)
          ∷ (txt "XDG_RUNTIME_DIR", txt "/run/user/" ++ decimal uid)
          ∷ [];
      stdin = [];
    })

  -- A podman command that must succeed.
  unfoldable pub podman_must : Text → List Text → M World AgentError Text
  unfolding podman_as_tenant
  podman_must tenant_id args = do
    (success, stdout) ← podman_as_tenant tenant_id args
    refuse_if (not success) AgentError.internal
    pure stdout
