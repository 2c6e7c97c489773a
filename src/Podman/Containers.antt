-- ===== src/Podman/Containers.antt =====
-- Single containers.
use panel_agent.Common.{
  ℕ, Bool, Option, none, some, List, [], ◌∷◌, ◌++◌, Text, txt, decimal, concat, if◌then◌else◌,
}
use panel_agent.Runtime.{Machine, Json, AgentError, M, ◌>>=◌, ◌>>◌, pure, or_throw, when, branch}
use panel_agent.Podman.Users.{podman_as_tenant, podman_must}

module _ (m : Machine) where
  open m use {World}

  unfoldable pub ensure_org_network : Text → Text → M World AgentError (Unit {0})
  unfolding txt
  ensure_org_network tenant_id network_name = do
    out ← podman_as_tenant m tenant_id (txt "network" ∷ txt "exists" ∷ network_name ∷ [])
    branch out.0 (pure tt) (do
      podman_must m tenant_id (txt "network" ∷ txt "create" ∷ txt "--internal" ∷ network_name ∷ [])
      pure tt)

  unfoldable pub container_start : Text → Text → M World AgentError (Unit {0})
  unfolding txt
  container_start tenant_id name = do podman_must m tenant_id (txt "start" ∷ name ∷ []); pure tt

  unfoldable pub container_stop : Text → Text → M World AgentError (Unit {0})
  unfolding txt
  container_stop tenant_id name = do
    podman_must m tenant_id (txt "stop" ∷ txt "--time" ∷ txt "10" ∷ name ∷ [])
    pure tt

  unfoldable pub container_restart : Text → Text → M World AgentError (Unit {0})
  unfolding txt
  container_restart tenant_id name = do podman_must m tenant_id (txt "restart" ∷ name ∷ []); pure tt

  unfoldable pub container_remove : Text → Text → Bool → M World AgentError (Unit {0})
  unfolding txt
  container_remove tenant_id name force = do
    podman_must m tenant_id (txt "rm" ∷ (if force then txt "--force" ∷ name ∷ [] else name ∷ []))
    pure tt

  abbrev flag_of : Text → Option Text → Text → List Text
  flag_of before none after = []
  flag_of before (some value) after = concat (before ∷ value ∷ after ∷ []) ∷ []

  abbrev shown : Option ℕ → Option Text
  shown none = none
  shown (some n) = some (decimal n)

  -- `args` after the first, without the name.
  unfoldable pub update_flags : Option Text → Option ℕ → List Text
  unfolding txt
  update_flags cpus memory_mb =
      flag_of (txt "--cpus=") cpus [] ++ flag_of (txt "--memory=") (shown memory_mb) (txt "m")

  abbrev is_nonempty : List Text → Bool
  is_nonempty [] = Bool.false
  is_nonempty (x ∷ xs) = Bool.true

  unfoldable pub run_update : Text → Text → List Text → M World AgentError (Unit {0})
  unfolding txt
  run_update tenant_id name flags = do
    podman_must m tenant_id (txt "update" ∷ (flags ++ name ∷ []))
    pure tt

  -- `cpus` is the text that `format!` gives of the float.
  unfoldable pub container_update :
      Text → Text → Option Text → Option ℕ → M World AgentError (Unit {0})
  unfolding update_flags run_update
  container_update tenant_id name cpus memory_mb =
      when (is_nonempty (update_flags cpus memory_mb))
        (run_update tenant_id name (update_flags cpus memory_mb))

module _ (m : Machine) (j : Json) where
  open m use {World}
  open j use {Value, get, as_str, as_array, from_slice}

  abbrev bind_option {ℓ κ} : {A : Type ℓ} {B : Type κ} → Option A → (A → Option B) → Option B
  bind_option none f = none
  bind_option (some a) f = f a

  abbrev head_of : List Value → Option Value
  head_of [] = none
  head_of (v ∷ vs) = some v

  text_at : Text → Value → Option Text
  text_at key c = bind_option (get key c) as_str

  name_of : Value → Option Text
  unfolding txt
  name_of c = bind_option (bind_option (bind_option (get (txt "Names") c) as_array) head_of) as_str

  -- One object of the answer, if the four parts are there.
  container_info : Value → Option (List (Text × Text))
  unfolding text_at name_of txt
  container_info c = bind_option (text_at (txt "Id") c) λ id. bind_option (name_of c) λ name.
      bind_option (text_at (txt "Status") c) λ status.
        bind_option (text_at (txt "Image") c) λ image.
          some (
            (txt "id", id)
            ∷ (txt "name", name)
            ∷ (txt "status", status)
            ∷ (txt "image", image)
            ∷ [])

  abbrev prepend :
      Option (List (Text × Text)) → List (List (Text × Text)) → List (List (Text × Text))
  prepend none rest = rest
  prepend (some c) rest = c ∷ rest

  container_infos : List Value → List (List (Text × Text))
  unfolding container_info
  container_infos [] = []
  container_infos (c ∷ cs) = prepend (container_info c) (container_infos cs)

  unfoldable pub list_containers : Text → M World AgentError (List (List (Text × Text)))
  unfolding container_infos txt
  list_containers tenant_id = do
    stdout ←
        podman_must m tenant_id (txt "ps" ∷ txt "--format" ∷ txt "json" ∷ txt "--no-trunc" ∷ [])
    containers ← or_throw (bind_option (from_slice stdout) as_array) AgentError.internal
    pure (container_infos containers)
