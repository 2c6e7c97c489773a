-- ===== src/Nftables/Divergence.antt =====
-- src/nftables/divergence.rs: one round of the divergence check.
use panel_agent.Common.{
  Bool, true, false, not, ◌&&◌, Option, none, some, [], ◌∷◌, Text, txt, text_eq, concat, trim_end,
  if◌then◌else◌, length, ltb, ◌||◌,
}
use panel_agent.State.{ChainChecksums, LockdownReason, set_lockdown}
use panel_agent.Runtime.{
  Env, AgentError, M, Outcome, ok, err, ◌>>=◌, ◌>>◌, pure, ask, or_throw, catch, gets_app,
  modify_app, panic_unless,
}
use panel_agent.Nftables.Apply.{
  apply_raw, apply_emergency, current_checksum, chain_checksum, store_checksums,
}

pub data Chain : Type 0 where
  base global local : Chain

abbrev pub chain_name : Chain → Text
unfolding txt
chain_name Chain.base = txt "lynx-base"
chain_name Chain.global = txt "lynx-global"
chain_name Chain.local = txt "lynx-local"

abbrev pub expected_chain_checksum : Chain → ChainChecksums → Option Text
expected_chain_checksum Chain.base cs = cs.base
expected_chain_checksum Chain.global cs = cs.global
expected_chain_checksum Chain.local cs = cs.local

abbrev pub differs : Text → Outcome AgentError Text → Bool
differs expected (ok current) = not (text_eq current expected)
differs expected _ = true

-- The chain that the event names.
abbrev pub blamed : Bool → Bool → Bool → Text
unfolding txt
blamed b g l =
    if b
    then txt "lynx-base"
    else if g
    then txt "lynx-global"
    else if l
    then txt "lynx-local"
    else txt "unknown"

abbrev show_bool : Bool → Text
unfolding txt
show_bool true = txt "true"
show_bool false = txt "false"

module _ (e : Env) where
  open e use {machine, crypto, config}
  open machine use {World, post}

  unfoldable pub is_chain_diverged : Chain → M World AgentError Bool
  unfolding chain_name
  is_chain_diverged chain s = elim (expected_chain_checksum chain s.app.nft_chain_checksums) [
    | none ↦ (ok false, s)
    | some expected ↦
        (do
          current ← catch {D = AgentError} (chain_checksum machine crypto (chain_name chain))
          pure (differs expected current))
          s
  ]

  unfoldable pub restore : M World AgentError (Unit {0})
  restore = do
    last ← gets_app (λ a. a.nft_last_ruleset)
    nft ← or_throw last AgentError.internal
    apply_raw machine crypto nft
    store_checksums machine crypto

  -- The reply is only logged. The body stands for the JSON object by its event and detail.
  unfoldable pub notify_dashboard : Text → Bool → M World AgentError (Unit {0})
  unfolding concat txt show_bool
  notify_dashboard chain critical s = elim config.dashboard_url [
    | none ↦ (ok tt, s)
    | some url ↦ elim config.sync_token [
      | none ↦ (ok tt, s)
      | some token ↦
          (do
            ask (
                post (record {
                  url =
                      concat
                        (trim_end b'/' url ∷ txt "/agents/" ∷ config.agent_id ∷ txt "/events" ∷ []);
                  token = token;
                  body = concat (
                      txt "nftables_divergence: chain="
                      ∷ chain
                      ∷ txt " critical="
                      ∷ show_bool critical
                      ∷ txt " auto_restored=true"
                      ∷ []);
                }))
            pure tt)
            s
    ]
  ]

  -- What follows a failed `restore`.
  unfoldable pub after_restore : Outcome AgentError (Unit {0}) → M World AgentError (Unit {0})
  after_restore (err _) = do
    catch {D = AgentError} (apply_emergency machine crypto)
    modify_app (set_lockdown LockdownReason.nftables_failure)
  after_restore _ = pure tt

  -- `restore`, what its failure leads to, and the event.
  unfoldable pub restore_and_notify : Text → Bool → M World AgentError (Unit {0})
  restore_and_notify chain critical = do
    restored ← catch {D = AgentError} restore
    after_restore restored
    notify_dashboard chain critical

  -- Logging `&expected[..16]` and `&current[..16]`, if the level is on, panics on a shorter text; a hex
  -- SHA-256 has 64.
  unfoldable pub repair : Text → Text → M World AgentError (Unit {0})
  repair expected current = do
    base_diverged ← is_chain_diverged Chain.base
    global_diverged ← is_chain_diverged Chain.global
    local_diverged ← is_chain_diverged Chain.local
    panic_unless (
        not (
          (if base_diverged then machine.logs_error else machine.logs_warn)
          && (ltb (length expected) 16 || ltb (length current) 16)))
    restore_and_notify (blamed base_diverged global_diverged local_diverged) base_diverged

  abbrev pub compare_checksums : Text → Outcome AgentError Text → M World AgentError (Unit {0})
  compare_checksums expected (ok current) s =
      if text_eq current expected then (ok tt, s) else repair expected current s
  compare_checksums expected _ s = (ok tt, s)

  unfoldable pub check_once : M World AgentError (Unit {0})
  check_once s = elim s.app.nft_checksum [
    | none ↦ (ok tt, s)
    | some expected ↦
        (do
          current ← catch {D = AgentError} (current_checksum machine crypto)
          compare_checksums expected current)
          s
  ]
