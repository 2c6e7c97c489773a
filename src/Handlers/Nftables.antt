-- ===== src/Handlers/Nftables.antt =====
-- src/handlers/nftables.rs: the `nftables.*` commands that change the ruleset.
pub mod Bodies
pub mod Lockdown
use panel_agent.Common.{
  ℕ, ◌%◌, ◌^◌, Bool, true, false, not, Option, none, some, List, [], ◌∷◌, Text, txt, text_eq,
  length, ltb, take, if◌then◌else◌,
}
use panel_agent.State.{AppState, nft_wg_port_u16}
use panel_agent.Runtime.{
  Env, Db, ChainRow, Config, VerifiedCommand, AgentError, M, Outcome, ok, err, ◌>>=◌, ◌>>◌, pure,
  throw, ask, or_throw, when, gets_app, modify_app, modify_db, panic_unless, Answer, Field,
  answer_ok, answer_with,
}
use panel_agent.Auth.{get_str}
use panel_agent.Nftables.{
  Ruleset, extract_url_host, apply, apply_raw, current_checksum, store_checksums,
}
use panel_agent.Handlers.Params.{refuse_read}

abbrev or_empty : Option Text → Text
or_empty none = []
or_empty (some t) = t

abbrev or_default : ℕ → Option ℕ → ℕ
or_default d none = d
or_default d (some n) = n

-- The `match chain { … }`: the setter, or none for an unknown chain.
unfoldable pub set_body : Text → Text → AppState → Option AppState
unfolding txt
set_body chain rules a =
    if text_eq chain (txt "lynx-global")
    then some (record a { nft_global_body = rules })
    else if text_eq chain (txt "lynx-local")
    then some (record a { nft_local_body = rules })
    else if text_eq chain (txt "lynx-global-output")
    then some (record a { nft_global_output_body = rules })
    else if text_eq chain (txt "lynx-local-output")
    then some (record a { nft_local_output_body = rules })
    else none

-- `UPDATE nftables_state SET body = …, wg_port = … WHERE chain = …`
unfoldable pub update_chain_row : Text → Text → ℕ → List ChainRow → List ChainRow
update_chain_row chain body port [] = []
update_chain_row chain body port (r ∷ rs) =
    (if text_eq r.chain chain then record r { body = body; wg_port = port } else r)
    ∷ update_chain_row chain body port rs

-- `UPDATE nftables_state SET wg_port = …`
unfoldable pub update_ports : ℕ → List ChainRow → List ChainRow
update_ports port [] = []
update_ports port (r ∷ rs) = record r { wg_port = port } ∷ update_ports port rs

abbrev pub with_chains : (List ChainRow → List ChainRow) → Db → Db
with_chains f db = record db { nftables_state = f db.nftables_state }

-- The ruleset that the state and the configuration give.
unfoldable pub current_ruleset : Config → AppState → Ruleset
unfolding nft_wg_port_u16 extract_url_host
current_ruleset config a = record {
  wireguard_port = nft_wg_port_u16 a;
  dashboard_port = config.dashboard_port;
  org_networks = [];
  global_body = a.nft_global_body;
  local_body = a.nft_local_body;
  global_output_body = a.nft_global_output_body;
  local_output_body = a.nft_local_output_body;
  dashboard_wg_ip = extract_url_host (or_empty config.dashboard_url);
}

module _ (e : Env) where
  open e use {json, machine, crypto, config}
  open json use {Value, get, as_u64}
  open machine use {World, query_fails}

  abbrev Handler : Type 0
  Handler = VerifiedCommand Value → M World AgentError Answer

  abbrev set_last_ruleset : Text → AppState → AppState
  set_last_ruleset rendered a = record a { nft_last_ruleset = some rendered }

  unfoldable pub apply_current_ruleset : M World AgentError Answer
  unfolding store_checksums
  apply_current_ruleset = do
    r ← gets_app (current_ruleset config)
    rendered ← apply machine crypto r
    store_checksums machine crypto
    modify_app (set_last_ruleset rendered)
    pure answer_ok

  -- `let _ = query.execute(…)`: a query that fails changes nothing.
  unfoldable pub try_update : (Db → Db) → M World AgentError (Unit {0})
  try_update f = do fails ← ask query_fails; when (not fails) (modify_db f)

  -- What follows once the new body is in memory.
  unfoldable pub apply_stored : Text → Text → M World AgentError Answer
  unfolding apply_current_ruleset try_update
  apply_stored chain rules = do
    result ← apply_current_ruleset
    wg ← gets_app nft_wg_port_u16
    try_update (with_chains (update_chain_row chain rules wg))
    pure result

  unfoldable pub apply_chain : Text → Text → M World AgentError Answer
  unfolding txt set_body apply_stored
  apply_chain chain rules = do
    changed ← gets_app (set_body chain rules)
    app ← or_throw changed (
        AgentError.bad_request (
          txt
            "unknown chain: must be lynx-global, lynx-local, lynx-global-output, or lynx-local-output"))
    modify_app (λ _. app)
    apply_stored chain rules

  abbrev set_port : ℕ → AppState → AppState
  set_port port a = record a { nft_wg_port = port }

  unfoldable pub apply_port : ℕ → M World AgentError Answer
  unfolding apply_current_ruleset try_update
  apply_port wg_port = do
    modify_app (set_port wg_port)
    result ← apply_current_ruleset
    try_update (with_chains (update_ports wg_port))
    pure result

  abbrev port_of : Value → ℕ
  unfolding txt
  port_of command =
      or_default 51820
        (elim (get (txt "wireguard_port") command) [ none ↦ none | some v ↦ as_u64 v ])
      % 2 ^ 16

  -- By the `chain` of the command.
  unfoldable pub apply_by : Option Text → Value → M World AgentError Answer
  unfolding apply_chain apply_port txt
  apply_by (some chain) command = apply_chain chain (or_empty (get_str json (txt "rules") command))
  apply_by none command = apply_port (port_of command)

  unfoldable pub handle_nftables_apply : Handler
  unfolding apply_by txt
  handle_nftables_apply cmd = do
    refuse_read cmd.permission (txt "nftables.apply requires write permission")
    apply_by (get_str json (txt "chain") cmd.command) cmd.command

  unfoldable pub handle_nftables_restore : Handler
  unfolding txt store_checksums
  handle_nftables_restore cmd = do
    refuse_read cmd.permission (txt "nftables.restore requires write permission")
    last ← gets_app (λ a. a.nft_last_ruleset)
    nft ← or_throw last (AgentError.bad_request (txt "no ruleset has been applied yet"))
    apply_raw machine crypto nft
    store_checksums machine crypto
    pure (answer_with ((txt "action", Field.text (txt "restored")) ∷ []))

  abbrev accept_checksum : Text → AppState → AppState
  accept_checksum current a = record a { nft_checksum = some current; nft_last_ruleset = some [] }

  -- `&current[..16]` panics on a shorter text.
  unfoldable pub handle_nftables_accept : Handler
  unfolding txt
  handle_nftables_accept cmd = do
    refuse_read cmd.permission (txt "nftables.accept requires write permission")
    current ← current_checksum machine crypto
    modify_app (accept_checksum current)
    panic_unless (not (ltb (length current) 16))
    pure (
        answer_with (
          (txt "action", Field.text (txt "accepted"))
          ∷ (txt "checksum", Field.text (take 16 current))
          ∷ []))
