-- ===== src/Nftables/Apply.antt =====
-- Applying a ruleset by `nft -f -`, and the checksums of the live table. Every error is an
-- `anyhow` one, which the handlers turn into an internal error.
use panel_agent.Common.{Option, none, some, List, [], ◌∷◌, Text, txt}
use panel_agent.State.{AppState}
use panel_agent.Runtime.{
  Machine, Crypto, FileOp, AgentError, M, Outcome, ok, err, ◌>>=◌, ◌>>◌, pure, ask, must_run,
  command, command_with, catch, modify_app,
}
use panel_agent.Nftables.Rules.{Ruleset, rows}
use panel_agent.Nftables.Render.{render_ruleset}

unfoldable pub emergency_ruleset : Text
unfolding rows
emergency_ruleset = rows (
    "" ∷ "destroy table inet lynx-agent" ∷ "add table inet lynx-agent" ∷ "table inet lynx-agent {"
    ∷ "    chain lynx-base {" ∷ "        type filter hook input priority 0; policy drop;"
    ∷ "        ct state established,related accept" ∷ "        iifname \"lo\" accept"
    ∷ "        udp dport 51820 accept" ∷ "        drop" ∷ "    }" ∷ "    chain lynx-forward {"
    ∷ "        type filter hook forward priority 0; policy drop;" ∷ "    }"
    ∷ "    chain lynx-output {" ∷ "        type filter hook output priority 0; policy accept;"
    ∷ "    }" ∷ "}" ∷ [])

abbrev found : {A : Type 0} → Outcome AgentError A → Option A
found (ok a) = some a
found (err _) = none
found Outcome.panicked = none

module _ (m : Machine) (c : Crypto) where
  open m use {World, file}

  unfoldable pub run_nft : Text → M World AgentError (Unit {0})
  unfolding txt
  run_nft nft = do
    must_run m AgentError.internal (command_with (txt "nft") (txt "-f" ∷ txt "-" ∷ []) nft)
    pure tt

  unfoldable pub persist_ruleset : Text → M World AgentError (Unit {0})
  unfolding txt
  persist_ruleset nft = do
    ask (file (FileOp.write (txt "/etc/nftables-lynx-agent.conf") nft))
    pure tt

  unfoldable pub apply_raw : Text → M World AgentError (Unit {0})
  unfolding run_nft persist_ruleset
  apply_raw nft = do run_nft nft; persist_ruleset nft

  unfoldable pub apply : Ruleset → M World AgentError Text
  unfolding run_nft persist_ruleset
  apply r = do
    run_nft (render_ruleset r)
    persist_ruleset (render_ruleset r)
    pure (render_ruleset r)

  unfoldable pub apply_emergency : M World AgentError (Unit {0})
  unfolding run_nft persist_ruleset
  apply_emergency = do run_nft emergency_ruleset; persist_ruleset emergency_ruleset

  unfoldable pub checksum_of : List Text → M World AgentError Text
  unfolding txt
  checksum_of args = do
    stdout ← must_run m AgentError.internal (command (txt "nft") (txt "-j" ∷ txt "-t" ∷ args))
    pure (c.sha256_hex stdout)

  unfoldable pub current_checksum : M World AgentError Text
  unfolding checksum_of txt
  current_checksum = checksum_of (txt "list" ∷ txt "table" ∷ txt "inet" ∷ txt "lynx-agent" ∷ [])

  unfoldable pub chain_checksum : Text → M World AgentError Text
  unfolding checksum_of txt
  chain_checksum chain =
      checksum_of (txt "list" ∷ txt "chain" ∷ txt "inet" ∷ txt "lynx-agent" ∷ chain ∷ [])

  abbrev with_checksum : Text → AppState → AppState
  with_checksum checksum a = record a { nft_checksum = some checksum }

  abbrev with_chain_checksums : Option Text → Option Text → Option Text → AppState → AppState
  with_chain_checksums base global local a = record a {
    nft_chain_checksums = record { base = base; global = global; local = local };
  }

  -- `set_nft_chain_checksums` of the three chains; a failed checksum is stored as none.
  unfoldable pub store_chain_checksums : M World AgentError (Unit {0})
  unfolding chain_checksum txt
  store_chain_checksums = do
    base ← catch {D = AgentError} (chain_checksum (txt "lynx-base"))
    global ← catch {D = AgentError} (chain_checksum (txt "lynx-global"))
    local ← catch {D = AgentError} (chain_checksum (txt "lynx-local"))
    modify_app (with_chain_checksums (found base) (found global) (found local))

  -- What follows a successful application: `current_checksum()?` and the two setters.
  unfoldable pub store_checksums : M World AgentError (Unit {0})
  unfolding current_checksum store_chain_checksums
  store_checksums = do
    checksum ← current_checksum
    modify_app (with_checksum checksum)
    store_chain_checksums
