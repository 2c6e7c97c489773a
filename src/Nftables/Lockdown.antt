-- ===== src/Nftables/Lockdown.antt =====
-- Frame lemmas for the calls of nft.
use panel_agent.Common.{List, Text}
use panel_agent.Runtime.{Machine, Crypto}
use panel_agent.Runtime.Frame.{Keeps, keeps}
use panel_agent.Nftables.Rules.{Ruleset}
use panel_agent.Nftables.Apply.{
  run_nft, persist_ruleset, apply_raw, apply, checksum_of, current_checksum, chain_checksum,
  store_chain_checksums, store_checksums,
}

module _ (m : Machine) (c : Crypto) where
  pub raw-Keeps : (t : Text) → Keeps (apply_raw m c t)
  unfolding apply_raw run_nft persist_ruleset
  raw-Keeps t = search keeps depth 9

  pub apply-Keeps : (r : Ruleset) → Keeps (apply m c r)
  unfolding apply run_nft persist_ruleset
  apply-Keeps r = search keeps depth 9

  checksum-Keeps : (args : List Text) → Keeps (checksum_of m c args)
  unfolding checksum_of
  checksum-Keeps args = search keeps depth 9

  pub current-Keeps : Keeps (current_checksum m c)
  unfolding current_checksum
  current-Keeps = checksum-Keeps _

  pub chain-Keeps : (chain : Text) → Keeps (chain_checksum m c chain)
  unfolding chain_checksum
  chain-Keeps chain = checksum-Keeps _

  pub chains-Keeps : Keeps (store_chain_checksums m c)
  unfolding store_chain_checksums
  chains-Keeps = search (keeps, chain-Keeps) depth 20

  pub store-Keeps : Keeps (store_checksums m c)
  unfolding store_checksums
  store-Keeps = search (keeps, current-Keeps, chains-Keeps) depth 20
