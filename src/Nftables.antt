-- ===== src/Nftables.antt =====
-- src/nftables/: the ruleset that the agent manages.
mod Url
mod Rules
mod Render
mod Apply
mod Divergence
pub mod Lockdown
pub mod Growth
pub mod Restore
pub mod Host
unfoldable pub use Url.{extract_url_host, host_part, split_slashes, through_bracket}
pub use Rules.{Ruleset, OrgNetwork}
unfoldable pub use Rules.{rows, wg_rule, org_rules}
unfoldable pub use Render.{
  render_ruleset, base_head, between_input, forward_part, between_output, closing,
}
unfoldable pub use Apply.{
  run_nft, persist_ruleset, apply, apply_raw, apply_emergency, emergency_ruleset, chain_checksum,
  current_checksum, store_chain_checksums, store_checksums,
}
unfoldable pub use Divergence.{check_once, restore, is_chain_diverged, notify_dashboard}
