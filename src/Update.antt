-- ===== src/Update.antt =====
-- src/update/: the self-update, the guard of a start after one, and the updater that works without
-- the dashboard.
pub mod Version
mod Download
mod Perform
mod Guard
mod Fallback
pub mod Growth
pub mod Absence
pub mod Soundness
pub use Download.{UpdateError, size_limit, first_of}
unfoldable pub use Download.{
  is_private_ip, is_allowed, validate_github_url, build_ssrf_safe_client, download_bytes,
  verify_signature, load_verify_key,
}
pub use Perform.{Exit}
unfoldable pub use Perform.{perform_update, install}
unfoldable pub use Guard.{startup_health_guard, after_polls, polls}
unfoldable pub use Fallback.{
  absent_secs_of, first_version, fetch_latest_agent_version, check_and_apply, fallback_round,
}
pub use Fallback.{absent_threshold_secs}
