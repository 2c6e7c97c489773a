-- ===== src/State.antt =====
-- src/state.rs: the shared state of the agent and its operations, and the two watchdogs of
-- src/main.rs that only read and write this state. Each atomic or mutex is a field; an operation
-- returns the new state. Times are seconds; a u64 sum wraps.
pub mod Lockdown
pub mod Race
pub mod Rate
use panel_agent.Common.{
  ℕ, ◌+◌, ◌-◌, ◌%◌, ◌^◌, Bool, true, false, not, ◌&&◌, Option, none, some, [], Text, ltb, leb,
  if◌then◌else◌,
}

pub data LockdownReason : Type 0 where
  heartbeat pg_unreachable incompatible_software nftables_failure : LockdownReason

-- `nft_chain_checksums` is an array of three, by index: base, global, local.
pub record ChainChecksums : Type 0 where
  pub base : Option Text
  pub global : Option Text
  pub local : Option Text

pub record AppState : Type 0 where
  pub lockdown : Bool
  pub lockdown_reason : Option LockdownReason
  pub nft_checksum : Option Text
  pub nft_chain_checksums : ChainChecksums
  pub nft_last_ruleset : Option Text
  pub nft_global_body : Text
  pub nft_local_body : Text
  pub nft_global_output_body : Text
  pub nft_local_output_body : Text
  pub nft_wg_port : ℕ
  pub window_start : ℕ  -- `cmd_rate.0`
  pub window_count : ℕ  -- `cmd_rate.1`
  pub cmd_rejected_count : ℕ
  pub cmd_rejected_window : ℕ
  pub last_dashboard_contact : ℕ
  pub last_heartbeat : ℕ

abbrev pub u64 : ℕ → ℕ
u64 n = n % 2 ^ 64

-- The initial state of `main`; the argument is `Instant::now()`.
unfoldable pub initial : ℕ → AppState
initial now = record {
  lockdown = false;
  lockdown_reason = none;
  nft_checksum = none;
  nft_chain_checksums = record { base = none; global = none; local = none };
  nft_last_ruleset = none;
  nft_global_body = [];
  nft_local_body = [];
  nft_global_output_body = [];
  nft_local_output_body = [];
  nft_wg_port = 51820;
  window_start = 0;
  window_count = 0;
  cmd_rejected_count = 0;
  cmd_rejected_window = 0;
  last_dashboard_contact = 0;
  last_heartbeat = now;
}

unfoldable pub is_locked_down : AppState → Bool
is_locked_down s = s.lockdown

unfoldable pub set_lockdown : LockdownReason → AppState → AppState
set_lockdown r s = record s { lockdown = true; lockdown_reason = some r }

-- The body of `clear_lockdown_if_heartbeat`, by the reason that the guard holds.
abbrev clear_by : Option LockdownReason → AppState → AppState
clear_by none s = record s { lockdown = false; lockdown_reason = none }
clear_by (some heartbeat) s = record s { lockdown = false; lockdown_reason = none }
clear_by (some _) s = s

unfoldable pub clear_lockdown_if_heartbeat : AppState → AppState
clear_lockdown_if_heartbeat s = clear_by s.lockdown_reason s

unfoldable pub check_cmd_rate : ℕ → AppState → Bool × AppState
check_cmd_rate now s =
    if leb (u64 (s.window_start + 60)) now
    then (true, record s { window_start = now; window_count = 1 })
    else if ltb s.window_count 100
    then (true, record s { window_count = s.window_count + 1 })
    else (false, s)

unfoldable pub record_rate_rejection : ℕ → AppState → ℕ × AppState
record_rate_rejection now s =
    if leb (u64 (s.cmd_rejected_window + 60)) now
    then (1, record s { cmd_rejected_window = now; cmd_rejected_count = 1 })
    else (
      u64 (s.cmd_rejected_count + 1),
      record s { cmd_rejected_count = u64 (s.cmd_rejected_count + 1) },
    )

-- `self.nft_wg_port.load(..) as u16`
unfoldable pub nft_wg_port_u16 : AppState → ℕ
nft_wg_port_u16 s = s.nft_wg_port % 2 ^ 16

abbrev pub heartbeat_timeout_secs : ℕ
heartbeat_timeout_secs = 300

-- One tick of the heartbeat watchdog task; the argument is `Instant::now()`. `elapsed` is 0 when
-- the clock reads before the last heartbeat.
unfoldable pub heartbeat_watchdog : ℕ → AppState → AppState
heartbeat_watchdog now s =
    if ltb heartbeat_timeout_secs (now - s.last_heartbeat) && not s.lockdown
    then set_lockdown heartbeat s
    else s

-- One tick of the PostgreSQL health watchdog; the argument says whether `SELECT 1` failed.
unfoldable pub pg_watchdog : Bool → AppState → AppState
pg_watchdog failed s = if failed && not s.lockdown then set_lockdown pg_unreachable s else s

-- What an `agent.heartbeat_ack` does, on the HTTP and on the WebSocket path.
unfoldable pub heartbeat_ack : ℕ → AppState → AppState
unfolding clear_lockdown_if_heartbeat
heartbeat_ack now s = clear_lockdown_if_heartbeat (record s { last_heartbeat = now })
