-- ===== src/WsClient/Backoff.antt =====
-- How long the client waits between two attempts to connect.
use panel_agent.Common.{
  ℕ, zero, suc, ◌+◌, ◌*◌, ◌^◌, ◌≡◌, ap, false, Option, Text, ltb, if◌then◌else◌, arith,
}
use native.Mathlib.Nat.{pow-suc}
use panel_agent.Runtime.{Env, SignedCommand, Agent, ok}
use panel_agent.Metrics.Sample.{Gauges}
use panel_agent.WsClient.{Socket, next_backoff, backoff_after, connect_once, connect_loop}

-- The wait after so many failures in a row: doubled each time, up to five minutes.
abbrev pub wait_after : ℕ → ℕ
wait_after n = if ltb (5 * 2 ^ n) 300 then 5 * 2 ^ n else 300

next_backoff-wait_after : (n : ℕ) → next_backoff (wait_after n) ≡ wait_after (suc n)
unfolding next_backoff
next_backoff-wait_after n = ground (arith, pow-suc 2 n)

module _ (e : Env) (format_uuid : Text → Text) (arch : Text) (socket : Socket e.machine.World)
    (gauges : Gauges e.machine) (parse_signed : e.json.Value → Option SignedCommand) where
  open e use {machine}

  -- A failed attempt is followed by the wait that it was given, and the next is longer.
  connect_once_fails :
      (events : ℕ) (url : Text) (b : ℕ) (s : Agent machine.World)
      → (socket.connect url s.world).0 ≡ false
      → connect_once e format_uuid arch socket gauges parse_signed events url b s
        ≡ (ok (next_backoff b), record s { world = socket.sleep b (socket.connect url s.world).1 })
  unfolding connect_once backoff_after
  connect_once_fails events url b s h = ground arith

  -- The world after `n` attempts, each with its sleep: after `k` failures in a row the next attempt
  -- is followed by a sleep of `wait_after k`.
  unfoldable pub failing_attempts : ℕ → ℕ → Text → machine.World → machine.World
  failing_attempts zero k url w = w
  failing_attempts (suc n) k url w =
      failing_attempts n (suc k) url (socket.sleep (wait_after k) (socket.connect url w).1)

  -- While no attempt connects, `n` turns of the loop after `k` failures are `n` attempts, and the
  -- loop sleeps five seconds doubled `k` times after the first of them and twice as long after each
  -- next one, five minutes at most; nothing else is done with the socket, and the state in memory and
  -- the tables are as they were.
  pub connect_loop_failing :
      (n k events : ℕ) (url : Text) (s : Agent machine.World)
      → ((w : machine.World) → (socket.connect url w).0 ≡ false)
      → connect_loop e format_uuid arch socket gauges parse_signed n events url (wait_after k) s
        ≡ (ok (wait_after (n + k)), record s { world = failing_attempts n k url s.world })
  unfolding connect_loop failing_attempts
  connect_loop_failing zero k events url s h = ap (λ m. (ok (wait_after m), s)) (omega arith)
  connect_loop_failing (suc n) k events url s h =
      let t : Agent machine.World = record s {
        world = socket.sleep (wait_after k) (socket.connect url s.world).1;
      } in
      ground (
        arith,
        connect_once_fails events url (wait_after k) s (h s.world),
        next_backoff-wait_after k,
        connect_loop_failing n (suc k) events url t h,
      )
