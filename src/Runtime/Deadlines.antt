-- ===== src/Runtime/Deadlines.antt =====
-- The variables of the loop of `serve`, what one round of it is given, and its deadlines. `i64`
-- sums wrap around, as the release build does.
use certael_agent.Protocol.Messages.{BoundAgentLaunch}
use certael_agent.Platform.{GameProcessSnapshot, Executable, Machine}
use certael_agent.Text.{Bytes, Text}
use certael_agent.Prelude.Int.{add_i64, sub_i64, leb_ℤ, ℤ, pos, negsuc}
use certael_agent.Runtime.Admission.{Incoming}
use certael_agent.Prelude.{◌^◌, if◌then◌else◌, ◌==◌, ◌%◌, ◌+◌, ℕ, replicate, Option}

-- The variables of the loop.
pub record Loop : Type 0 where
  pub sequence : ℕ
  pub previous_digest : Bytes
  pub last_report_at : ℤ
  pub next_heartbeat : ℤ
  pub report_deadline : ℤ

-- What the system gives one round: the clock at its start, what came within the wait, the clock
-- behind that, and what can be seen of the Agent's process, the executable and the game's process.
pub record Round : Type 0 where
  pub now : Option ℤ
  pub incoming : Incoming
  pub later : Option ℤ
  pub machine : Machine
  pub build_id : Option Text
  pub executable : Option Executable
  pub process : GameProcessSnapshot
  pub identity : Option ℕ

abbrev min_ℤ : ℤ → ℤ → ℤ
min_ℤ a b = if leb_ℤ a b then a else b

abbrev max_one : ℤ → ℕ
max_one (pos n) = if n == 0 then 1 else n
max_one (negsuc n) = 1

-- The seconds of `recv_timeout(wait)`.
unfoldable pub wait_seconds : BoundAgentLaunch → Loop → ℤ → ℕ
wait_seconds b l now =
    max_one
      (sub_i64 (min_ℤ (min_ℤ l.next_heartbeat l.report_deadline) b.policy_expires_at_unix) now)

-- now + i64::from(heartbeat_seconds)
unfoldable pub heartbeat_after : BoundAgentLaunch → ℤ → ℤ
heartbeat_after b now = add_i64 now (pos b.heartbeat_seconds)

-- now + i64::from(report_seconds + disconnect_grace_seconds), with the sum a `u32`.
unfoldable pub deadline_after : BoundAgentLaunch → ℤ → ℤ
deadline_after b now = add_i64 now (pos ((b.report_seconds + b.disconnect_grace_seconds) % 2 ^ 32))

-- The loop's variables at its start.
unfoldable pub start : BoundAgentLaunch → ℤ → ℤ → Loop
unfolding heartbeat_after deadline_after
start b now now' = record {
  sequence = 1;
  previous_digest = replicate 32 0;
  last_report_at = pos 0;
  next_heartbeat = heartbeat_after b now;
  report_deadline = deadline_after b now';
}
