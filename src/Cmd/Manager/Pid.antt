-- ===== src/Cmd/Manager/Pid.antt =====
-- The handler `pid` of cmd/manager/main.go.
use vlanman.Prelude.{ℕ, ℤ}

-- The status of the response and the number in its PIDResponse.
pub record PidReply : Type 0 where
  pub status : ℕ
  pub pid : ℤ

-- pid, where `own` is what Getpid returns.
abbrev pub pid_reply : ℤ → PidReply
pid_reply own = record { status = 200; pid = own }
