-- ===== src/Spy.antt =====
-- phpspy.c: `main_pid` and what it calls. The child of a command, `ptrace`, the clock and the sleep
-- are answers of a record.
pub mod Versions
pub mod Loop
pub mod Start
pub mod Fork
pub mod Ends
pub mod Limit
pub mod Choice
pub mod Protocol
pub mod Tests
use phpspy.Prelude.{ℕ, ◌+◌, ◌%◌, ◌^◌, Bool, true, false, Option, none, some, List, []}
use phpspy.Prelude.Int.{ℤ}
use phpspy.Clock.{Timespec}
use phpspy.Trace.{Context}

-- What `ptrace` answers: 0, ESRCH or another error.
pub data Ptrace : Type 0 where
  attached no_process refused : Ptrace

-- What happens from outside in the round `k` of the loop: `done` at its test, the answers of
-- `ptrace` and `waitpid`, the clock at its start and end, and what the other threads of pgrep mode
-- have added to `trace_count` until it is read.
pub record World : Type 0 where
  pub done : ℕ → Bool
  pub attach : ℕ → Ptrace
  pub waited : ℕ → Bool
  pub detach : ℕ → Ptrace
  pub start_time : ℕ → Timespec
  pub end_time : ℕ → Timespec
  pub others : ℕ → ℕ
  pub in_pgrep_mode : Bool

-- The context of the traces, the traces that this thread has counted, and how long it has slept,
-- the last time first.
pub record Spy : Type 0 where
  pub context : Context
  pub trace_count : ℕ
  pub sleeps : List Timespec

-- Why the loop was left: `done`, a process that has died, one of the limits. It has not been
-- left where a trace has not returned, since it crashes or goes on forever or deeper than it is
-- followed: `unreturned`; or in the rounds that are looked at: `running`.
pub data Left : Type 0 where
  stopped pid_dead trace_limit time_limit unreturned running : Left

-- Whether `main_pid` goes on behind the loop.
abbrev pub has_left : Left → Bool
has_left stopped = true
has_left pid_dead = true
has_left trace_limit = true
has_left time_limit = true
has_left unreturned = false
has_left running = false
