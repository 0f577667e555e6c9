-- ===== src/Spy/Fork.antt =====
-- `main_fork`: the exit code of phpspy when it runs a command.
use phpspy.Prelude.{ℕ, ◌+◌, ◌≡◌, ◌↔◌, ◌==◌, if◌then◌else◌, Option, none, some, arith}

-- A wait status: the exit code, or the signal that has killed or stopped the child.
pub data WaitStatus : Type 0 where
  exited signaled wait_stopped : ℕ → WaitStatus

-- What the parent sees: `fork` fails, the first `waitpid` fails, or a first status, and the status
-- that the second `waitpid` leaves, if it succeeds.
pub data Forked : Type 0 where
  no_fork no_wait : Forked
  waited : WaitStatus → Option WaitStatus → Forked

-- The exit code for a status that ends the child.
abbrev pub exit_code : ℕ → WaitStatus → ℕ
exit_code rv (exited n) = n
exit_code rv (signaled n) = 128 + n
exit_code rv (wait_stopped n) = rv

-- `rv` is what `main_pid` returns. The result is the exit code, and whether `main_pid` has run.
unfoldable pub main_fork : ℕ → Forked → ℕ
main_fork rv no_fork = 1
main_fork rv no_wait = 1
main_fork rv (waited (exited n) later) = if n == 0 then 1 else n
main_fork rv (waited (signaled n) later) = 128 + n
main_fork rv (waited (wait_stopped n) none) = rv
main_fork rv (waited (wait_stopped n) (some status)) = exit_code rv status

-- What it takes for an exit code of 0.
abbrev pub HasSucceeded : ℕ → Forked → Type 0
HasSucceeded rv (waited (wait_stopped n) none) = rv ≡ 0
HasSucceeded rv (waited (wait_stopped n) (some (exited m))) = m ≡ 0
HasSucceeded rv (waited (wait_stopped n) (some (wait_stopped m))) = rv ≡ 0
HasSucceeded rv f = ⊥

-- phpspy exits with 0 if and only if the command has been started, which stops the child, and has
-- exited with 0, or its end is not known and `main_pid` has returned 0.
pub main_fork-HasSucceeded : (rv : ℕ) (f : Forked) → (main_fork rv f ≡ 0) ↔ HasSucceeded rv f
unfolding main_fork
main_fork-HasSucceeded rv no_fork = ground arith
main_fork-HasSucceeded rv no_wait = ground arith
main_fork-HasSucceeded rv (waited (exited n) later) = ground arith
main_fork-HasSucceeded rv (waited (signaled n) later) = ground arith
main_fork-HasSucceeded rv (waited (wait_stopped n) none) = ground arith
main_fork-HasSucceeded rv (waited (wait_stopped n) (some (exited m))) = ground arith
main_fork-HasSucceeded rv (waited (wait_stopped n) (some (signaled m))) = ground arith
main_fork-HasSucceeded rv (waited (wait_stopped n) (some (wait_stopped m))) = ground arith
