-- ===== src/Pgrep/ThreadTests.antt =====
-- One worker, which waits for a pid while a signal arrives.
use phpspy.Prelude.{ℕ, ◌+◌, ◌*◌, ◌≤◌, ◌≡◌, ◌≢◌, refl, true, false, none, some, arith}
use phpspy.Options.{defaults}
use phpspy.Pgrep.{has_turn}
use phpspy.Prelude.{update}
use phpspy.Pgrep.Steps.{start, Reach}
use phpspy.Pgrep.Threads.{
  Pc, locking, testing, waiting, woken, launch, Signaller, Threads, is_waiting, loop_on, loop_end,
  lock, wait, write, open_pipe, read_pipe, set_done, broadcast, write_done_pipe, alarm, Runs, here,
  next,
}
use phpspy.Pgrep.Refine.{Runs-Reach}
use phpspy.Pgrep.Awake.{nobody_waits}
use phpspy.Pgrep.Shutdown.{After, now, moved, Goes, shutdown_ends}

abbrev asleep : Threads
asleep = record (launch 1) {
  pc = update (update (update (launch 1).pc 1 locking) 1 testing) 1 waiting;
}

Runs-asleep : Runs 1 asleep
unfolding has_turn
Runs-asleep =
    next (next (next here (loop_on 1 (omega arith) refl refl)) (lock 1 (omega arith) refl refl))
      (wait 1 (omega arith) refl refl refl)

abbrev over : Threads
over = record asleep {
  pool = record (start 1) { done = true };
  pc = λ t. woken (asleep.pc t);
  pipe = some 0;
  signaller = Signaller.ended;
}

Runs-over : Runs 1 over
unfolding write_done_pipe
Runs-over =
    next
      (next (next (next (next Runs-asleep (open_pipe refl)) write) (read_pipe 0 refl refl))
        (set_done refl))
      (broadcast refl refl)

woken_test : over.pc 1 ≡ locking
woken_test = refl

abbrev left : Threads
left = record over { pc = update over.pc 0 Pc.ended }

After-left : After 1 over 1 left
After-left = moved now (loop_end 0 (omega arith) refl refl) refl

alarm_test :
    (alarm defaults ≡ none)
    × (alarm (record defaults { time_limit_ms = 900 }) ≡ some 1)
    × (alarm (record defaults { time_limit_ms = 2900 }) ≡ some 2)
unfolding alarm
alarm_test = (refl, refl, refl)

Runs-Reach_example : Reach 1 over.pool
Runs-Reach_example = Runs-Reach Runs-over

nobody_waits_example : (over.pool.done ≡ true) × ((t : ℕ) → is_waiting (over.pc t) ≡ false)
nobody_waits_example = nobody_waits Runs-over refl

shutdown_ends_example : (1 ≤ 3 * (1 + 1)) × ((t : ℕ) → t ≤ 1 → left.pc t ≢ Pc.ended → Goes 1 left)
shutdown_ends_example = shutdown_ends Runs-over refl After-left
