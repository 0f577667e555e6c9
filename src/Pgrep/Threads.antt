-- ===== src/Pgrep/Threads.antt =====
-- The threads of pgrep.c with their mutex, condition variables and pipe: `run_work_thread`,
-- `pgrep_for_pids` and `wait_for_turn` between their waits, `write_done_pipe` and
-- `run_signal_thread`. Thread 0 is the producer, thread `suc i` the worker `i`. A thread that
-- `main_pgrep` has not started yet is one that has not moved.
use phpspy.Prelude.{
  ℕ, zero, suc, ◌/◌, ◌+◌, ◌≤◌, ◌<◌, ◌≡◌, ltb, if◌then◌else◌, Bool, true, false, ◌||◌, Option, none,
  some, List, length, set,
}
use phpspy.Prelude.Text.{Text}
use phpspy.Options.{Options}
use phpspy.Pgrep.{Role, producer, consumer, has_turn, offer_line, pop_pid}
use phpspy.Prelude.{update}
use phpspy.Pgrep.Steps.{Work, Pool, start}

-- Where a thread stands: at the test of its loop; in `pthread_mutex_lock`, `while (!done)`, the wait
-- or the last test of `wait_for_turn`; among the lines of `pgrep`, with whether it has found a pid;
-- in the wait behind them, and about to get the mutex back from it; in `main_pid`; returned.
pub data Pc : Type 0 where
  looping locking testing waiting chosen : Pc
  producing : Bool → Pc
  resting returning : Pc
  tracing : ℕ → Pc
  ended : Pc

-- Where `run_signal_thread` stands: before its `pipe`, in `select`, before `done = 1`, before its
-- lock, returned.
pub data Signaller : Type 0 where
  starting selecting setting announcing ended : Signaller

-- `pipe` counts the unread writes to `done_pipe`, `none` while it is -1; `mutex` is its owner.
pub record Threads : Type 0 where
  pub pool : Pool
  pub mutex : Option ℕ
  pub pc : ℕ → Pc
  pub pipe : Option ℕ
  pub signaller : Signaller

abbrev pub role : ℕ → Role
role zero = producer
role (suc i) = consumer

-- A wait that ends has to get the mutex first.
abbrev pub woken : Pc → Pc
woken waiting = locking
woken resting = returning
woken looping = looping
woken locking = locking
woken testing = testing
woken chosen = chosen
woken (producing found) = producing found
woken returning = returning
woken (tracing p) = tracing p
woken ended = ended

abbrev pub is_waiting : Pc → Bool
is_waiting waiting = true
is_waiting resting = true
is_waiting looping = false
is_waiting locking = false
is_waiting testing = false
is_waiting chosen = false
is_waiting (producing found) = false
is_waiting returning = false
is_waiting (tracing p) = false
is_waiting ended = false

-- `pthread_cond_broadcast(&can_consume)` wakes the workers.
abbrev pub wake_workers : (ℕ → Pc) → ℕ → Pc
wake_workers pc zero = pc zero
wake_workers pc (suc i) = woken (pc (suc i))

-- `write_done_pipe`
unfoldable pub write_done_pipe : Option ℕ → Option ℕ
write_done_pipe none = none
write_done_pipe (some k) = some (k + 1)

-- `alarm` of `main_pgrep`: in how many seconds.
unfoldable pub alarm : Options → Option ℕ
alarm o =
    if ltb 0 o.time_limit_ms
    then some (if ltb 1 (o.time_limit_ms / 1000) then o.time_limit_ms / 1000 else 1)
    else none

-- The threads move one at a time. A wait may end at any time, by its timeout for instance.
pub data Move (n : ℕ) (s : Threads) : Threads → Type 0 where
  loop_on :
      (t : ℕ)
      → t ≤ n
      → s.pc t ≡ looping
      → s.pool.done ≡ false
      → Move n s (record s { pc = update s.pc t locking })
  loop_end :
      (t : ℕ)
      → t ≤ n
      → s.pc t ≡ looping
      → s.pool.done ≡ true
      → Move n s (record s { pc = update s.pc t ended })
  lock :
      (t : ℕ)
      → t ≤ n
      → s.pc t ≡ locking
      → s.mutex ≡ none
      → Move n s (record s { mutex = some t; pc = update s.pc t testing })
  wait :
      (t : ℕ)
      → t ≤ n
      → s.pc t ≡ testing
      → s.pool.done ≡ false
      → has_turn (role t) n (length s.pool.avail) ≡ false
      → Move n s (record s { mutex = none; pc = update s.pc t waiting })
  wake :
      (t : ℕ)
      → t ≤ n
      → is_waiting (s.pc t) ≡ true
      → Move n s (record s { pc = update s.pc t (woken (s.pc t)) })
  choose :
      (t : ℕ)
      → t ≤ n
      → s.pc t ≡ testing
      → (s.pool.done || has_turn (role t) n (length s.pool.avail)) ≡ true
      → Move n s (record s { pc = update s.pc t chosen })
  quit :
      (t : ℕ)
      → t ≤ n
      → s.pc t ≡ chosen
      → s.pool.done ≡ true
      → Move n s (record s { mutex = none; pc = update s.pc t ended })
  produce :
      s.pc 0 ≡ chosen
      → s.pool.done ≡ false
      → Move n s (record s {
        pool = record s.pool { producing = true };
        pc = update s.pc 0 (producing false);
      })
  offer :
      (found : Bool) (line : Text)
      → s.pc 0 ≡ producing found
      → length s.pool.avail < n
      → Move n s (
          let avail' = offer_line n s.pool.attached s.pool.avail line in
          record s {
            pool = record s.pool { avail = avail' };
            pc = update s.pc 0 (producing (found || ltb (length s.pool.avail) (length avail')));
          })
  announce :
      s.pc 0 ≡ producing true
      → Move n s (record s {
        pool = record s.pool { producing = false };
        mutex = none;
        pc = update (wake_workers s.pc) 0 looping;
      })
  hold_off :
      s.pc 0 ≡ producing false
      → Move n s (record s {
        pool = record s.pool { producing = false };
        mutex = none;
        pc = update s.pc 0 resting;
      })
  return : s.pc 0 ≡ returning → s.mutex ≡ none → Move n s (record s { pc = update s.pc 0 looping })
  take_pid :
      (i p : ℕ) (rest : List ℕ)
      → i < n
      → s.pc (suc i) ≡ chosen
      → s.pool.done ≡ false
      → pop_pid s.pool.avail ≡ some (p, rest)
      → Move n s (record s {
        pool = record s.pool {
          avail = rest;
          attached = set s.pool.attached i p;
          work = update s.pool.work i (Work.tracing p);
        };
        mutex = none;
        pc = update (update s.pc 0 (woken (s.pc 0))) (suc i) (tracing p);
      })
  finish :
      (i p : ℕ)
      → i < n
      → s.pc (suc i) ≡ tracing p
      → Move n s (record s {
        pool = record s.pool {
          attached = set s.pool.attached i 0;
          work = update s.pool.work i Work.looping;
        };
        pc = update s.pc (suc i) looping;
      })
  write : Move n s (record s { pipe = write_done_pipe s.pipe })
  open_pipe : s.signaller ≡ starting → Move n s (record s { pipe = some 0; signaller = selecting })
  read_pipe :
      (k : ℕ)
      → s.signaller ≡ selecting
      → s.pipe ≡ some (suc k)
      → Move n s (record s { pipe = some k; signaller = setting })
  set_done :
      s.signaller ≡ setting
      → Move n s (record s { pool = record s.pool { done = true }; signaller = announcing })
  broadcast :
      s.signaller ≡ announcing
      → s.mutex ≡ none
      → Move n s (record s { pc = λ t. woken (s.pc t); signaller = ended })

-- `main_pgrep` behind `init_work_threads`.
abbrev pub launch : ℕ → Threads
launch n = record {
  pool = start n;
  mutex = none;
  pc = λ t. looping;
  pipe = none;
  signaller = starting;
}

pub data Runs (n : ℕ) : Threads → Type 0 where
  here : Runs n (launch n)
  next : {s t : Threads} → Runs n s → Move n s t → Runs n t
