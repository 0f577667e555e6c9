-- ===== src/Pgrep/Steps.antt =====
-- The threads of pgrep.c, interleaved. The mutex guards every step but `finish` and `stop`: the
-- producer holds it from `enter` to `leave`, and a worker for the whole of `take`.
use phpspy.Prelude.{update, ℕ, ◌<◌, ◌≡◌, Bool, true, false, some, List, [], length, set, replicate}
use phpspy.Prelude.Text.{Text}
use phpspy.Pgrep.{producer, consumer, has_turn, offer_line, pop_pid}

-- Where a worker of `run_work_thread` stands: before or in `wait_for_turn`, or in `main_pid`.
pub data Work : Type 0 where
  looping : Work
  tracing : ℕ → Work

pub record Pool : Type 0 where
  pub done : Bool
  pub producing : Bool
  pub avail : List ℕ
  pub attached : List ℕ
  pub work : ℕ → Work

-- `offer` is one round of the loop over the lines of `pgrep`; between two of them a worker may
-- finish. `leave` unlocks the mutex, or gives it up in `pthread_cond_timedwait`.
pub data Step (n : ℕ) (s : Pool) : Pool → Type 0 where
  enter :
      s.done ≡ false
      → s.producing ≡ false
      → has_turn producer n (length s.avail) ≡ true
      → Step n s (record s { producing = true })
  offer :
      (line : Text)
      → s.producing ≡ true
      → length s.avail < n
      → Step n s (record s { avail = offer_line n s.attached s.avail line })
  leave : s.producing ≡ true → Step n s (record s { producing = false })
  take_pid :
      (i p : ℕ) (rest : List ℕ)
      → i < n
      → s.done ≡ false
      → s.producing ≡ false
      → s.work i ≡ looping
      → has_turn consumer n (length s.avail) ≡ true
      → pop_pid s.avail ≡ some (p, rest)
      → Step n s (record s {
        avail = rest;
        attached = set s.attached i p;
        work = update s.work i (tracing p);
      })
  finish :
      (i p : ℕ)
      → i < n
      → s.work i ≡ tracing p
      → Step n s (record s { attached = set s.attached i 0; work = update s.work i looping })
  stop : Step n s (record s { done = true })

-- `init_work_threads`
abbrev pub start : ℕ → Pool
start n = record {
  done = false;
  producing = false;
  avail = [];
  attached = replicate n 0;
  work = λ i. looping;
}

pub data Reach (n : ℕ) : Pool → Type 0 where
  here : Reach n (start n)
  next : {s t : Pool} → Reach n s → Step n s t → Reach n t
