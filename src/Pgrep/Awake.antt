-- ===== src/Pgrep/Awake.antt =====
-- Who waits when `run_signal_thread` of pgrep.c has returned.
use phpspy.Prelude.{ℕ, ◌≡◌, ◌≢◌, ◌∙◌, refl, true, false, Option, none, some, arith}
use phpspy.Prelude.{update}
use phpspy.Pgrep.Steps.{Pool}
use phpspy.Pgrep.Threads.{
  Pc, looping, locking, testing, chosen, Signaller, Threads, woken, is_waiting, Move, loop_on,
  loop_end, lock, wait, wake, choose, quit, produce, offer, announce, hold_off, return, take_pid,
  finish, write, open_pipe, read_pipe, set_done, broadcast, launch, Runs, here, next,
}
use phpspy.Pgrep.Mutex.{is_producing, IsGuarded, Runs-IsGuarded}

-- What `run_signal_thread` leaves behind: `done` is set, nobody waits and nobody reads pids.
pub record IsClosing (s : Threads) : Type 0 where
  pub announced : s.signaller ≡ Signaller.announcing → s.pool.done ≡ true
  pub told : s.signaller ≡ Signaller.ended → s.pool.done ≡ true
  pub awake : s.signaller ≡ Signaller.ended → (t : ℕ) → is_waiting (s.pc t) ≡ false
  pub quiet : s.signaller ≡ Signaller.ended → is_producing (s.pc 0) ≡ false

is_waiting-woken : (c : Pc) → is_waiting (woken c) ≡ false
is_waiting-woken c = ground arith

-- The moves that neither start a wait nor wake anybody up.
keeps :
    {s : Threads} (v : IsClosing s) (m : Option ℕ) (t : ℕ) (c : Pc)
    → is_waiting c ≡ false
    → is_producing c ≡ false
    → IsClosing (record s { mutex = m; pc = update s.pc t c })
keeps {s} v m t c w p = record {
  announced = v.announced;
  told = v.told;
  awake = λ e u. ground (arith, v.awake e u);
  quiet = λ e. ground (arith, v.quiet e);
}

-- The moves that nobody makes when the signal thread has returned.
busy :
    {s : Threads} (v : IsClosing s) (pool : Pool) (m : Option ℕ) (pc : ℕ → Pc)
    → pool.done ≡ s.pool.done
    → s.signaller ≢ Signaller.ended
    → IsClosing (record s { pool = pool; mutex = m; pc = pc })
busy v pool m pc e ne = record {
  announced = λ h. e ∙ v.announced h;
  told = λ h. absurd (ne h);
  awake = λ h t. absurd (ne h);
  quiet = λ h. absurd (ne h);
}

Move-IsClosing : {n : ℕ} {s s' : Threads} → Move n s s' → IsGuarded n s → IsClosing s → IsClosing s'
Move-IsClosing {s = s} (loop_on t le at go) g v = keeps v s.mutex t locking refl refl
Move-IsClosing {s = s} (loop_end t le at go) g v = keeps v s.mutex t Pc.ended refl refl
Move-IsClosing {s = s} (lock t le at go) g v = keeps v (some t) t testing refl refl
Move-IsClosing {s = s} (wait t le at go no_turn) g v =
    busy v s.pool none _ refl (λ e. ground (arith, v.told e))
Move-IsClosing {s = s} (wake t le at) g v = record {
  announced = v.announced;
  told = v.told;
  awake = λ e u. ground (arith, v.awake e u, v.awake e t);
  quiet = λ e. ground (arith, v.quiet e, v.awake e t);
}
Move-IsClosing {s = s} (choose t le at go) g v = keeps v s.mutex t chosen refl refl
Move-IsClosing {s = s} (quit t le at go) g v = keeps v none t Pc.ended refl refl
Move-IsClosing {s = s} (return at free) g v = keeps v s.mutex 0 looping refl refl
Move-IsClosing {s = s} (produce at go) g v = busy v _ s.mutex _ refl (λ e. ground (arith, v.told e))
Move-IsClosing {s = s} (offer found line at room) g v =
    busy v _ s.mutex _ refl (λ e. ground (arith, v.quiet e))
Move-IsClosing {s = s} (announce at) g v = busy v _ none _ refl (λ e. ground (arith, v.quiet e))
Move-IsClosing {s = s} (hold_off at) g v = busy v _ none _ refl (λ e. ground (arith, v.quiet e))
Move-IsClosing {s = s} (take_pid i p others lt at go got) g v =
    busy v _ none _ refl (λ e. ground (arith, v.told e))
Move-IsClosing {s = s} (finish i p lt at) g v = record {
  announced = v.announced;
  told = v.told;
  awake = λ e u. ground (arith, v.awake e u);
  quiet = λ e. ground (arith, v.quiet e);
}
Move-IsClosing write g v = record {
  announced = v.announced;
  told = v.told;
  awake = v.awake;
  quiet = v.quiet;
}
Move-IsClosing (open_pipe at) g v = record {
  announced = λ e. cc;
  told = λ e. cc;
  awake = λ e t. cc;
  quiet = λ e. cc;
}
Move-IsClosing (read_pipe k at full) g v = record {
  announced = λ e. cc;
  told = λ e. cc;
  awake = λ e t. cc;
  quiet = λ e. cc;
}
Move-IsClosing (set_done at) g v = record {
  announced = λ e. refl;
  told = λ e. refl;
  awake = λ e t. cc;
  quiet = λ e. cc;
}
Move-IsClosing {s = s} (broadcast at free) g v = record {
  announced = λ e. v.announced at;
  told = λ e. v.announced at;
  awake = λ e t. is_waiting-woken (s.pc t);
  quiet = λ e. ground (arith, g.owned.holder 0);
}

launch-IsClosing : (n : ℕ) → IsClosing (launch n)
launch-IsClosing n = record {
  announced = λ e. cc;
  told = λ e. cc;
  awake = λ e t. cc;
  quiet = λ e. cc;
}

pub Runs-IsClosing : {n : ℕ} {s : Threads} → Runs n s → IsClosing s
Runs-IsClosing {n} here = launch-IsClosing n
Runs-IsClosing (next r m) = Move-IsClosing m (Runs-IsGuarded r) (Runs-IsClosing r)

-- Once `run_signal_thread` has returned, `done` is set and no thread waits on a condition variable,
-- whatever the order of the moves: no wake-up is lost.
pub nobody_waits :
    {n : ℕ} {s : Threads}
    → Runs n s
    → s.signaller ≡ Signaller.ended
    → (s.pool.done ≡ true) × ((t : ℕ) → is_waiting (s.pc t) ≡ false)
nobody_waits r e = let v = Runs-IsClosing r in (v.told e, v.awake e)
