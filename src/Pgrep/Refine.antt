-- ===== src/Pgrep/Refine.antt =====
-- The threads with their mutex against the pool, whose steps take the mutex for granted.
use phpspy.Prelude.{ℕ, suc, ◌≡◌, ◌⊎◌, inl, inr, refl, true, false, length, arith}
use mathlib.Core.Path.{subst}
use phpspy.Pgrep.{has_turn}
use phpspy.Pgrep.Steps.{Pool, Step, enter, leave, stop, start, Reach}
use phpspy.Pgrep.Steps
use phpspy.Pgrep.Threads.{
  Threads, chosen, role, Move, loop_on, loop_end, lock, wait, wake, choose, quit, produce, offer,
  announce, hold_off, return, take_pid, finish, write, open_pipe, read_pipe, set_done, broadcast,
  Runs, here, next,
}
use phpspy.Pgrep.Mutex.{IsGuarded, Runs-IsGuarded}

-- Who has left `wait_for_turn` for its work has had the turn.
had_turn :
    {n : ℕ} {s : Threads}
    → IsGuarded n s
    → (t : ℕ) → s.pc t ≡ chosen
    → s.pool.done ≡ false
    → has_turn (role t) n (length s.pool.avail) ≡ true
had_turn v t at go = ground (arith, v.turn t)

-- While another thread has the mutex the producer is not among the lines.
not_producing :
    {n : ℕ} {s : Threads}
    → IsGuarded n s
    → (i : ℕ) → s.pc (suc i) ≡ chosen
    → s.pool.producing ≡ false
not_producing {s = s} v i at = ground (arith, v.produces, v.owned.holder 0, v.owned.holder (suc i))

Move-Step :
    {n : ℕ} {s s' : Threads}
    → Move n s s'
    → IsGuarded n s
    → Step n s.pool s'.pool ⊎ (s.pool ≡ s'.pool)
Move-Step {s = s} (produce at go) v =
    inl (enter go (ground (arith, v.produces)) (had_turn v 0 at go))
Move-Step (offer found line at room) v = inl (Steps.offer line (ground (arith, v.produces)) room)
Move-Step (announce at) v = inl (leave (ground (arith, v.produces)))
Move-Step (hold_off at) v = inl (leave (ground (arith, v.produces)))
Move-Step (take_pid i p others lt at go got) v = inl (
    Steps.take_pid i p others lt go (not_producing v i at) (ground (arith, v.works i))
      (had_turn v (suc i) at go) got)
Move-Step (finish i p lt at) v = inl (Steps.finish i p lt (ground (arith, v.works i)))
Move-Step (set_done at) v = inl stop
Move-Step (loop_on t le at go) v = inr refl
Move-Step (loop_end t le at go) v = inr refl
Move-Step (lock t le at go) v = inr refl
Move-Step (wait t le at go no_turn) v = inr refl
Move-Step (wake t le at) v = inr refl
Move-Step (choose t le at go) v = inr refl
Move-Step (quit t le at go) v = inr refl
Move-Step (return at free) v = inr refl
Move-Step write v = inr refl
Move-Step (open_pipe at) v = inr refl
Move-Step (read_pipe k at full) v = inr refl
Move-Step (broadcast at free) v = inr refl

follow : {n : ℕ} {p q : Pool} → Reach n p → Step n p q ⊎ (p ≡ q) → Reach n q
follow r (inl st) = Reach.next r st
follow {n} r (inr e) = subst (Reach n) e r

-- Whatever the threads reach with their mutex, their condition variables and their waits, the pids,
-- the work of the threads and the flag `done` are in a state that the steps of the pool reach.
pub Runs-Reach : {n : ℕ} {s : Threads} → Runs n s → Reach n s.pool
Runs-Reach here = Reach.here
Runs-Reach (next r m) = follow (Runs-Reach r) (Move-Step m (Runs-IsGuarded r))
