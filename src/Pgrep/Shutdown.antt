-- ===== src/Pgrep/Shutdown.antt =====
-- How the threads of pgrep.c end when `run_signal_thread` has returned. `main_pid` is one move: it
-- returns by its own limits.
use phpspy.Prelude.{
  ℕ, zero, suc, ◌+◌, ◌*◌, ◌≤◌, ◌<◌, ◌≡◌, ◌≢◌, ◌∙◌, sym, inl, inr, refl, true, false, Bool, none,
  arith, Option-cases,
}
use mathlib.Core.Path.{subst}
use phpspy.Prelude.{update}
use phpspy.Pgrep.Threads.{
  Pc, looping, locking, testing, waiting, chosen, producing, resting, returning, tracing, Signaller,
  Threads, Move, loop_on, loop_end, lock, wait, wake, choose, quit, produce, offer, announce,
  hold_off, return, take_pid, finish, write, open_pipe, read_pipe, set_done, broadcast, Runs, next,
}
use phpspy.Pgrep.Mutex.{holds, IsGuarded, Runs-IsGuarded}
use phpspy.Pgrep.Awake.{IsClosing, Runs-IsClosing}

-- How many moves a thread has left, when `done` is set and nobody waits.
abbrev rank : Pc → ℕ
rank looping = 1
rank locking = 3
rank testing = 2
rank waiting = 0
rank chosen = 1
rank (producing found) = 0
rank resting = 0
rank returning = 2
rank (tracing p) = 2
rank Pc.ended = 0

abbrev total : (ℕ → Pc) → ℕ → ℕ
total pc zero = 0
total pc (suc k) = rank (pc k) + total pc k

total-update_above :
    (pc : ℕ → Pc) (t : ℕ) (c : Pc) (k : ℕ) → k ≤ t → total (update pc t c) k ≡ total pc k
total-update_above pc t c zero le = refl
total-update_above pc t c (suc k) le = ground (arith, total-update_above pc t c k)

total-update :
    (pc : ℕ → Pc) (t : ℕ) (c : Pc) (k : ℕ)
    → t < k
    → total (update pc t c) k + rank (pc t) ≡ total pc k + rank c
total-update pc t c zero lt = elim lt [ ]
total-update pc t c (suc k) lt = ground (arith, total-update pc t c k, total-update_above pc t c k)

total-le : (pc : ℕ → Pc) (k : ℕ) → total pc k ≤ 3 * k
total-le pc zero = omega arith
total-le pc (suc k) = ground (arith, total-le pc k)

-- The one move that is no thread's own: `write_done_pipe`, from a signal handler or `main_pid`.
abbrev pub is_write : {n : ℕ} {s s' : Threads} → Move n s s' → Bool
is_write write = true
is_write _ = false

-- `k` moves of threads after `s`, and any number of writes to the pipe.
pub data After (n : ℕ) (s : Threads) : ℕ → Threads → Type 0 where
  now : After n s 0 s
  moved :
      {k : ℕ} {t u : Threads}
      → After n s k t
      → (m : Move n t u) → is_write m ≡ false
      → After n s (suc k) u
  written :
      {k : ℕ} {t u : Threads} → After n s k t → (m : Move n t u) → is_write m ≡ true → After n s k u

-- Some thread can move.
abbrev pub Goes : ℕ → Threads → Type 0
Goes n s = (u : Threads) × (m : Move n s u) × (is_write m ≡ false)

module _ {n : ℕ} {s : Threads} (g : IsGuarded n s) (v : IsClosing s)
    (over : s.signaller ≡ Signaller.ended) where
  lowers :
      (t : ℕ) (c : Pc)
      → t ≤ n
      → rank c < rank (s.pc t)
      → total (update s.pc t c) (suc n) < total s.pc (suc n)
  lowers t c le h = omega (arith, total-update s.pc t c (suc n) (omega arith))

  Move-lowers :
      {s' : Threads} (m : Move n s s')
      → is_write m ≡ false
      → (total s'.pc (suc n) < total s.pc (suc n)) × (s'.signaller ≡ Signaller.ended)
  Move-lowers (loop_on t le at go) h = absurd (ground (arith, v.told over))
  Move-lowers (loop_end t le at go) h = (lowers t Pc.ended le (ground arith), over)
  Move-lowers (lock t le at free) h = (lowers t testing le (ground arith), over)
  Move-lowers (wait t le at go no_turn) h = absurd (ground (arith, v.told over))
  Move-lowers (wake t le at) h = absurd (ground (arith, v.awake over t))
  Move-lowers (choose t le at go) h = (lowers t chosen le (ground arith), over)
  Move-lowers (quit t le at go) h = (lowers t Pc.ended le (ground arith), over)
  Move-lowers (produce at go) h = absurd (ground (arith, v.told over))
  Move-lowers (offer found line at room) h = absurd (ground (arith, v.quiet over))
  Move-lowers (announce at) h = absurd (ground (arith, v.quiet over))
  Move-lowers (hold_off at) h = absurd (ground (arith, v.quiet over))
  Move-lowers (return at free) h = (lowers 0 looping (omega arith) (ground arith), over)
  Move-lowers (take_pid i p others lt at go got) h = absurd (ground (arith, v.told over))
  Move-lowers (finish i p lt at) h = (lowers (suc i) looping (omega arith) (ground arith), over)
  Move-lowers write h = absurd (ground arith)
  Move-lowers (open_pipe at) h = absurd (cc)
  Move-lowers (read_pipe k at full) h = absurd (cc)
  Move-lowers (set_done at) h = absurd (cc)
  Move-lowers (broadcast at free) h = absurd (cc)

  -- Who has the mutex can go on.
  holder-Goes : (t : ℕ) → t ≤ n → (c : Pc) → s.pc t ≡ c → holds c ≡ true → Goes n s
  holder-Goes t le testing at h = (_, choose t le at (ground (arith, v.told over)), refl)
  holder-Goes t le chosen at h = (_, quit t le at (v.told over), refl)
  holder-Goes zero le (producing found) at h = absurd (ground (arith, v.quiet over))
  holder-Goes (suc i) le (producing found) at h = absurd (ground (arith, g.roles (suc i)))
  holder-Goes t le _ at h = absurd (cc)

  -- A thread can lock the mutex, or who has it can go on.
  lock-Goes : (t : ℕ) → (s.mutex ≡ none → Goes n s) → Goes n s
  lock-Goes t free = elim (Option-cases s.mutex) [
    | inl e ↦ free e
    | inr (u, e) ↦ let (h, le) = g.owned.held u e in holder-Goes u le (s.pc u) refl h
  ]

  thread-Goes : (t : ℕ) → t ≤ n → (c : Pc) → s.pc t ≡ c → c ≢ Pc.ended → Goes n s
  thread-Goes t le looping at ne = (_, loop_end t le at (v.told over), refl)
  thread-Goes t le locking at ne = lock-Goes t (λ free. (_, lock t le at free, refl))
  thread-Goes t le testing at ne = holder-Goes t le testing at refl
  thread-Goes t le chosen at ne = holder-Goes t le chosen at refl
  thread-Goes t le (producing found) at ne = holder-Goes t le (producing found) at refl
  thread-Goes t le waiting at ne = absurd (ground (arith, v.awake over t))
  thread-Goes t le resting at ne = absurd (ground (arith, v.awake over t))
  thread-Goes zero le returning at ne = lock-Goes 0 (λ free. (_, return at free, refl))
  thread-Goes (suc i) le returning at ne = absurd (ground (arith, g.roles (suc i)))
  thread-Goes zero le (tracing p) at ne = absurd (ground (arith, g.roles 0))
  thread-Goes (suc i) le (tracing p) at ne = (_, finish i p (omega arith) at, refl)
  thread-Goes t le Pc.ended at ne = absurd (ne refl)

is_write-kept :
    {n : ℕ} {s u : Threads} (m : Move n s u)
    → is_write m ≡ true
    → (s.pc ≡ u.pc) × (s.signaller ≡ u.signaller)
is_write-kept write h = (refl, refl)
is_write-kept (loop_on t le at go) h = absurd (cc)
is_write-kept _ h = absurd (cc)

record Left (n : ℕ) (s : Threads) (k : ℕ) (u : Threads) : Type 0 where
  runs : Runs n u
  over : u.signaller ≡ Signaller.ended
  few : k + total u.pc (suc n) ≤ total s.pc (suc n)

After-Left :
    {n : ℕ} {s : Threads}
    → Runs n s
    → s.signaller ≡ Signaller.ended
    → {k : ℕ} {u : Threads} → After n s k u
    → Left n s k u
After-Left r over now = record { runs = r; over = over; few = omega arith }
After-Left {n} {s} r over (moved {t = t} a m h) =
    let l = After-Left r over a in
    let (less, over') = Move-lowers (Runs-IsGuarded l.runs) (Runs-IsClosing l.runs) l.over m h in
    record { runs = next l.runs m; over = over'; few = omega (arith, l.few) }
After-Left {n} {s} r over (written {k = k} {t = t} {u = u} a m h) =
    let l = After-Left r over a in
    let (same, kept) = is_write-kept m h in
    record {
      runs = next l.runs m;
      over = sym kept ∙ l.over;
      few = subst (λ (pc : ℕ → Pc). k + total pc (suc n) ≤ total s.pc (suc n)) same l.few;
    }

-- Once `run_signal_thread` has returned, the producer and the workers together make at most three moves
-- for each of them, whatever their order and whatever is written to the pipe; and as long as one of
-- them has not returned, one of them can move. Tracing a process is one move.
pub shutdown_ends :
    {n : ℕ} {s : Threads}
    → Runs n s
    → s.signaller ≡ Signaller.ended
    → {k : ℕ} {u : Threads} → After n s k u
    → (k ≤ 3 * (n + 1)) × ((t : ℕ) → t ≤ n → u.pc t ≢ Pc.ended → Goes n u)
shutdown_ends {n} {s} r over {u = u} a =
    let l = After-Left r over a in
    (
      omega (arith, l.few, total-le s.pc (suc n)),
      λ t le ne.
          thread-Goes (Runs-IsGuarded l.runs) (Runs-IsClosing l.runs) l.over t le (u.pc t) refl ne,
    )
