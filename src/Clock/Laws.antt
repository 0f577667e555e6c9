-- ===== src/Clock/Laws.antt =====
-- The clock arithmetic against plain nanoseconds.
use phpspy.Prelude.{ℕ, ◌+◌, ◌-◌, ◌*◌, ◌/◌, ◌%◌, ◌<◌, ◌≡◌, ◌↔◌, arith}
use phpspy.Prelude.Int.{pos, negsuc}
use phpspy.Options.{Options}
use phpspy.Clock.{
  Timespec, billion, clock_add, clock_diff, sleep_ns, to_timespec, calc_sleep_time, stop_time,
}

abbrev pub nanos : Timespec → ℕ
nanos t = t.sec * billion + t.nsec

-- What the kernel hands out, and what `nanosleep` accepts.
abbrev pub IsNormal : Timespec → Type 0
IsNormal t = t.nsec < billion

-- The sum of normal times has the nanoseconds of both together, and is normal.
clock_add_lem :
    (a b : Timespec)
    → IsNormal a
    → IsNormal b
    → (nanos (clock_add a b) ≡ nanos a + nanos b) × IsNormal (clock_add a b)
unfolding clock_add
clock_add_lem a b ha hb = (ground arith, ground arith)

-- On normal times `clock_diff` is the order of the nanoseconds: 1 exactly if `a` is later, 0
-- exactly if they are equal, -1 exactly if `a` is earlier.
clock_diff_lem :
    (a b : Timespec)
    → IsNormal a
    → IsNormal b
    → ((clock_diff a b ≡ pos 1) ↔ (nanos b < nanos a))
      × ((clock_diff a b ≡ pos 0) ↔ (nanos a ≡ nanos b))
      × ((clock_diff a b ≡ negsuc 0) ↔ (nanos a < nanos b))
unfolding clock_diff
clock_diff_lem a b ha hb =
    ((ground arith, ground arith), (ground arith, ground arith), (ground arith, ground arith))

-- The sleep fills up the sampling period: `opt_sleep_ns` less the time that the trace took, and
-- nothing if the trace took longer. The result is a normal time.
pub calc_sleep_time_lem :
    (o : Options) (end start : Timespec)
    → IsNormal (calc_sleep_time o end start)
      × (nanos (calc_sleep_time o end start) ≡ o.sleep_ns + nanos start - nanos end)
unfolding calc_sleep_time sleep_ns to_timespec
calc_sleep_time_lem o end start = (ground arith, ground arith)

-- The time limit of `main_pid`: from a normal start, `clock_diff` against the stop time is 1 exactly
-- if more than `opt_time_limit_ms` milliseconds have passed.
pub stop_time_lem :
    (o : Options) (start now : Timespec)
    → IsNormal start
    → IsNormal now
    → (clock_diff now (stop_time o start) ≡ pos 1)
      ↔ (nanos start + o.time_limit_ms * 1000000 < nanos now)
unfolding stop_time
stop_time_lem o start now hs hn =
    let limit : Timespec = record {
      sec = o.time_limit_ms / 1000;
      nsec = o.time_limit_ms % 1000 * 1000000;
    } in
    let (sum, normal) = clock_add_lem start limit hs (omega arith) in
    let stop = clock_add start limit in
    let (later, same, earlier) = clock_diff_lem now stop hn normal in
    (λ h. omega (arith, later.0 h, sum), λ h. later.1 (omega (arith, sum)))
