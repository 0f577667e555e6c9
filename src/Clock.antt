-- ===== src/Clock.antt =====
-- The clock arithmetic of phpspy.c: `clock_add`, `clock_diff` and `calc_sleep_time`.
-- A `struct timespec` of the monotonic clock is not negative, and stays far below 2^63 nanoseconds.
use phpspy.Prelude.{
  ℕ, zero, suc, ◌+◌, ◌-◌, ◌*◌, ◌/◌, ◌%◌, ◌^◌, ◌≤◌, ◌<◌, ◌≡◌, ◌≢◌, ◌↔◌, ◌⊎◌, inl, inr, refl, sym, ap,
  ◌∙◌, ltb, leb, ◌==◌, if◌then◌else◌, Bool, true, false, not, ◌&&◌, ◌||◌, Option, none, some, List,
  [], ◌∷◌, ◌++◌, map, arith, length, take, drop, get_elem?, set, get_or, replicate, Bool-cases,
  Option-cases, length-append, length-take, length-drop, length-map, length-set, take-append-drop,
  All, All-append, ltb→lt, lt→ltb, leb→le, ==_iff,
}
use phpspy.Prelude.Text.{Text, codes, text_eq, decimal, decimal_ℤ, snprintf}
use phpspy.Prelude.Int.{ℤ, pos, negsuc, sub_ℕ, ltb_ℤ}
use phpspy.Options.{Options}
pub mod Laws
pub mod Tests

pub record Timespec : Type 0 where
  pub sec : ℕ
  pub nsec : ℕ

abbrev pub billion : ℕ
billion = 1000000000

unfoldable pub clock_add : Timespec → Timespec → Timespec
clock_add a b =
    let sec = a.sec + b.sec in
    let nsec = a.nsec + b.nsec in
    if leb billion nsec
    then record { sec = sec + nsec / billion; nsec = nsec % billion }
    else record { sec = sec; nsec = nsec }

-- 1 if `a` is later, -1 if it is earlier, 0 if they are equal.
unfoldable pub clock_diff : Timespec → Timespec → ℤ
clock_diff a b =
    if a.sec == b.sec
    then (if a.nsec == b.nsec then pos 0 else if ltb b.nsec a.nsec then pos 1 else negsuc 0)
    else (if ltb b.sec a.sec then pos 1 else negsuc 0)

-- `sleep_ns` of `calc_sleep_time`: a `long` that may be negative.
unfoldable pub sleep_ns : Options → Timespec → Timespec → ℤ
sleep_ns o end start =
    if end.sec == start.sec
    then sub_ℕ (o.sleep_ns + start.nsec) end.nsec
    else sub_ℕ (o.sleep_ns + (start.sec * billion + start.nsec)) (end.sec * billion + end.nsec)

-- A duration in nanoseconds as a timespec.
unfoldable pub to_timespec : ℕ → Timespec
to_timespec ns =
    if ltb ns billion
    then record { sec = 0; nsec = ns }
    else record { sec = ns / billion; nsec = ns - ns / billion * billion }

unfoldable pub calc_sleep_time : Options → Timespec → Timespec → Timespec
calc_sleep_time o end start = elim (sleep_ns o end start) [
  | pos ns ↦ to_timespec ns
  | negsuc ns ↦ to_timespec 0
]

-- `stop_time` of `main_pid`: the start and `opt_time_limit_ms`.
unfoldable pub stop_time : Options → Timespec → Timespec
stop_time o now =
    clock_add now (record { sec = o.time_limit_ms / 1000; nsec = o.time_limit_ms % 1000 * 1000000 })
