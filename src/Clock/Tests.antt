-- ===== src/Clock/Tests.antt =====
-- The laws of the clock at concrete times.
use phpspy.Prelude.{◌+◌, ◌-◌, ◌*◌, ◌<◌, ◌≡◌, ◌↔◌, arith}
use phpspy.Prelude.Int.{pos}
use phpspy.Options.{Options, defaults}
use phpspy.Clock.{Timespec, clock_diff, calc_sleep_time, stop_time}
use phpspy.Clock.Laws.{nanos, IsNormal, calc_sleep_time_lem, stop_time_lem}

abbrev early : Timespec
early = record { sec = 5; nsec = 999999999 }

abbrev late : Timespec
late = record { sec = 6; nsec = 4 }

abbrev limited : Options
limited = record defaults { time_limit_ms = 1500 }

calc_sleep_time_lem_example :
    IsNormal (calc_sleep_time defaults late early)
    × (nanos (calc_sleep_time defaults late early) ≡ 10101010 + nanos early - nanos late)
calc_sleep_time_lem_example = calc_sleep_time_lem defaults late early

stop_time_lem_example :
    (clock_diff late (stop_time limited early) ≡ pos 1)
    ↔ (nanos early + 1500 * 1000000 < nanos late)
stop_time_lem_example = stop_time_lem limited early late (omega arith) (omega arith)
