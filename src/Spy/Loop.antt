-- ===== src/Spy/Loop.antt =====
-- The loop of `main_pid`.
use phpspy.Prelude.{
  ℕ, zero, suc, ◌+◌, ◌%◌, ◌^◌, ltb, leb, if◌then◌else◌, Bool, false, not, ◌&&◌, ◌||◌, Option, none,
  some, ◌∷◌,
}
use phpspy.Prelude.Int.{pos, ltb_ℤ}
use phpspy.Options.{Options}
use phpspy.Status.{Status, ok, err, err_dead, ◌⊔◌}
use phpspy.Clock.{Timespec, clock_diff, calc_sleep_time}
use phpspy.Zend.Remote.{Outcome, done, fail, stuck}
use phpspy.Trace.{Action}
use phpspy.Spy.{
  attached, no_process, refused, World, Spy, Left, stopped, pid_dead, trace_limit, time_limit,
  unreturned, running,
}

unfoldable pub pause_pid : World → ℕ → Status
pause_pid w k = elim (w.attach k) [
  | no_process ↦ err_dead
  | refused ↦ err
  | attached ↦ if w.waited k then ok else err
]

unfoldable pub unpause_pid : World → ℕ → Status
unpause_pid w k = elim (w.detach k) [ no_process ↦ err_dead | refused ↦ err | attached ↦ ok ]

-- The statuses of a round, of which the trace has returned `rv`.
unfoldable pub round_status : Options → World → ℕ → Status → Status
round_status o w k rv = if o.pause then (pause_pid w k ⊔ rv) ⊔ unpause_pid w k else rv

-- `rv == PHPSPY_OK || rv == PHPSPY_ERR_TRUNCATED`
unfoldable pub is_counted : Status → Bool
is_counted rv = not (rv.failed || (rv.pid_dead || rv.skipped))

-- `trace_count` as this thread reads it.
unfoldable pub seen_count : World → ℕ → ℕ → ℕ
seen_count w k n = if w.in_pgrep_mode then (n + w.others k) % 2 ^ 64 else n

-- What a round does with the status `rv`: whether the loop is left, and the state.
unfoldable pub finish_round :
    Options → World → Option Timespec → ℕ → Status → Spy → Option Left × Spy
finish_round o w stop_time k rv s =
    let counts = ltb 0 o.trace_limit && is_counted rv in
    let n = if counts then (s.trace_count + 1) % 2 ^ 64 else s.trace_count in
    let counted = record s { trace_count = n } in
    let late : Bool = elim stop_time [
      | none ↦ false
      | some t ↦ ltb_ℤ (pos 0) (clock_diff (w.start_time k) t)
    ] in
    let slept = record counted {
      sleeps = calc_sleep_time o (w.end_time k) (w.start_time k) ∷ s.sleeps;
    } in
    if rv.pid_dead
    then (some pid_dead, s)
    else if counts && leb o.trace_limit (seen_count w k n)
    then (some trace_limit, counted)
    else if late
    then (some time_limit, counted)
    else (none, slept)

-- A round: the trace, with the process stopped if -S is given, and what follows it.
unfoldable pub after_trace :
    Options → World → Option Timespec → ℕ → Outcome Status → Spy → Option Left × Spy
after_trace o w stop_time k stuck s = (some unreturned, s)
after_trace o w stop_time k (fail rv) s = finish_round o w stop_time k (round_status o w k rv) s
after_trace o w stop_time k (done rv) s = finish_round o w stop_time k (round_status o w k rv) s

unfoldable pub spy_round :
    Options → World → Action Status → Option Timespec → ℕ → Spy → Option Left × Spy
spy_round o w trace stop_time k s =
    let (traced, context) = trace s.context in
    after_trace o w stop_time k traced (record s { context = context })

-- What follows a round.
abbrev pub go_on : (Spy → Left × Spy) → Option Left × Spy → Left × Spy
go_on next (some l, s) = (l, s)
go_on next (none, s) = next s

-- `while (!done)`, from the round `k` on.
unfoldable pub spy_loop :
    Options → World → Action Status → Option Timespec → ℕ → ℕ → Spy → Left × Spy
spy_loop o w trace stop_time zero k s = (running, s)
spy_loop o w trace stop_time (suc fuel) k s =
    if w.done k
    then (stopped, s)
    else go_on (spy_loop o w trace stop_time fuel (suc k)) (spy_round o w trace stop_time k s)
