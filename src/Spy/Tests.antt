-- ===== src/Spy/Tests.antt =====
-- The main loop on concrete answers.
use phpspy.Prelude.{
  ltb, ◌+◌, ◌≡◌, ◌↔◌, inr, refl, if◌then◌else◌, true, false, none, some, [], ◌++◌, arith,
}
use phpspy.Prelude.Text.{codes}
use phpspy.Prelude.Int.{pos, ltb_ℤ}
use phpspy.Options.{Options, defaults}
use phpspy.Status.{Status, ok}
use phpspy.Clock.{clock_diff}
use phpspy.Zend.Remote.{done}
use phpspy.Zend.Versions.{v84, x86_64}
use phpspy.Symbols.Tests.{shells}
use phpspy.Trace.{Context, Action}
use phpspy.Trace.Tests.{env_with, fresh}
use phpspy.Spy.{World, Spy, has_left, trace_limit, running, attached}
use phpspy.Spy.Loop.{spy_loop}
use phpspy.Spy.Ends.{spy_loop-ends}
use phpspy.Spy.Limit.{is_good, good_traces, spy_loop-limit}
use Prim.Native.Nat.{min}
use phpspy.Spy.Choice.{dotted, chosen, chosen-dotted}
use phpspy.Spy.Fork.{waited, wait_stopped, exited, main_fork, HasSucceeded, main_fork-HasSucceeded}
use phpspy.Spy.Start.{Setup, IsClosed, main_pid, main_pid-IsClosed}

abbrev world : World
world = record {
  done = λ k. false;
  attach = λ k. attached;
  waited = λ k. true;
  detach = λ k. attached;
  start_time = λ k. record { sec = k; nsec = 0 };
  end_time = λ k. record { sec = k; nsec = 1000 };
  others = λ k. 0;
  in_pgrep_mode = false;
}

-- `-l 3`
abbrev three : Options
three = record defaults { trace_limit = 3 }

-- A trace that reads and sends nothing.
abbrev quick : Action Status
quick c = (done ok, c)

abbrev at_start : Spy
at_start = record { context = fresh; trace_count = 0; sleeps = [] }

quick-returns : (c : Context) → (rv : Status) × ((quick c).0 ≡ done rv) × (rv.pid_dead ≡ false)
quick-returns c = (ok, refl, refl)

spy_loop-limit_example :
    let r = spy_loop three world quick none 4 0 at_start in
    (r.1.trace_count ≡ min (0 + good_traces quick 4 fresh) 3)
    × (r.0 ≡ (if ltb (0 + good_traces quick 4 fresh) 3 then running else trace_limit))
spy_loop-limit_example =
    spy_loop-limit three world quick (omega arith) (omega arith) refl 4 0 at_start (omega arith)
      (λ k. refl) (λ k. (refl, refl, refl)) quick-returns

good_traces_test : good_traces quick 4 fresh ≡ 4
unfolding good_traces is_good
good_traces_test = refl

late : ltb_ℤ (pos 0) (clock_diff (world.start_time 5) (record { sec = 4; nsec = 0 })) ≡ true
unfolding clock_diff
late = refl

spy_loop-ends_example :
    has_left (spy_loop defaults world quick (some (record { sec = 4; nsec = 0 })) 6 0 at_start).0
    ≡ true
spy_loop-ends_example =
    spy_loop-ends defaults world quick (some (record { sec = 4; nsec = 0 })) 6 0 5 at_start
      (omega arith) (inr late) (λ c. ground arith)

chosen-dotted_example : chosen (dotted v84 ++ codes ".1") ≡ some v84
chosen-dotted_example = chosen-dotted v84 (codes ".1")

main_fork-HasSucceeded_example :
    (main_fork 1 (waited (wait_stopped 5) (some (exited 0))) ≡ 0)
    ↔ HasSucceeded 1 (waited (wait_stopped 5) (some (exited 0)))
main_fork-HasSucceeded_example =
    main_fork-HasSucceeded 1 (waited (wait_stopped 5) (some (exited 0)))

abbrev setup : Setup
setup = record {
  env = env_with (record three { phpv = codes "74" });
  arch = x86_64;
  shells = shells;
  popen = λ cmd. none;
  pid = pos 7;
  now = record { sec = 0; nsec = 0 };
  world = world;
  fuel = 3;
}

main_pid-IsClosed_example : IsClosed [] (main_pid setup at_start)
main_pid-IsClosed_example = main_pid-IsClosed setup at_start
