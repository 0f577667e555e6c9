-- ===== src/Spy/Start.antt =====
-- `find_addresses` and `main_pid` as a whole.
use phpspy.Prelude.{
  ℕ, ◌+◌, leb, ltb, if◌then◌else◌, ◌≡◌, ◌⊎◌, inl, inr, refl, Bool-cases, Bool, true, false, ◌&&◌,
  Option, none, some, List, [], ◌∷◌, ◌++◌,
}
use phpspy.Prelude.Text.{Text, codes}
use phpspy.Prelude.Int.{ℤ}
use mathlib.Core.Option
use phpspy.Options.{Options}
use phpspy.Status.{Status, ok, err, is_ok}
use phpspy.Event.{Event, init, deinit}
use phpspy.Clock.{Timespec, stop_time}
use phpspy.Zend.Remote.{Target}
use phpspy.Zend.Versions.{Version, Arch, layout}
use phpspy.Symbols.{Shells, Looks, ◌>>=◌, return, no_memo, get_symbol_addr}
use phpspy.Trace.{Env, Context}
use phpspy.Trace.Run.{do_trace}
use phpspy.Spy.{World, Spy, Left, has_left}
use phpspy.Spy.Loop.{spy_loop, seen_count}
use phpspy.Spy.Versions.{choose_tracer}

-- The addresses of `trace_target`.
pub record Addresses : Type 0 where
  pub executor_globals : ℕ
  pub sapi_globals : ℕ
  pub alloc_globals : ℕ
  pub basic_functions_module : ℕ

-- An address that is given, or else looked up if it is wanted, or else 0.
unfoldable pub address : Options → Shells → ℤ → ℕ → Bool → Text → Looks ℕ
address o sh pid given_addr wanted symbol =
    if ltb 0 given_addr
    then return given_addr
    else if wanted
    then get_symbol_addr o sh pid symbol
    else return 0

-- The last lookup is quiet, and may fail.
unfoldable pub find_module : Options → Shells → ℤ → Looks ℕ
find_module o sh pid s =
    let (found, t) =
      get_symbol_addr (record o { quiet = o.quiet + 1 }) sh pid (codes "basic_functions_module")
        s in
    (elim found [ none ↦ some 0 | some addr ↦ some addr ], t)

unfoldable pub find_addresses : Options → Shells → ℤ → Looks Addresses
find_addresses o sh pid = do
  executor ← address o sh pid o.executor_globals_addr true (codes "executor_globals")
  sapi ← address o sh pid o.sapi_globals_addr o.capture_req (codes "sapi_globals")
  alloc ← address o sh pid 0 o.capture_mem (codes "alloc_globals")
  basic ← find_module o sh pid
  return (record {
    executor_globals = executor;
    sapi_globals = sapi;
    alloc_globals = alloc;
    basic_functions_module = basic;
  })

-- What main_pid runs with besides the options: the process before its addresses are known, the
-- programs, what a command prints, the clock before the loop, and the number of rounds after which
-- `done` is set at the latest.
pub record Setup : Type 0 where
  pub env : Env
  pub arch : Arch
  pub shells : Shells
  pub popen : Text → Option Text
  pub pid : ℤ
  pub now : Timespec
  pub world : World
  pub fuel : ℕ

-- The target with its addresses and the layout of a version.
abbrev pub target_with : Target → Addresses → Version → Arch → Target
target_with t a v arch = record t {
  layout = layout v arch;
  executor_globals_addr = a.executor_globals;
  sapi_globals_addr = a.sapi_globals;
  alloc_globals_addr = a.alloc_globals;
}

-- `stop_time`, or NULL.
unfoldable pub stop_after : Options → World → Timespec → Option Timespec
stop_after o w now =
    if w.in_pgrep_mode then none else if ltb 0 o.time_limit_ms then some (stop_time o now) else none

-- How main_pid ends: its status, `none` if it does not return, why the loop was left if it was reached, the state, and whether
-- `write_done_pipe` has been called.
pub record Ended : Type 0 where
  pub status : Option Status
  pub left : Option Left
  pub spy : Spy
  pub wrote_done : Bool

-- An event of main_pid itself.
abbrev pub notify : Env → Context → Status × Context
notify e c = (e.handler c.events init, record c { events = c.events ++ (init ∷ []) })

-- From the loop to the end.
unfoldable pub run_loop : Setup → Env → Spy → Ended
run_loop u e s =
    let o = e.options in
    let (left, t) = spy_loop o u.world (do_trace e) (stop_after o u.world u.now) u.fuel 0 s in
    let full = ltb 0 o.trace_limit && leb o.trace_limit (seen_count u.world u.fuel t.trace_count) in
    let closed = t.context.events ++ (deinit ∷ []) in
    if has_left left
    then record {
      status = some ok;
      left = some left;
      spy = record t { context = record t.context { events = closed } };
      wrote_done = u.world.in_pgrep_mode && full;
    }
    else record { status = none; left = some left; spy = t; wrote_done = false }

abbrev pub gave_up : Status → Spy → Ended
gave_up rv s = record { status = some rv; left = none; spy = s; wrote_done = false }

-- What follows the choice of the tracer, the INIT event and the lookup of the addresses.
unfoldable pub with_tracer : Setup → Addresses → Spy → Option Version → Ended
with_tracer u a s none = gave_up err s
with_tracer u a s (some v) =
    run_loop u (record u.env { target = target_with u.env.target a v u.arch }) s

unfoldable pub after_init : Setup → Addresses → Spy → Status → Ended
unfolding choose_tracer
after_init u a s rv =
    if is_ok rv
    then with_tracer u a s (
        choose_tracer u.env.options u.popen u.env.target u.pid a.basic_functions_module
          s.context.reads)
    else gave_up rv s

unfoldable pub with_addresses : Setup → Spy → Option Addresses → Ended
with_addresses u s none = gave_up err s
with_addresses u s (some a) =
    let (rv, c) = notify u.env s.context in after_init u a (record s { context = c }) rv

unfoldable pub main_pid : Setup → Spy → Ended
unfolding find_addresses
main_pid u s =
    with_addresses u s
      (find_addresses u.env.options u.shells u.pid (record { memo = no_memo; commands = [] })).0

-- The events behind the loop: DEINIT is the last one, if it has been left.
abbrev pub ClosesLoop : Bool → List Event → Type 0
ClosesLoop true new = (es : List Event) × (new ≡ es ++ (deinit ∷ []))
ClosesLoop false new = Unit

-- The events at the end: without the loop, those before with INIT at most.
abbrev pub Closes : List Event → Option Left → List Event → Type 0
Closes old none new = (new ≡ old) ⊎ (new ≡ old ++ (init ∷ []))
Closes old (some l) new = ClosesLoop (has_left l) new

-- Whether `main_pid` returns PHPSPY_OK, where it returns.
abbrev pub fine_at : Option Left → Option Bool
fine_at none = some false
fine_at (some l) = if has_left l then some true else none

pub record IsClosed (old : List Event) (r : Ended) : Type 0 where
  pub closes : Closes old r.left r.spy.context.events
  pub status_lem : Option.map is_ok r.status ≡ fine_at r.left

run_loop-IsClosed :
    (old : List Event) (u : Setup) (e : Env) (s : Spy) → IsClosed old (run_loop u e s)
unfolding run_loop
run_loop-IsClosed old u e s =
    let o = e.options in
    let end = spy_loop o u.world (do_trace e) (stop_after o u.world u.now) u.fuel 0 s in
    elim (Bool-cases (has_left end.0)) [
      | inl over ↦ rw over (record { closes = rw over (_, refl); status_lem = rw over refl })
      | inr on ↦ rw on (record { closes = rw on tt; status_lem = rw on refl })
    ]

with_tracer-IsClosed :
    (old : List Event) (u : Setup) (a : Addresses) (s : Spy) (v : Option Version)
    → s.context.events ≡ old ++ (init ∷ [])
    → IsClosed old (with_tracer u a s v)
unfolding with_tracer
with_tracer-IsClosed old u a s none e = record { closes = inr e; status_lem = refl }
with_tracer-IsClosed old u a s (some v) e = run_loop-IsClosed old u _ s

after_init-IsClosed :
    (old : List Event) (u : Setup) (a : Addresses) (s : Spy) (rv : Status)
    → s.context.events ≡ old ++ (init ∷ [])
    → IsClosed old (after_init u a s rv)
unfolding after_init
after_init-IsClosed old u a s rv e = elim (Bool-cases (is_ok rv)) [
  | inl good ↦ rw good (with_tracer-IsClosed old u a s _ e)
  | inr bad ↦ rw bad (record { closes = inr e; status_lem = rw bad refl })
]

with_addresses-IsClosed :
    (u : Setup) (s : Spy) (a : Option Addresses) → IsClosed s.context.events (with_addresses u s a)
unfolding with_addresses
with_addresses-IsClosed u s none = record { closes = inl refl; status_lem = refl }
with_addresses-IsClosed u s (some a) =
    after_init-IsClosed s.context.events u a _ (notify u.env s.context).0 refl

-- `main_pid` returns PHPSPY_OK if and only if its loop has been left, and DEINIT is the last event
-- that it has sent then. It does not return if and only if its loop is not left; where it does not
-- reach the loop, it returns another status, and has sent INIT at most and no DEINIT.
pub main_pid-IsClosed : (u : Setup) (s : Spy) → IsClosed s.context.events (main_pid u s)
unfolding main_pid
main_pid-IsClosed u s = with_addresses-IsClosed u s _
