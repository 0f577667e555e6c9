-- ===== src/Trace/Run.antt =====
-- One trace of a process: `do_trace` and `should_stop_trace`.
use phpspy.Prelude.{ℕ, ltb, if◌then◌else◌, Bool, not, ◌&&◌, ◌||◌, length}
use phpspy.Options.{Options}
use phpspy.Status.{Status, ok, is_ok, ◌⊔◌}
use phpspy.Event.{stack_begin, stack_end}
use phpspy.Zend.Remote.{done, fail, stuck, copy_proc_mem, field}
use phpspy.Trace.{Env, Action, ◌>>=◌, ◌>>◌, return, read, send}
use phpspy.Trace.Stack.{trace_stack}
use phpspy.Trace.Info.{trace_request_info, trace_memory_info, trace_globals}

unfoldable pub should_stop_trace : Options → Status → Bool
should_stop_trace o rv = rv.pid_dead || rv.truncated || (not (is_ok rv) && not o.continue_on_error)

-- The status that a function returns.
abbrev pub status_of : {A : Type 0} → Action A → Action Status
status_of m s =
    let (r, s') = m s in (elim r [ done a ↦ done ok | fail rv ↦ done rv | stuck ↦ stuck ], s')

-- One optional part of a trace: `rv |= m`, unless it has stopped. The Boolean says whether the
-- trace goes on.
unfoldable pub part : Env → Bool → Action (Unit {0}) → Bool × Status → Action (Bool × Status)
unfolding should_stop_trace
part e wanted m (go, rv) =
    let run : Action (Bool × Status) =
      (status_of m >>= λ rv'. return (not (should_stop_trace e.options (rv ⊔ rv')), rv ⊔ rv')) in
    if go && wanted then run else return (go, rv)

-- From `trace_stack` to the label `do_trace_end`: the status of all that has been run.
unfoldable pub trace_parts : Env → ℕ → Action Status
unfolding trace_stack part should_stop_trace trace_request_info trace_memory_info trace_globals
trace_parts e current = do
  traced ← trace_stack e current
  let go = not (should_stop_trace e.options traced.0) && not (ltb traced.1 1)
  p ← part e e.options.capture_req (trace_request_info e) (go, traced.0)
  q ← part e e.options.capture_mem (trace_memory_info e) p
  r ← part e (ltb 0 (length e.glopeek_map)) (trace_globals e) q
  return r.1

-- What follows the label. `try` writes the status of the handler over `rv`.
unfoldable pub end_trace : Env → Status → Action Status
unfolding send
end_trace e rv =
    let sent : Action Status = send e stack_end >> return ok in
    if is_ok rv || e.options.continue_on_error then sent else return rv

abbrev pub begin_trace : Env → Action ℕ
begin_trace e = do
  let t = e.target
  globals ← read (copy_proc_mem t t.executor_globals_addr t.layout.executor_size)
  send e stack_begin
  return (field t.layout.executor_current 8 globals)

-- `do_trace`: the status that it returns, by `try` or at its end.
unfoldable pub do_trace : Env → Action Status
unfolding copy_proc_mem field send trace_parts end_trace
do_trace e s =
    let (r, s') = (begin_trace e >>= λ current. (trace_parts e current >>= end_trace e)) s in
    (elim r [ done rv ↦ done rv | fail rv ↦ done rv | stuck ↦ stuck ], s')
