-- ===== src/Trace/Protocol.antt =====
-- The order of the events that an event handler gets, whatever the process and the handler do.
use phpspy.Prelude.{
  ℕ, ◌≡◌, ◌⊎◌, inl, inr, if◌then◌else◌, Bool, true, false, ◌&&◌, ◌||◌, not, ltb, length, Option,
  none, some, List, [], ◌∷◌, ◌++◌, Option-cases, arith,
}
use phpspy.Status.{Status, ok, is_ok}
use phpspy.Event.{
  Event, init, stack_begin, stack_end, deinit, frame, varpeek, glopeek, request, mem,
}
use phpspy.Zend.Remote.{Read, Outcome, done, fail, stuck}
use phpspy.Trace.{Env, Context, Action, ◌>>=◌, return, read, send}
use phpspy.Trace.Run.{
  status_of, should_stop_trace, part, trace_parts, end_trace, begin_trace, do_trace,
}
use phpspy.Trace.Keeps.{Keeps, IsOpen, Keeps-return, Keeps-if, Keeps-bind}
use phpspy.Trace.Content.{
  Keeps-trace_stack, Keeps-trace_request_info, Keeps-trace_memory_info, Keeps-trace_globals,
}

-- What a handler has been told: nothing or DEINIT, INIT, or the beginning of a trace. A trace that
-- fails has no end.
pub data Phase : Type 0 where
  off on in_trace : Phase

abbrev pub step : Phase → Event → Option Phase
step off init = some on
step on stack_begin = some in_trace
step in_trace stack_begin = some in_trace
step in_trace stack_end = some on
step on deinit = some off
step in_trace deinit = some off
step in_trace (frame f) = some in_trace
step in_trace (varpeek v) = some in_trace
step in_trace (glopeek g) = some in_trace
step in_trace (request r) = some in_trace
step in_trace (mem m) = some in_trace
step p ev = none

-- The phase after some events, `none` if one of them was out of order.
unfoldable pub follows : Phase → List Event → Option Phase
follows p [] = some p
follows p (ev ∷ evs) = elim (step p ev) [ none ↦ none | some q ↦ follows q evs ]

pub follows-one :
    (p q : Phase) (es : List Event) (ev : Event)
    → follows p es ≡ some q
    → follows p (es ++ (ev ∷ [])) ≡ step q ev
unfolding follows
follows-one p q [] ev h = elim (Option-cases (step p ev)) [
  | inl e ↦ ground arith
  | inr (r, e) ↦ ground arith
]
follows-one p q (e ∷ es) ev h = elim (Option-cases (step p e)) [
  | inl out ↦ absurd (ground arith)
  | inr (r, e') ↦ ground (arith, follows-one r q es ev)
]

abbrev pub InTrace : List Event → Type 0
InTrace es = follows off es ≡ some in_trace

-- Between INIT and DEINIT.
abbrev pub IsReady : List Event → Type 0
IsReady es = (follows off es ≡ some on) ⊎ (follows off es ≡ some in_trace)

InTrace-IsOpen : IsOpen InTrace
InTrace-IsOpen es (frame f) h p = follows-one off in_trace es _ p
InTrace-IsOpen es (varpeek v) h p = follows-one off in_trace es _ p
InTrace-IsOpen es (glopeek g) h p = follows-one off in_trace es _ p
InTrace-IsOpen es (request r) h p = follows-one off in_trace es _ p
InTrace-IsOpen es (mem m) h p = follows-one off in_trace es _ p
InTrace-IsOpen es init h p = absurd (cc)
InTrace-IsOpen es stack_begin h p = absurd (cc)
InTrace-IsOpen es stack_end h p = absurd (cc)
InTrace-IsOpen es deinit h p = absurd (cc)

-- What an action of a trace comes to: `Q` where it is done, and in any case a phase after INIT.
abbrev Arrives : {A : Type 0} → (List Event → Type 0) → Outcome A → List Event → Type 0
Arrives Q (done a) es = Q es
Arrives Q (fail rv) es = IsReady es
Arrives Q stuck es = IsReady es

at_rest : {A : Type 0} (r : Outcome A) (es : List Event) → IsReady es → Arrives IsReady r es
at_rest (done a) es h = h
at_rest (fail rv) es h = h
at_rest stuck es h = h

record Leads {A : Type 0} (P Q : List Event → Type 0) (m : Action A) : Type 0 where
  leads : (s : Context) → P s.events → Arrives Q (m s).0 (m s).1.events

arrives : {A : Type 0} (r : Outcome A) (es : List Event) → InTrace es → Arrives InTrace r es
arrives (done a) es h = h
arrives (fail rv) es h = inr h
arrives stuck es h = inr h

Leads-kept : {A : Type 0} {m : Action A} → Keeps InTrace m → Leads InTrace InTrace m
Leads-kept {m = m} k = record { leads = λ s h. arrives (m s).0 _ (k.kept s h) }

goes_on :
    {A B : Type 0} (Q R : List Event → Type 0) (f : A → Action B) (r : Outcome A) (s : Context)
    → ((a : A) → Leads Q R (f a))
    → Arrives Q r s.events
    → (let t = ((λ u. (r, s)) >>= f) s in Arrives R t.0 t.1.events)
unfolding ◌>>=◌
goes_on Q R f (done a) s h p = (h a).leads s p
goes_on Q R f (fail rv) s h p = p
goes_on Q R f stuck s h p = p

Leads-bind :
    {A B : Type 0} {m : Action A} {f : A → Action B} (P Q R : List Event → Type 0)
    → Leads P Q m
    → ((a : A) → Leads Q R (f a))
    → Leads P R (m >>= f)
unfolding ◌>>=◌
Leads-bind {m = m} {f = f} P Q R h h' = record {
  leads = λ s p. goes_on Q R f (m s).0 (m s).1 h' (h.leads s p);
}

Leads-read : {A : Type 0} (m : Read A) → Leads IsReady IsReady (read m)
unfolding read
Leads-read m = record { leads = λ s h. at_rest (m s.reads).0 _ h }

stack_begin_lem : (es : List Event) → IsReady es → InTrace (es ++ (stack_begin ∷ []))
stack_begin_lem es (inl h) = follows-one off on es stack_begin h
stack_begin_lem es (inr h) = follows-one off in_trace es stack_begin h

Leads-begin : (e : Env) → Leads IsReady InTrace (send e stack_begin)
unfolding send
Leads-begin e = record { leads = λ s h. arrives _ _ (stack_begin_lem s.events h) }

Leads-end : (e : Env) → Leads InTrace IsReady (send e stack_end)
unfolding send
Leads-end e = record {
  leads = λ s h. at_rest _ _ (inl (follows-one off in_trace s.events stack_end h));
}

Keeps-status : (m : Action (Unit {0})) → Keeps InTrace m → Keeps InTrace (status_of m)
Keeps-status m k = record { kept = λ s h. k.kept s h }

Keeps-part :
    (e : Env) (wanted : Bool) (m : Action (Unit {0})) (p : Bool × Status)
    → Keeps InTrace m
    → Keeps InTrace (part e wanted m p)
unfolding part
Keeps-part e wanted m (go, rv) k =
    Keeps-if (go && wanted) (Keeps-bind (Keeps-status m k) (λ rv'. Keeps-return _)) (Keeps-return _)

Keeps-trace_parts : (e : Env) (current : ℕ) → Keeps InTrace (trace_parts e current)
unfolding trace_parts
Keeps-trace_parts e current = Keeps-bind (Keeps-trace_stack InTrace-IsOpen e current) (λ traced.
    Keeps-bind
      (Keeps-part e e.options.capture_req _
        (not (should_stop_trace e.options traced.0) && not (ltb traced.1 1), traced.0)
        (Keeps-trace_request_info InTrace-IsOpen e))
      (λ p.
        Keeps-bind
          (Keeps-part e e.options.capture_mem _ p (Keeps-trace_memory_info InTrace-IsOpen e))
          (λ q.
            Keeps-bind
              (Keeps-part e (ltb 0 (length e.glopeek_map)) _ q
                (Keeps-trace_globals InTrace-IsOpen e))
              (λ r. Keeps-return _))))

Leads-if :
    {A : Type 0} {P Q : List Event → Type 0} (b : Bool) {m n : Action A}
    → Leads P Q m
    → Leads P Q n
    → Leads P Q (if b then m else n)
Leads-if true h h' = h
Leads-if false h h' = h'

Leads-return : {A : Type 0} (P : List Event → Type 0) (a : A) → Leads P P (return a)
unfolding return
Leads-return P a = record { leads = λ s h. h }

Leads-left : {A : Type 0} (a : A) → Leads InTrace IsReady (return a)
unfolding return
Leads-left a = record { leads = λ s h. inr h }

Leads-end_trace : (e : Env) (rv : Status) → Leads InTrace IsReady (end_trace e rv)
unfolding end_trace
Leads-end_trace e rv =
    Leads-if (is_ok rv || e.options.continue_on_error)
      (Leads-bind InTrace IsReady IsReady (Leads-end e) (λ u. Leads-return IsReady ok))
      (Leads-left rv)

Leads-begin_trace : (e : Env) → Leads IsReady InTrace (begin_trace e)
Leads-begin_trace e =
    Leads-bind IsReady IsReady InTrace (Leads-read _)
      (λ globals. Leads-bind IsReady InTrace InTrace (Leads-begin e) (λ u. Leads-return InTrace _))

arrived : {A : Type 0} (r : Outcome A) (es : List Event) → Arrives IsReady r es → IsReady es
arrived (done a) es h = h
arrived (fail rv) es h = h
arrived stuck es h = h

-- A trace keeps the order of the events: one that starts between INIT and DEINIT sends the beginning
-- of a trace, its content and the end of the trace, and leaves the last of these out if it fails.
pub do_trace-IsReady : (e : Env) (s : Context) → IsReady s.events → IsReady (do_trace e s).1.events
unfolding do_trace
do_trace-IsReady e s h =
    let whole = Leads-bind IsReady InTrace IsReady (Leads-begin_trace e) (λ current.
      Leads-bind InTrace InTrace IsReady (Leads-kept (Keeps-trace_parts e current))
        (λ rv. Leads-end_trace e rv)) in
    arrived _ _ (whole.leads s h)
