-- ===== src/Trace/Keeps.antt =====
-- What the parts of a trace send: events of its content only.
use phpspy.Prelude.{◌≡◌, if◌then◌else◌, Bool, true, false, List, [], ◌∷◌, ◌++◌}
use phpspy.Event.{
  Event, init, stack_begin, stack_end, deinit, frame, varpeek, glopeek, request, mem,
}
use phpspy.Status.{Status}
use phpspy.Zend.Remote.{Outcome, done, fail, stuck, Read}
use phpspy.Trace.{Env, Context, Action, ◌>>=◌, return, raise, read, ignore, send}

-- The events that a trace is made of.
abbrev pub is_content : Event → Bool
is_content (frame f) = true
is_content (varpeek v) = true
is_content (glopeek g) = true
is_content (request r) = true
is_content (mem m) = true
is_content init = false
is_content stack_begin = false
is_content stack_end = false
is_content deinit = false

-- The action keeps what holds of the events that have been sent.
pub record Keeps {A : Type 0} (P : List Event → Type 0) (m : Action A) : Type 0 where
  pub kept : (s : Context) → P s.events → P (m s).1.events

-- What any content keeps.
abbrev pub IsOpen : (List Event → Type 0) → Type 0
IsOpen P = (es : List Event) (ev : Event) → is_content ev ≡ true → P es → P (es ++ (ev ∷ []))

quietly :
    {A : Type 0} (P : List Event → Type 0) (r : Outcome A) (s : Context)
    → P s.events
    → P (ignore (λ t. (r, s)) s).1.events
unfolding ignore
quietly P (done a) s p = p
quietly P (fail rv) s p = p
quietly P stuck s p = p

module _ {P : List Event → Type 0} where
  pub Keeps-return : {A : Type 0} (a : A) → Keeps P (return a)
  unfolding return
  Keeps-return a = record { kept = λ s h. h }

  pub Keeps-raise : (A : Type 0) (rv : Status) → Keeps P (raise {A = A} rv)
  unfolding raise
  Keeps-raise A rv = record { kept = λ s h. h }

  pub Keeps-read : {A : Type 0} (m : Read A) → Keeps P (read m)
  unfolding read
  Keeps-read m = record { kept = λ s h. h }

  pub Keeps-if :
      {A : Type 0} (b : Bool) {m n : Action A}
      → Keeps P m
      → Keeps P n
      → Keeps P (if b then m else n)
  Keeps-if true h h' = h
  Keeps-if false h h' = h'

  after :
      {A B : Type 0} (f : A → Action B) (r : Outcome A) (s : Context)
      → ((a : A) → Keeps P (f a))
      → P s.events
      → P (((λ t. (r, s)) >>= f) s).1.events
  unfolding ◌>>=◌
  after f (done a) s h p = (h a).kept s p
  after f (fail rv) s h p = p
  after f stuck s h p = p

  pub Keeps-bind :
      {A B : Type 0} {m : Action A} {f : A → Action B}
      → Keeps P m
      → ((a : A) → Keeps P (f a))
      → Keeps P (m >>= f)
  unfolding ◌>>=◌
  Keeps-bind {m = m} {f = f} h h' = record { kept = λ s p. after f (m s).0 (m s).1 h' (h.kept s p) }

  pub Keeps-ignore : {A : Type 0} {m : Action A} → Keeps P m → Keeps P (ignore m)
  unfolding ignore
  Keeps-ignore {m = m} h = record { kept = λ s p. quietly P (m s).0 (m s).1 (h.kept s p) }

module _ {P : List Event → Type 0} (open_ : IsOpen P) (e : Env) where
  pub Keeps-send : (ev : Event) → is_content ev ≡ true → Keeps P (send e ev)
  unfolding send
  Keeps-send ev h = record { kept = λ s p. open_ s.events ev h p }
