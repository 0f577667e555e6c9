-- ===== src/Trace.antt =====
-- phpspy_trace.c: the context of a trace, and the actions that read the process and send events.
-- `Peek` has the local variables and the PDO calls, `Stack` the frames, `Info` the request, the
-- memory and the global variables, and `Run` the whole trace.
pub mod Peek
pub mod Stack
pub mod Info
pub mod Run
pub mod Emits
pub mod Depths
pub mod Plan
pub mod Chain
pub mod Elision
pub mod Tries
pub mod Walk
pub mod Keeps
pub mod Peeked
pub mod Content
pub mod Protocol
pub mod Tests
use phpspy.Prelude.{
  ℕ, zero, suc, ◌+◌, ◌-◌, ◌*◌, ◌/◌, ◌%◌, ◌^◌, ◌≤◌, ◌<◌, ◌≡◌, ◌≢◌, ◌↔◌, ◌⊎◌, inl, inr, refl, sym, ap,
  ◌∙◌, ltb, leb, ◌==◌, if◌then◌else◌, Bool, true, false, not, ◌&&◌, ◌||◌, Option, none, some, List,
  dec_lt, ℕ_discrete, [], ◌∷◌, ◌++◌, map, arith, length, take, drop, get_elem?, set, get_or,
  replicate, length-replicate, Bool-cases, Option-cases, length-append, length-take, length-drop,
  length-map, length-set, take-append-drop, All, All-append, ltb→lt, lt→ltb, leb→le, ==_iff,
}
use phpspy.Prelude.Text.{Text, codes, text_eq, decimal, decimal_ℤ, snprintf}
use phpspy.Options.{Options}
use phpspy.Status.{Status, ok, is_ok}
use phpspy.Event.{Event}
use phpspy.Zend.Remote.{Target, Outcome, done, fail, stuck, Read}

-- `varpeek_entry`: the lines of one position, with the names to look for.
pub record VarpeekEntry : Type 0 where
  pub filename_lineno : Text
  pub varmap : List Text

-- `glopeek_entry`
pub record GlopeekEntry : Type 0 where
  pub key : Text
  pub gloname : Text
  pub varname : Text

-- What a trace runs with: the process, the options, the variables to peek at, the event handler
-- (whose answer may depend on the events that it has had before), and how deep arrays nest and how
-- long the chains of a hash are.
pub record Env : Type 0 where
  pub target : Target
  pub options : Options
  pub varpeek_map : List VarpeekEntry
  pub glopeek_map : List GlopeekEntry
  pub handler : List Event → Event → Status
  pub depth : ℕ

-- How many reads there were, and the events that have been sent, the oldest first.
pub record Context : Type 0 where
  pub reads : ℕ
  pub events : List Event

abbrev pub Action : Type 0 → Type 0
Action A = Context → Outcome A × Context

-- `try`
infixl 5 ◌>>=◌ ◌>>◌
unfoldable pub ◌>>=◌ : {A B : Type 0} → Action A → (A → Action B) → Action B
(m >>= f) s =
    let (r, s') = m s in elim r [ done a ↦ f a s' | fail rv ↦ (fail rv, s') | stuck ↦ (stuck, s') ]

abbrev pub ◌>>◌ : {A B : Type 0} → Action A → Action B → Action B
m >> k = m >>= λ a. k

unfoldable pub return : {A : Type 0} → A → Action A
return a s = (done a, s)

unfoldable pub raise : {A : Type 0} → Status → Action A
raise rv s = (fail rv, s)

unfoldable pub read : {A : Type 0} → Read A → Action A
read m s = let (r, k) = m s.reads in (r, record s { reads = k })

-- A call whose status is not looked at.
unfoldable pub ignore : {A : Type 0} → Action A → Action (Unit {0})
ignore m s =
    let (r, s') = m s in
    elim r [ done a ↦ (done tt, s') | fail rv ↦ (done tt, s') | stuck ↦ (stuck, s') ]

-- `try(rv, context->event_handler(context, …))`
unfoldable pub send : Env → Event → Action (Unit {0})
send e ev s =
    let rv = e.handler s.events ev in
    (if is_ok rv then done tt else fail rv, record s { events = s.events ++ (ev ∷ []) })

-- PHPSPY_STR_SIZE
abbrev pub str_size : ℕ
str_size = 256
