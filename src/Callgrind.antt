-- ===== src/Callgrind.antt =====
-- event_callgrind.c, the handler that adds the traces up into call costs.
-- `Digest` relates the costs to the stacks that have been seen.
use phpspy.Prelude.{
  ℕ, zero, suc, ◌+◌, ◌-◌, ◌*◌, ◌/◌, ◌%◌, ◌^◌, ◌≤◌, ◌<◌, ◌≡◌, ◌≢◌, ◌↔◌, ◌⊎◌, inl, inr, refl, sym, ap,
  ◌∙◌, ltb, leb, ◌==◌, if◌then◌else◌, Bool, true, false, not, ◌&&◌, ◌||◌, Option, none, some, List,
  dec_lt, ℕ_discrete, [], ◌∷◌, ◌++◌, map, arith, length, take, drop, get_elem?, set, get_or,
  replicate, length-replicate, Bool-cases, Option-cases, length-append, length-take, length-drop,
  length-map, length-set, take-append-drop, All, All-append, ltb→lt, lt→ltb, leb→le, ==_iff,
}
use phpspy.Prelude.Text.{Text, codes, text_eq, decimal, decimal_ℤ, snprintf}
use phpspy.Prelude.Uthash.{Uthash}
use phpspy.Event.{
  Loc, Frame, Event, init, stack_begin, stack_end, deinit, frame, varpeek, glopeek, request, mem,
}
use phpspy.Fout.Events.{sprint_loc}
pub mod Tests
pub mod Digest
pub mod Dump
pub mod Runs
pub mod Open

abbrev pub max_stack_depth : ℕ
max_stack_depth = 128

-- PHPSPY_STR_SIZE
abbrev pub str_size : ℕ
str_size = 256

-- `uint64_t` counters
abbrev pub inc : ℕ → ℕ
inc n = (n + 1) % 2 ^ 64

-- `callgrind_callee_t`; its `loc_str` is its key.
pub record Callee : Type 0 where
  pub loc : Loc
  pub inclusive : ℕ
  pub count : ℕ

-- A frame in `self`: its `loc_str` and its location.
pub record Entry : Type 0 where
  pub loc_str : Text
  pub loc : Loc

-- `callgrind_sprint_loc`
unfoldable pub callgrind_sprint_loc : Loc → Text
callgrind_sprint_loc l = snprintf str_size (sprint_loc l)

-- `callgrind_ingest_frame`. The list is `self` and `self_str` up to `self_len`.
unfoldable pub ingest_frame : List Entry → Loc → List Entry
ingest_frame self l =
    if leb max_stack_depth (length self)
    then self
    else self ++ (record { loc_str = callgrind_sprint_loc l; loc = l } ∷ [])

module _ (h : Uthash) where
  open h use {Table, empty, find, put}

  -- `callgrind_caller_t`
  pub record Caller : Type 0 where
    pub loc : Loc
    pub exclusive : ℕ
    pub callees : Table Callee

  -- `callgrind_udata_t`, without its output file
  pub record Udata : Type 0 where
    pub self : List Entry
    pub prev_str : List Text
    pub callers : Table Caller

  -- Find or add the caller.
  unfoldable pub get_caller : Entry → Table Caller → Caller
  get_caller e callers = elim (find Caller e.loc_str callers) [
    | none ↦ record { loc = e.loc; exclusive = 0; callees = empty Callee }
    | some c ↦ c
  ]

  -- Find or add the callee.
  unfoldable pub get_callee : Entry → Table Callee → Callee
  get_callee e callees = elim (find Callee e.loc_str callees) [
    | none ↦ record { loc = e.loc; inclusive = 0; count = 0 }
    | some c ↦ c
  ]

  -- Whether the frame at index `i` looks different from the one in the previous trace.
  unfoldable pub is_changed : List Text → ℕ → Text → Bool
  is_changed prev_str i s = elim (get_elem? prev_str i) [ none ↦ true | some t ↦ not (text_eq s t) ]

  -- What a call costs the callee.
  unfoldable pub charge : List Text → ℕ → Entry → Callee → Callee
  charge prev_str i e c = record c {
    inclusive = inc c.inclusive;
    count = if is_changed prev_str i e.loc_str then inc c.count else c.count;
  }

  -- The write through `prev_caller`, the caller whose key is `outer`.
  unfoldable pub charge_caller : List Text → ℕ → Entry → Entry → Table Caller → Table Caller
  charge_caller prev_str i outer e callers =
      let c = get_caller outer callers in
      put Caller outer.loc_str
        (record c {
          callees = put Callee e.loc_str (charge prev_str i e (get_callee e c.callees)) c.callees;
        })
        callers

  -- The round of the loop at index `i`. `prev` is the frame of `prev_caller`, the one outside it.
  unfoldable pub digest_frame : List Text → ℕ → Option Entry → Entry → Table Caller → Table Caller
  digest_frame prev_str i prev e callers =
      let c = get_caller e callers in
      let added =
        put Caller e.loc_str
          (record c { exclusive = if i == 0 then inc c.exclusive else c.exclusive }) callers in
      elim prev [ none ↦ added | some outer ↦ charge_caller prev_str i outer e added ]

  -- The loop goes from the outermost frame, which is the last, to index 0: what is called on the
  -- frames behind `i` comes first.
  unfoldable pub digest_from : List Text → ℕ → List Entry → Table Caller → Table Caller
  digest_from prev_str i [] callers = callers
  digest_from prev_str i (e ∷ []) callers = digest_frame prev_str i none e callers
  digest_from prev_str i (e ∷ outer ∷ es) callers =
      digest_frame prev_str i (some outer) e (digest_from prev_str (i + 1) (outer ∷ es) callers)

  unfoldable pub digest_stack : Udata → Table Caller
  digest_stack u = digest_from u.prev_str 0 u.self u.callers

  abbrev loc_strs : List Entry → List Text
  loc_strs [] = []
  loc_strs (e ∷ es) = e.loc_str ∷ loc_strs es

  -- The handler. `true` is a return of 0; `opened` says whether `callgrind_open` finds its file.
  -- DEINIT writes the costs out and frees the udata.
  unfoldable pub event_handler_callgrind : Bool → Option Udata → Event → Bool × Option Udata
  event_handler_callgrind opened ud init =
      if opened
      then (true, some (record { self = []; prev_str = []; callers = empty Caller }))
      else (false, ud)
  event_handler_callgrind opened none ev = (false, none)
  event_handler_callgrind opened (some u) stack_begin = (true, some (record u { self = [] }))
  event_handler_callgrind opened (some u) (frame f) =
      (true, some (record u { self = ingest_frame u.self f.loc }))
  event_handler_callgrind opened (some u) stack_end =
      (true, some (record { self = []; prev_str = loc_strs u.self; callers = digest_stack u }))
  event_handler_callgrind opened (some u) deinit = (true, none)
  event_handler_callgrind opened (some u) ev = (true, some u)
