-- ===== src/Callgrind/Runs.antt =====
-- What `event_handler_callgrind` has added up after a run of the tracer, against the stacks that the
-- events describe.
use phpspy.Prelude.{
  ℕ, zero, suc, ◌+◌, ◌%◌, ◌^◌, ◌<◌, ◌≡◌, refl, ap, ◌∙◌, leb, if◌then◌else◌, Bool, true, false,
  Option, none, some, List, [], ◌∷◌, ◌++◌, All, arith, length, take, map,
}
use phpspy.Prelude.Text.{Text}
use phpspy.Prelude.Uthash.{Uthash}
use phpspy.Event.{
  Loc, Event, init, stack_begin, stack_end, deinit, frame, varpeek, glopeek, request, mem,
}
use phpspy.Callgrind.{
  max_stack_depth, callgrind_sprint_loc, ingest_frame, Entry, Caller, Udata, digest_stack,
  event_handler_callgrind,
}
use phpspy.Callgrind.Digest.{calls, on_top, exclusive_of, inclusive_of, digest_stack_lem}

-- The stacks that some events describe, each with its innermost frame first, and `cur` the frames
-- since the last beginning. A stack counts when its end is told.
unfoldable pub stacks_of : List Loc → List Event → List (List Loc)
stacks_of cur [] = []
stacks_of cur (stack_begin ∷ es) = stacks_of [] es
stacks_of cur (stack_end ∷ es) = cur ∷ stacks_of [] es
stacks_of cur (frame f ∷ es) = stacks_of (cur ++ (f.loc ∷ [])) es
stacks_of cur (ev ∷ es) = stacks_of cur es

-- The frames of a stack that count, under their names: the innermost 128.
abbrev pub entry_of : Loc → Entry
entry_of l = record { loc_str = callgrind_sprint_loc l; loc = l }

unfoldable pub entries : List Loc → List Entry
entries ls = map entry_of (take max_stack_depth ls)

-- In how many stacks `k` is innermost.
unfoldable pub all_on_top : Text → List (List Loc) → ℕ
all_on_top k [] = 0
all_on_top k (ls ∷ stacks) = on_top k (entries ls) + all_on_top k stacks

-- How often `k` calls `j` in all the stacks.
unfoldable pub all_calls : Text → Text → List (List Loc) → ℕ
all_calls k j [] = 0
all_calls k j (ls ∷ stacks) = calls k j (entries ls) + all_calls k j stacks

-- Whether an event is neither INIT nor DEINIT.
abbrev pub is_between : Event → Bool
is_between init = false
is_between deinit = false
is_between ev = true

-- There is room behind the first `n` frames when there are fewer.
push :
    (n : ℕ) (ls : List Loc) (l : Loc)
    → (if leb n (length (map entry_of (take n ls)))
        then map entry_of (take n ls)
        else map entry_of (take n ls) ++ (entry_of l ∷ []))
      ≡ map entry_of (take n (ls ++ (l ∷ [])))
push zero ls l = refl
push (suc zero) [] l = refl
push (suc (suc n)) [] l = ground arith
push (suc n) (m ∷ ls) l = ground (arith, push n ls l)

ingest_frame-entries :
    (ls : List Loc) (l : Loc) → ingest_frame (entries ls) l ≡ entries (ls ++ (l ∷ []))
unfolding ingest_frame entries
ingest_frame-entries ls l = push max_stack_depth ls l

entries-none : ◌≡◌ {A = List Entry} [] (entries [])
unfolding entries
entries-none = refl

module _ (h : Uthash) where
  -- The udata after some events.
  unfoldable pub handle_events : Bool → Option (Udata h) → List Event → Option (Udata h)
  handle_events opened ud [] = ud
  handle_events opened ud (ev ∷ es) =
      handle_events opened (event_handler_callgrind h opened ud ev).1 es

  -- The udata `u` is there, and its costs of `k` and of the calls of `j` by `k` are `n` and `m` more
  -- than those of the callers `t`.
  record Adds (k j : Text) (t : h.Table (Caller h)) (n m : ℕ) (ud : Option (Udata h)) : Type 0 where
    last : Udata h
    is_last : ud ≡ some last
    exclusive : exclusive_of h k last.callers ≡ (exclusive_of h k t + n) % 2 ^ 64
    inclusive : inclusive_of h k j last.callers ≡ (inclusive_of h k j t + m) % 2 ^ 64

  -- The costs of a stack, and of those after it.
  after_stack :
      (u : Udata h) (k j : Text) (n m n' m' : ℕ) (ud : Option (Udata h))
      → exclusive_of h k (digest_stack h u) ≡ (exclusive_of h k u.callers + n) % 2 ^ 64
      → inclusive_of h k j (digest_stack h u) ≡ (inclusive_of h k j u.callers + m) % 2 ^ 64
      → Adds k j (digest_stack h u) n' m' ud
      → Adds k j u.callers (n + n') (m + m') ud
  after_stack u k j n m n' m' ud digested digested' r = record {
    last = r.last;
    is_last = r.is_last;
    exclusive = omega (arith, r.exclusive, digested);
    inclusive = omega (arith, r.inclusive, digested');
  }

  handle_events-Adds :
      (opened : Bool) (u : Udata h) (cur : List Loc) (es : List Event) (k j : Text)
      → u.self ≡ entries cur
      → All (λ ev. is_between ev ≡ true) es
      → exclusive_of h k u.callers < 2 ^ 64
      → inclusive_of h k j u.callers < 2 ^ 64
      → Adds k j u.callers
          (all_on_top k (stacks_of cur es))
          (all_calls k j (stacks_of cur es))
          (handle_events opened (some u) es)
  unfolding handle_events event_handler_callgrind stacks_of all_on_top all_calls
  handle_events-Adds opened u cur [] k j self all low low' = record {
    last = u;
    is_last = refl;
    exclusive = omega arith;
    inclusive = omega arith;
  }
  handle_events-Adds opened u cur (stack_begin ∷ es) k j self all low low' =
      handle_events-Adds opened (record u { self = [] }) [] es k j entries-none all.1 low low'
  handle_events-Adds opened u cur (stack_end ∷ es) k j self all low low' =
      let digested = digest_stack_lem h u k j low low' in
      after_stack u k j (on_top k (entries cur)) (calls k j (entries cur))
        (all_on_top k (stacks_of [] es)) (all_calls k j (stacks_of [] es)) _
        (digested.0 ∙ ap (λ s. (exclusive_of h k u.callers + on_top k s) % 2 ^ 64) self)
        (digested.1 ∙ ap (λ s. (inclusive_of h k j u.callers + calls k j s) % 2 ^ 64) self)
        (handle_events-Adds opened _ [] es k j entries-none all.1 (omega (arith, digested.0))
          (omega (arith, digested.1)))
  handle_events-Adds opened u cur (frame f ∷ es) k j self all low low' =
      handle_events-Adds opened (record u { self = ingest_frame u.self f.loc })
        (cur ++ (f.loc ∷ [])) es k j
        (ap (λ s. ingest_frame s f.loc) self ∙ ingest_frame-entries cur f.loc) all.1 low low'
  handle_events-Adds opened u cur (varpeek v ∷ es) k j self all low low' =
      handle_events-Adds opened u cur es k j self all.1 low low'
  handle_events-Adds opened u cur (glopeek g ∷ es) k j self all low low' =
      handle_events-Adds opened u cur es k j self all.1 low low'
  handle_events-Adds opened u cur (request r ∷ es) k j self all low low' =
      handle_events-Adds opened u cur es k j self all.1 low low'
  handle_events-Adds opened u cur (mem m ∷ es) k j self all low low' =
      handle_events-Adds opened u cur es k j self all.1 low low'
  handle_events-Adds opened u cur (init ∷ es) k j self all low low' = absurd (ground arith)
  handle_events-Adds opened u cur (deinit ∷ es) k j self all low low' = absurd (ground arith)

  exclusive_of-empty : (k : Text) → exclusive_of h k (h.empty (Caller h)) ≡ 0
  unfolding exclusive_of
  exclusive_of-empty k = ground (arith, h.find-empty (Caller h) k)

  inclusive_of-empty : (k j : Text) → inclusive_of h k j (h.empty (Caller h)) ≡ 0
  unfolding inclusive_of
  inclusive_of-empty k j = ground (arith, h.find-empty (Caller h) k)

  -- From INIT, where its file opens, whatever events follow but INIT and DEINIT, the handler keeps a
  -- udata in which the exclusive cost of each frame `k` is the number of the stacks that have it
  -- innermost, and the inclusive cost of the calls of each `j` by each `k` is how often `k` stands
  -- directly outside `j` in them, both modulo 2^64, where of each stack the innermost 128 frames
  -- count.
  pub handle_events_lem :
      (es : List Event) (k j : Text)
      → All (λ ev. is_between ev ≡ true) es
      → (u : Udata h) × (handle_events true none (init ∷ es) ≡ some u)
        × (exclusive_of h k u.callers ≡ all_on_top k (stacks_of [] es) % 2 ^ 64)
        × (inclusive_of h k j u.callers ≡ all_calls k j (stacks_of [] es) % 2 ^ 64)
  unfolding handle_events event_handler_callgrind
  handle_events_lem es k j all =
      let none_yet = exclusive_of-empty k in
      let none_yet' = inclusive_of-empty k j in
      let r =
        handle_events-Adds true (record { self = []; prev_str = []; callers = h.empty (Caller h) })
          [] es k j entries-none all (omega (arith, none_yet)) (omega (arith, none_yet')) in
      (
        r.last,
        r.is_last,
        omega (arith, none_yet, r.exclusive),
        omega (arith, none_yet', r.inclusive),
      )
