-- ===== src/Trace/Elision.antt =====
-- Which frames `trace_stack` sends when there is a limit from the root.
use phpspy.Prelude.{
  ℕ, ◌+◌, ◌^◌, ◌≤◌, ◌<◌, ◌≡◌, ◌⊎◌, inl, inr, refl, ap, ◌∙◌, leb, ltb, ◌==◌, sym, if◌then◌else◌,
  Bool, true, false, ◌&&◌, List, [], ◌∷◌, ◌++◌, arith, length,
}
use phpspy.Prelude.Text.{codes, decimal, decimal_ℤ}
use phpspy.Prelude.Int.{pos, negsuc, pos_part, ltb_ℤ}
use phpspy.Status.{Status}
use phpspy.Event.{Event, frame}
use phpspy.Zend.Remote.{Outcome, done, fail, stuck}
use phpspy.Trace.{Env, Context, Action, ◌>>=◌, ◌>>◌, return, send}
use phpspy.Trace.Stack.{
  max_stack_walk, stack_emit_frame, stack_collect, elided_frame, emit_kept, keep_range,
  trace_from_root,
}
use phpspy.Trace.Chain.{IsChain, IsBroken, IsCollected, stack_collect-IsCollected, IsChain-length}
use phpspy.Trace.Plan.{Item, shown, left_out, items, kept, keep_range-kept}

-- The frame that stands for `n` others.
abbrev pub stand_in : ℕ → ℕ → Event
stand_in n i = frame (record {
  loc = record {
    func = codes "<elided:" ++ (decimal n ++ (b'>' ∷ []));
    class = [];
    file = codes "<elided>";
    lineno = negsuc 0;
  };
  depth = i;
})

-- The frames one after the other, until one fails.
unfoldable pub emit_items : Env → List Item → Action (Unit {0})
emit_items e [] = return tt
emit_items e (shown p i ∷ rest) = stack_emit_frame e p i >> emit_items e rest
emit_items e (left_out n i ∷ rest) = send e (stand_in n i) >> emit_items e rest

bind_cong :
    {A B : Type 0} (m : Action A) (f g : A → Action B)
    → ((a : A) (s : Context) → f a s ≡ g a s)
    → (s : Context) → (m >>= f) s ≡ (m >>= g) s
unfolding ◌>>=◌
bind_cong {A} m f g h s = go (m s).0 (m s).1
  where
    go : (r : Outcome A) (c : Context) → ((λ x. (r, c)) >>= f) c ≡ ((λ x. (r, c)) >>= g) c
    go (done a) c = h a c
    go (fail rv) c = refl
    go stuck c = refl

same_before :
    {A B : Type 0} (m n : Action A) (f : Action B)
    → ((s : Context) → m s ≡ n s)
    → (s : Context) → (m >> f) s ≡ (n >> f) s
unfolding ◌>>=◌
same_before {A} {B} m n f h s = ap (λ (r : Outcome A × Context). ((λ c. r) >> f) s) (h s)

unit_between :
    {A : Type 0} (m : Action A) (rest later : Action (Unit {0}))
    → ((s : Context) → rest s ≡ later s)
    → (s : Context) → ((m >> return tt) >> rest) s ≡ (m >> later) s
unfolding ◌>>=◌ return
unit_between {A} m rest later h s = go (m s).0 (m s).1
  where
    go :
        (r : Outcome A) (c : Context)
        → (((λ x. (r, c)) >> return tt) >> rest) c ≡ ((λ x. (r, c)) >> later) c
    go (done a) c = h c
    go (fail rv) c = refl
    go stuck c = refl

-- An index of the loop.
emit-step :
    (e : Env) (i d p : ℕ) (mark skip : Bool) (rest : Action (Unit {0})) (later : List Item)
    → ((s : Context) → rest s ≡ emit_items e later s)
    → (s : Context)
    → ((if mark then send e (elided_frame (pos d) i) else return tt)
          >> ((if skip then return tt else stack_emit_frame e p i >> return tt) >> rest))
        s
      ≡ emit_items e
          ((if mark then left_out d i ∷ [] else [])
            ++ ((if skip then [] else shown p i ∷ []) ++ later))
          s
unfolding emit_items ◌>>=◌ return elided_frame decimal decimal_ℤ
emit-step e i d p false true rest later h s = h s
emit-step e i d p false false rest later h s =
    unit_between (stack_emit_frame e p i) rest (emit_items e later) h s
emit-step e i d p true true rest later h s =
    bind_cong (send e (elided_frame (pos d) i)) _ _ (λ u c. h c) s
emit-step e i d p true false rest later h s =
    bind_cong (send e (elided_frame (pos d) i)) _ _
      (λ u c. unit_between (stack_emit_frame e p i) rest (emit_items e later) h c) s

nothing_kept :
    (e : Env) (ki o d i : ℕ) (s : Context)
    → emit_kept e ki (pos o) (pos d) i [] s ≡ emit_items e (items ki o d i []) s
unfolding emit_kept items emit_items
nothing_kept e ki o d i s = refl

emit_kept-step :
    (e : Env) (ki o d i p : ℕ) (ps : List ℕ)
    → emit_kept e ki (pos o) (pos d) i (p ∷ ps)
      ≡ (if (i == ki) && ltb_ℤ (pos 0) (pos d) then send e (elided_frame (pos d) i) else return tt)
        >> ((if leb ki i && ltb_ℤ (pos i) (pos o)
              then return tt
              else stack_emit_frame e p i >> return tt)
            >> emit_kept e ki (pos o) (pos d) (i + 1) ps)
unfolding emit_kept
emit_kept-step e ki o d i p ps = refl

ltb_pos : (n m : ℕ) → ltb_ℤ (pos n) (pos m) ≡ ltb n m
ltb_pos n m = ap (λ k. ltb k (m + 0)) (omega arith) ∙ ap (ltb n) (omega arith)

items-step :
    (ki o d i p : ℕ) (ps : List ℕ)
    → items ki o d i (p ∷ ps)
      ≡ (if (i == ki) && ltb_ℤ (pos 0) (pos d) then left_out d i ∷ [] else [])
        ++ ((if leb ki i && ltb_ℤ (pos i) (pos o) then [] else shown p i ∷ [])
            ++ items ki o d (i + 1) ps)
unfolding items
items-step ki o d i p ps = rw (ltb_pos 0 d, ltb_pos i o) refl

emit_kept-items :
    (e : Env) (ki o d i : ℕ) (ptrs : List ℕ) (s : Context)
    → emit_kept e ki (pos o) (pos d) i ptrs s ≡ emit_items e (items ki o d i ptrs) s
emit_kept-items e ki o d i [] s = nothing_kept e ki o d i s
emit_kept-items e ki o d i (p ∷ ps) s =
    ap (λ (m : Action (Unit {0})). m s) (emit_kept-step e ki o d i p ps)
    ∙ (emit-step e i d p ((i == ki) && ltb_ℤ (pos 0) (pos d)) (leb ki i && ltb_ℤ (pos i) (pos o))
          (emit_kept e ki (pos o) (pos d) (i + 1) ps) (items ki o d (i + 1) ps)
          (λ c. emit_kept-items e ki o d (i + 1) ps c) s
        ∙ ap (λ l. emit_items e l s) (sym (items-step ki o d i p ps)))

-- A walk with a limit from the root: the chain of frames breaks while it is read, or it is read and
-- then those of its frames that are kept are sent.
abbrev pub IsElided : Env → ℕ → ℕ → Context → Outcome ℕ × Context → Type 0
IsElided e from_root remote s r =
    ((rv : Status) × (k : ℕ) × IsBroken e s.reads 1024 remote rv
      × (r ≡ (fail rv, record s { reads = k })))
    ⊎ ((ptrs : List ℕ) × (k : ℕ) × IsChain e s.reads 1024 remote ptrs
        × (r
            ≡ (emit_items e (kept (pos_part e.options.max_stack_depth_from_leaf) from_root ptrs)
                  >> return (length ptrs))
                (record s { reads = k })))

-- What follows the pointers.
after_collected : Env → ℕ → List ℕ → Action ℕ
after_collected e from_root ptrs =
    let ki = pos_part e.options.max_stack_depth_from_leaf in
    let range = keep_range ki from_root (length ptrs) in
    emit_kept e ki range.0 range.1 0 ptrs >> return (length ptrs)

after_collected-kept :
    (e : Env) (from_root : ℕ) (ptrs : List ℕ) (s : Context)
    → pos_part e.options.max_stack_depth_from_leaf + from_root < 2 ^ 31
    → length ptrs ≤ 1024
    → after_collected e from_root ptrs s
      ≡ (emit_items e (kept (pos_part e.options.max_stack_depth_from_leaf) from_root ptrs)
            >> return (length ptrs))
          s
unfolding after_collected
after_collected-kept e from_root ptrs s small few =
    let ki = pos_part e.options.max_stack_depth_from_leaf in
    let (o, d, range, plan) = keep_range-kept ki from_root ptrs small few in
    ap (λ x. (emit_kept e ki x.0 x.1 0 ptrs >> return (length ptrs)) s) range
    ∙ (same_before (emit_kept e ki (pos o) (pos d) 0 ptrs) (emit_items e (items ki o d 0 ptrs)) _
          (emit_kept-items e ki o d 0 ptrs) s
        ∙ ap (λ l. (emit_items e l >> return (length ptrs)) s) plan)

collected_then :
    (e : Env) (from_root remote : ℕ) (s : Context) (r : Outcome (List ℕ) × Context)
    → pos_part e.options.max_stack_depth_from_leaf + from_root < 2 ^ 31
    → IsCollected e 1024 remote [] s r
    → IsElided e from_root remote s (((λ x. r) >>= after_collected e from_root) s)
unfolding ◌>>=◌
collected_then e from_root remote s r small (inl (rv, k, broken, at)) =
    inl (rv, k, broken, ap (λ x. ((λ c. x) >>= after_collected e from_root) s) at)
collected_then e from_root remote s r small (inr (ptrs, k, chain, at)) = inr (
  ptrs,
  k,
  chain,
  ap (λ x. ((λ c. x) >>= after_collected e from_root) s) at
      ∙ after_collected-kept e from_root ptrs _ small
          (IsChain-length e s.reads 1024 remote ptrs chain),
)

-- Where the two limits add up to a 32-bit integer, a walk with a limit from the root reads the chain of
-- frames from the given one on, by their links, up to its end or to 1024 frames, and then sends the
-- frames of it from the leaf that the limit keeps, one that names the number of those left out, and
-- those from the root, each with its depth in the whole chain, or all of them if the limits cover it,
-- until one fails; it returns the length of the chain. If the chain cannot be read, it sends nothing
-- and returns the status of the read.
pub trace_from_root-IsElided :
    (e : Env) (from_root remote : ℕ) (s : Context)
    → pos_part e.options.max_stack_depth_from_leaf + from_root < 2 ^ 31
    → IsElided e from_root remote s (trace_from_root e from_root remote s)
unfolding trace_from_root after_collected ◌>>=◌
trace_from_root-IsElided e from_root remote s small =
    collected_then e from_root remote s (stack_collect e max_stack_walk remote [] s) small
      (stack_collect-IsCollected e max_stack_walk remote [] s)
