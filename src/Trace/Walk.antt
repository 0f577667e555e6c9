-- ===== src/Trace/Walk.antt =====
-- Which frames `trace_stack` sends when there is none.
use phpspy.Prelude.{
  ℕ, zero, suc, ◌+◌, ◌≤◌, ◌≡◌, ◌⊎◌, inl, inr, refl, sym, ap, ◌∙◌, ◌==◌, false, ◌||◌, List, [], ◌∷◌,
  ◌++◌, arith, take, Bool-cases,
}
use mathlib.Core.List.{append-nil, append_assoc}
use phpspy.Prelude.Int.{ℤ, pos, negsuc}
use phpspy.Status.{Status, ok, is_ok}
use phpspy.Trace.Tries.{IsError, IsTry-stack_emit_frame}
use phpspy.Zend.Remote.{Outcome, done, fail, stuck}
use phpspy.Trace.{Env, Context}
use phpspy.Trace.Stack.{max_stack_walk, stack_emit_frame, at_limit, trace_from_leaf, trace_stack}
use phpspy.Trace.Emits.{frame_depths, Shown}
use phpspy.Trace.Depths.{Emits-stack_emit_frame}

-- The `n` depths from `i` on.
unfoldable pub upto : ℕ → ℕ → List ℕ
upto i zero = []
upto i (suc n) = i ∷ upto (i + 1) n

-- The depth keeps to the limit from the leaf, if there is one.
abbrev pub IsInLimit : ℤ → ℕ → Type 0
IsInLimit (pos n) depth = depth ≤ n
IsInLimit (negsuc n) depth = Unit

-- What a walk of at most `todo` frames from `depth` on shows: one frame for each depth up to the
-- one that it returns, and, where it fails, at most the next one.
abbrev pub IsWalk : ℤ → ℕ → ℕ → List ℕ → Outcome (Status × ℕ) → List ℕ → Type 0
IsWalk leaf depth todo old (done (rv, d)) new =
    (k : ℕ) × (d ≡ depth + k)
    × (k ≤ todo)
    × IsInLimit leaf d
    × (((rv ≡ ok) × (new ≡ old ++ upto depth k))
        ⊎ ((n : ℕ) × (is_ok rv ≡ false) × (new ≡ old ++ (upto depth k ++ take n (d ∷ [])))))
IsWalk leaf depth todo old (fail rv) new = ⊥
IsWalk leaf depth todo old stuck new = (k : ℕ) × (n : ℕ) × (new ≡ old ++ take n (upto depth k))

-- One frame more in front of a walk.
longer :
    (leaf : ℤ) (depth todo : ℕ) (old mid new : List ℕ) (r : Outcome (Status × ℕ))
    → mid ≡ old ++ (depth ∷ [])
    → IsWalk leaf (depth + 1) todo mid r new
    → IsWalk leaf depth (suc todo) old r new
unfolding upto
longer leaf depth todo old mid new (done (rv, d)) e (k, at, le, lim, inl (fine, h)) = (
  suc k,
  omega arith,
  omega arith,
  lim,
  inl ((fine, h ∙ (ap (λ l. l ++ upto (depth + 1) k) e ∙ append_assoc old (depth ∷ []) _))),
)
longer leaf depth todo old mid new (done (rv, d)) e (k, at, le, lim, inr (n, bad, h)) = (
  suc k,
  omega arith,
  omega arith,
  lim,
  inr (
      (
        n,
        bad,
        h
            ∙ (ap (λ l. l ++ (upto (depth + 1) k ++ take n (d ∷ []))) e
                ∙ append_assoc old (depth ∷ []) _),
      )),
)
longer leaf depth todo old mid new (fail rv) e h = elim h [ ]
longer leaf depth todo old mid new stuck e (k, n, h) = (
  suc k,
  suc n,
  h ∙ (ap (λ l. l ++ take n (upto (depth + 1) k)) e ∙ append_assoc old (depth ∷ []) _),
)

IsInLimit-next :
    (limit : ℤ) (depth : ℕ)
    → IsInLimit limit depth
    → at_limit limit depth ≡ false
    → IsInLimit limit (depth + 1)
IsInLimit-next (pos n) depth le h = ground arith
IsInLimit-next (negsuc n) depth le h = tt

module _ (e : Env) where
  leaf : ℤ
  leaf = e.options.max_stack_depth_from_leaf

  next_frame :
      (todo depth : ℕ) (old : List ℕ) (r : Outcome ℕ) (s' : Context)
      → IsInLimit leaf depth
      → IsError r
      → Shown old (depth ∷ []) r (frame_depths s'.events)
      → ((next : ℕ)
          → IsWalk leaf
              (depth + 1)
              todo
              (frame_depths s'.events)
              (trace_from_leaf e todo (depth + 1) next s').0
              (frame_depths (trace_from_leaf e todo (depth + 1) next s').1.events))
      → (let out : Outcome (Status × ℕ) × Context = elim r [
        | done next ↦ trace_from_leaf e todo (depth + 1) next s'
        | fail rv ↦ (done (rv, depth), s')
        | stuck ↦ (stuck, s')
      ] in
          IsWalk leaf depth (suc todo) old out.0 (frame_depths out.1.events))
  unfolding upto
  next_frame todo depth old (done next) s' lim err h rest =
      longer leaf depth todo old _ _ (trace_from_leaf e todo (depth + 1) next s').0 h (rest next)
  next_frame todo depth old (fail rv) s' lim err (n, h) rest =
      (0, omega arith, omega arith, lim, inr ((n, err, h)))
  next_frame todo depth old stuck s' lim err (n, h) rest = (1, n, h)

  trace_from_leaf-IsWalk :
      (todo depth remote : ℕ) (s : Context)
      → IsInLimit leaf depth
      → IsWalk leaf depth todo
          (frame_depths s.events)
          (trace_from_leaf e todo depth remote s).0
          (frame_depths (trace_from_leaf e todo depth remote s).1.events)
  unfolding trace_from_leaf upto leaf
  trace_from_leaf-IsWalk zero depth remote s lim =
      (0, omega arith, omega arith, lim, inl ((refl, sym (append-nil _))))
  trace_from_leaf-IsWalk (suc todo) depth remote s lim =
      elim (Bool-cases ((remote == 0) || at_limit leaf depth)) [
        | inl end ↦
            rw (end, IsWalk) ((0, omega arith, omega arith, lim, inl ((refl, sym (append-nil _)))))
        | inr more ↦
            rw (more, IsWalk)
              (next_frame todo depth (frame_depths s.events) (stack_emit_frame e remote depth s).0
                (stack_emit_frame e remote depth s).1 lim
                ((IsTry-stack_emit_frame e remote depth).errs s)
                ((Emits-stack_emit_frame e remote depth).shown s)
                (λ next.
                  trace_from_leaf-IsWalk todo (depth + 1) next (stack_emit_frame e remote depth s).1
                    (IsInLimit-next leaf depth lim (ground arith))))
      ]

IsInLimit-zero : (limit : ℤ) → IsInLimit limit 0
IsInLimit-zero (pos n) = omega arith
IsInLimit-zero (negsuc n) = tt

-- Without a limit from the root, `trace_stack` returns a depth of at most 1024, and of at most the
-- limit from the leaf if there is one, and has sent one frame for each depth below it, in order. If
-- its status is not PHPSPY_OK, and only then, the frame at that depth may have been sent as well.
pub trace_stack-IsWalk :
    (e : Env) (remote n : ℕ) (s : Context)
    → e.options.max_stack_depth_from_root ≡ negsuc n
    → IsWalk e.options.max_stack_depth_from_leaf 0 max_stack_walk
        (frame_depths s.events)
        (trace_stack e remote s).0
        (frame_depths (trace_stack e remote s).1.events)
unfolding trace_stack leaf
trace_stack-IsWalk e remote n s none_set =
    rw (none_set, IsWalk)
      (trace_from_leaf-IsWalk e max_stack_walk 0 remote s
        (IsInLimit-zero e.options.max_stack_depth_from_leaf))
