-- ===== src/Trace/Plan.antt =====
-- What the loop of `trace_stack` over the collected frames is to send: the frames from the leaf, one
-- that stands for what is left out, and the frames from the root.
use phpspy.Prelude.{
  ℕ, zero, suc, ◌+◌, ◌-◌, ◌^◌, ◌≤◌, ◌<◌, ◌≡◌, inl, inr, refl, ap, ◌∙◌, ltb, leb, ◌==◌, length, take,
  drop, if◌then◌else◌, ◌&&◌, List, dec_lt, [], ◌∷◌, ◌++◌, arith, Bool-cases, true, false,
}
use phpspy.Prelude.Int.{pos}
use phpspy.Trace.Stack.{keep_range}

-- The frame at a pointer, or the frame for a number of frames that are left out, with its depth.
pub data Item : Type 0 where
  shown left_out : ℕ → ℕ → Item

-- The frames at some pointers, with their depths from `i` on.
unfoldable pub numbered : ℕ → List ℕ → List Item
numbered i [] = []
numbered i (p ∷ ps) = shown p i ∷ numbered (i + 1) ps

-- All frames, or `keep_inner` from the leaf, one for what is left out, and `from_root` from the root.
abbrev pub kept : ℕ → ℕ → List ℕ → List Item
kept keep_inner from_root ptrs =
    let total = length ptrs in
    if ltb (keep_inner + from_root) total
    then numbered 0 (take keep_inner ptrs)
      ++ (left_out (total - keep_inner - from_root) keep_inner
          ∷ numbered (total - from_root) (drop (total - from_root) ptrs))
    else numbered 0 ptrs

-- What the loop does, index by index.
unfoldable pub items : ℕ → ℕ → ℕ → ℕ → List ℕ → List Item
items ki o d i [] = []
items ki o d i (p ∷ ps) =
    (if (i == ki) && ltb 0 d then left_out d i ∷ [] else [])
    ++ ((if leb ki i && ltb i o then [] else shown p i ∷ []) ++ items ki o d (i + 1) ps)

-- Nothing is left out.
items-all : (ki i : ℕ) (ps : List ℕ) → items ki ki 0 i ps ≡ numbered i ps
unfolding items numbered
items-all ki i [] = refl
items-all ki i (p ∷ ps) = ground (arith, items-all ki (i + 1) ps)

-- Behind what is left out.
items-tail : (ki o d i : ℕ) (ps : List ℕ) → ki < o → o ≤ i → items ki o d i ps ≡ numbered i ps
unfolding items numbered
items-tail ki o d i [] lt le = refl
items-tail ki o d i (p ∷ ps) lt le = ground (arith, items-tail ki o d (i + 1) ps)

-- Within it.
items-mid :
    (ki o d i : ℕ) (ps : List ℕ) → ki < i → i ≤ o → items ki o d i ps ≡ numbered o (drop (o - i) ps)
unfolding items numbered
items-mid ki o d i [] lt le = nothing (o - i)
  where
    nothing : (n : ℕ) → ◌≡◌ {A = List Item} [] (numbered o (drop n []))
    nothing zero = refl
    nothing (suc n) = refl
items-mid ki o d i (p ∷ ps) lt le = elim (dec_lt i o) [
  | yes below ↦
      let step : o - i ≡ suc (o - (i + 1)) = omega arith in
      rw step (ground (arith, items-mid ki o d (i + 1) ps))
  | no at ↦
      let here : i ≡ o = omega arith in
      let none_left : o - i ≡ 0 = omega arith in
      rw none_left (
        items-tail ki o d i (p ∷ ps) (omega arith) (omega arith)
        ∙ ap (λ x. numbered x (p ∷ ps)) here)
]

-- In front of it.
items-front :
    (ki o d i : ℕ) (ps : List ℕ)
    → i ≤ ki
    → ki < o
    → 0 < d
    → ki < i + length ps
    → items ki o d i ps
      ≡ numbered i (take (ki - i) ps) ++ (left_out d ki ∷ numbered o (drop (o - i) ps))
unfolding items numbered
items-front ki o d i [] le lt positive long = absurd (omega arith)
items-front ki o d i (p ∷ ps) le lt positive long =
    let step : o - i ≡ suc (o - (i + 1)) = omega arith in
    elim (dec_lt i ki) [
      | yes below ↦
          let step' : ki - i ≡ suc (ki - (i + 1)) = omega arith in
          rw (step, step')
            (ground (arith, items-front ki o d (i + 1) ps (omega arith) lt positive (omega arith)))
      | no at ↦
          let last : ki - i ≡ 0 = omega arith in
          rw (step, last) (ground (arith, items-mid ki o d (i + 1) ps (omega arith) (omega arith)))
    ]

keep_range-cut :
    (ki root total : ℕ)
    → ki + root < 2 ^ 31
    → total ≤ 1024
    → ltb (ki + root) total ≡ true
    → keep_range ki root total ≡ (pos (total - root), pos (total - ki - root))
unfolding keep_range
keep_range-cut ki root total small few cut = ground arith

keep_range-whole :
    (ki root total : ℕ)
    → ki + root < 2 ^ 31
    → total ≤ 1024
    → ltb (ki + root) total ≡ false
    → keep_range ki root total ≡ (pos ki, pos 0)
unfolding keep_range
keep_range-whole ki root total small few whole = ground arith

-- The loop with the range that `trace_stack` gives it keeps what it is to send.
pub keep_range-kept :
    (ki root : ℕ) (ptrs : List ℕ)
    → ki + root < 2 ^ 31
    → length ptrs ≤ 1024
    → (o : ℕ) × (d : ℕ) × (keep_range ki root (length ptrs) ≡ (pos o, pos d))
      × (items ki o d 0 ptrs ≡ kept ki root ptrs)
keep_range-kept ki root ptrs small few =
    let total = length ptrs in
    elim (Bool-cases (ltb (ki + root) total)) [
      | inl cut ↦
          let whole_front : ki - 0 ≡ ki = omega arith in
          let whole_back : total - root - 0 ≡ total - root = omega arith in
          (
            total - root,
            total - ki - root,
            keep_range-cut ki root total small few cut,
            rw cut (
                rw (whole_front, whole_back) at
                  (items-front ki (total - root) (total - ki - root) 0 ptrs (omega arith)
                    (ground arith) (ground arith) (ground arith))),
          )
      | inr whole ↦
          (ki, 0, keep_range-whole ki root total small few whole, rw whole (items-all ki 0 ptrs))
    ]
