-- ===== src/Top/Order.antt =====
-- The order of the rows, which `qsort` is given as `func_list_compare`.
use phpspy.Prelude.{ℕ, ◌≡◌, ◌≢◌, ◌↔◌, refl, ltb, ◌==◌, if◌then◌else◌, arith}
use phpspy.Prelude.Int.{ℤ, pos, negsuc, sub_ℕ, neg_part, pos_part}
use phpspy.Top.{FuncEntry, func_list_compare}

-- What a comparison of two counts, then of the rest, comes to.
abbrev by_count : ℕ → ℕ → ℤ → ℤ
by_count a b rest = if b == a then rest else (if ltb a b then pos 1 else negsuc 0)

abbrev opposite : ℤ → ℤ
opposite i = sub_ℕ (neg_part i) (pos_part i)

by_count-opposite :
    (a b : ℕ) (r s : ℤ) → s ≡ opposite r → by_count b a s ≡ opposite (by_count a b r)
by_count-opposite a b r s h = ground (arith, h)

by_count_trans :
    (a b c : ℕ) (r s t : ℤ)
    → (r ≢ pos 1 → s ≢ pos 1 → t ≢ pos 1)
    → by_count a b r ≢ pos 1
    → by_count b c s ≢ pos 1
    → by_count a c t ≢ pos 1
by_count_trans a b c r s t h = ground arith

by_count-zero : (a b : ℕ) (r : ℤ) → (by_count a b r ≡ pos 0) ↔ ((a ≡ b) × (r ≡ pos 0))
by_count-zero a b r = ground arith

-- What `qsort` wants of a comparison: swapped arguments give the opposite answer, and what may
-- stand before `b` may stand before all that `b` may stand before.
pub record IsComparator (compare : FuncEntry → FuncEntry → ℤ) : Type 0 where
  pub opposite_lem : (a b : FuncEntry) → compare b a ≡ opposite (compare a b)
  pub trans_lem :
      (a b c : FuncEntry) → compare a b ≢ pos 1 → compare b c ≢ pos 1 → compare a c ≢ pos 1
  pub zero_lem :
      (a b : FuncEntry)
      → (compare a b ≡ pos 0) ↔ (
          (a.count_excl ≡ b.count_excl)
          × (a.count_incl ≡ b.count_incl)
          × (a.total_count_excl ≡ b.total_count_excl)
          × (a.total_count_incl ≡ b.total_count_incl))

-- `func_list_compare` is a comparison for `qsort`: swapping the entries swaps the sign, it is
-- transitive, and it is 0 if and only if all four counts agree.
pub func_list_compare-IsComparator : IsComparator func_list_compare
unfolding func_list_compare
func_list_compare-IsComparator = record {
  opposite_lem = λ a b. by_count-opposite a.count_excl b.count_excl _ _ (
      by_count-opposite a.count_incl b.count_incl _ _ (
        by_count-opposite a.total_count_excl b.total_count_excl _ _
          (by_count-opposite a.total_count_incl b.total_count_incl (pos 0) (pos 0) refl)));
  trans_lem = λ a b c. by_count_trans a.count_excl b.count_excl c.count_excl _ _ _ (
      by_count_trans a.count_incl b.count_incl c.count_incl _ _ _ (
        by_count_trans a.total_count_excl b.total_count_excl c.total_count_excl _ _ _ (
          by_count_trans a.total_count_incl b.total_count_incl c.total_count_incl (pos 0) (pos 0)
            (pos 0) (λ h k. h))));
  zero_lem = λ a b.
      let last = by_count a.total_count_incl b.total_count_incl (pos 0) in
      let third = by_count a.total_count_excl b.total_count_excl last in
      ground (
        arith,
        by_count-zero a.count_excl b.count_excl (by_count a.count_incl b.count_incl third),
        by_count-zero a.count_incl b.count_incl third,
        by_count-zero a.total_count_excl b.total_count_excl last,
        by_count-zero a.total_count_incl b.total_count_incl (pos 0),
      );
}
