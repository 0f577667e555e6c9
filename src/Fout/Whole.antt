-- ===== src/Fout/Whole.antt =====
-- Cutting a buffer at its last frame delimiter.
use phpspy.Prelude.{
  ℕ, zero, suc, ◌+◌, ◌≤◌, ◌≡◌, inl, inr, refl, ap, false, none, some, [], ◌∷◌, ◌++◌, arith, length,
  take, Option-cases, length-append, take-append,
}
use phpspy.Prelude.Text.{Text}
use phpspy.Prelude.Bytes.{memrchr, memrchr-lt, has}
use phpspy.Fout.Buffer.{whole_records}

memrchr_of_has : (d : ℕ) (t : Text) → has d t ≡ false → memrchr d t ≡ none
unfolding memrchr
memrchr_of_has d [] h = refl
memrchr_of_has d (c ∷ cs) h = ground (arith, memrchr_of_has d cs)

memrchr-append : (d : ℕ) (b s : Text) → has d s ≡ false → memrchr d (b ++ s) ≡ memrchr d b
unfolding memrchr
memrchr-append d [] s h = memrchr_of_has d s h
memrchr-append d (c ∷ b) s h = rw (memrchr-append d b s h)

take-length : (b : Text) (n : ℕ) → length b ≤ n → take n b ≡ b
take-length [] zero h = refl
take-length [] (suc n) h = refl
take-length (c ∷ b) zero h = absurd (omega arith)
take-length (c ∷ b) (suc n) h = ap (λ r. c ∷ r) (take-length b n (omega arith))

-- The text is empty or ends with the delimiter.
abbrev pub IsRecords : ℕ → Text → Type 0
IsRecords d t = whole_records d t ≡ t

-- An unfinished record behind whole ones is cut off, and they stay.
pub whole_records-append :
    (d : ℕ) (b s : Text) → IsRecords d b → has d s ≡ false → whole_records d (b ++ s) ≡ b
whole_records-append d b s whole h = elim (Option-cases (memrchr d b)) [
  | inl e ↦ ground (arith, memrchr-append d b s h)
  | inr (i, e) ↦ ground (arith, memrchr-append d b s h, take-append (i + 1) b s, memrchr-lt d b e)
]

memrchr-snoc : (d : ℕ) (b : Text) → memrchr d (b ++ (d ∷ [])) ≡ some (length b)
unfolding memrchr
memrchr-snoc d [] = ground arith
memrchr-snoc d (c ∷ b) = rw (memrchr-snoc d b)

pub IsRecords-snoc : (d : ℕ) (b : Text) → IsRecords d (b ++ (d ∷ []))
IsRecords-snoc d b =
    ground (
      arith,
      memrchr-snoc d b,
      take-length (b ++ (d ∷ [])) (length b + 1),
      length-append b (d ∷ []),
    )

pub IsRecords-nil : (d : ℕ) → IsRecords d []
unfolding memrchr
IsRecords-nil d = refl
