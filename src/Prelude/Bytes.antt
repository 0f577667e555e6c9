-- ===== src/Prelude/Bytes.antt =====
-- Searching the bytes of a buffer, as `memchr` and `memrchr` do, and the laws of cutting it up.
use Prim.Native.Nat.{ℕ, zero, suc, ◌<◌}
use mathlib.Core.Path.{◌≡◌, refl}
use mathlib.Core.Logic.{inl, inr}
use mathlib.Core.Bool.{Bool, false, ◌||◌}
use mathlib.Core.Option.{Option, none, some}
use mathlib.Core.List.{[], ◌∷◌, ◌++◌}
use native.Mathlib.Omega.{arith}
use phpspy.Prelude.Tests.{◌==◌, if◌then◌else◌, Option-cases}
use phpspy.Prelude.Lists.{length, drop, get_elem?}
use phpspy.Prelude.Text.{Text}

-- The first position of `d`.
unfoldable pub memchr : ℕ → Text → Option ℕ
memchr d [] = none
memchr d (c ∷ cs) =
    if c == d then some 0 else elim (memchr d cs) [ none ↦ none | some i ↦ some (suc i) ]

-- The last position of `d`.
unfoldable pub memrchr : ℕ → Text → Option ℕ
memrchr d [] = none
memrchr d (c ∷ cs) = elim (memrchr d cs) [
  | some i ↦ some (suc i)
  | none ↦ if c == d then some 0 else none
]

abbrev pub has : ℕ → Text → Bool
has d [] = false
has d (c ∷ cs) = (c == d) || has d cs

pub memrchr-lt : (d : ℕ) (t : Text) {i : ℕ} → memrchr d t ≡ some i → i < length t
unfolding memrchr
memrchr-lt d [] e = ground arith
memrchr-lt d (c ∷ cs) e = elim (Option-cases (memrchr d cs)) [
  | inl n ↦ ground arith
  | inr (j, s) ↦ ground (arith, memrchr-lt d cs s)
]

pub get_elem?-memrchr : (d : ℕ) (t : Text) {i : ℕ} → memrchr d t ≡ some i → get_elem? t i ≡ some d
unfolding memrchr
get_elem?-memrchr d [] e = ground arith
get_elem?-memrchr d (c ∷ cs) {i = zero} e = elim (Option-cases (memrchr d cs)) [
  | inl n ↦ ground arith
  | inr (j, s) ↦ ground arith
]
get_elem?-memrchr d (c ∷ cs) {i = suc i} e = elim (Option-cases (memrchr d cs)) [
  | inl n ↦ ground arith
  | inr (j, s) ↦ ground (arith, get_elem?-memrchr d cs {i = i})
]

pub memrchr-none : (d : ℕ) (t : Text) → memrchr d t ≡ none → has d t ≡ false
unfolding memrchr
memrchr-none d [] e = refl
memrchr-none d (c ∷ cs) e = elim (Option-cases (memrchr d cs)) [
  | inl n ↦ ground (arith, memrchr-none d cs n)
  | inr (j, s) ↦ ground arith
]

-- What lies behind the last `d` has no `d`.
pub has-drop-memrchr :
    (d : ℕ) (t : Text) {i : ℕ} → memrchr d t ≡ some i → has d (drop (suc i) t) ≡ false
unfolding memrchr
has-drop-memrchr d [] e = ground arith
has-drop-memrchr d (c ∷ cs) {i = zero} e = elim (Option-cases (memrchr d cs)) [
  | inl n ↦ memrchr-none d cs n
  | inr (j, s) ↦ ground arith
]
has-drop-memrchr d (c ∷ cs) {i = suc i} e = elim (Option-cases (memrchr d cs)) [
  | inl n ↦ ground arith
  | inr (j, s) ↦ ground (arith, has-drop-memrchr d cs {i = i})
]

pub has-append : (d : ℕ) (s t : Text) → has d (s ++ t) ≡ (has d s || has d t)
has-append d [] t = refl
has-append d (c ∷ s) t = ground (arith, has-append d s t)
