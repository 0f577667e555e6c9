-- ===== src/Top/Errors.antt =====
-- What `read_child_err` counts of the lines that the child writes to its stderr.
use phpspy.Prelude.{
  ℕ, zero, suc, ◌+◌, ◌-◌, ◌≤◌, ◌<◌, ◌≡◌, inl, inr, refl, sym, ap, ◌∙◌, ◌==◌, if◌then◌else◌, none,
  some, [], ◌∷◌, arith, length, take, drop, dec_lt, Option-cases,
}
use Prim.Native.Nat.{min}
use phpspy.Prelude.Text.{Text}
use phpspy.Prelude.Bytes.{memchr}
use phpspy.Top.{count_errs}

-- The newlines among the bytes.
unfoldable pub newlines : Text → ℕ
newlines [] = 0
newlines (c ∷ t) = let n = newlines t in if c == b'\n' then suc n else n

newlines-drop : (n : ℕ) (t : Text) → newlines (drop n t) ≤ newlines t
unfolding newlines
newlines-drop zero t = omega arith
newlines-drop (suc n) [] = omega arith
newlines-drop (suc n) (c ∷ t) = ground (arith, newlines-drop n t)

newlines-length : (t : Text) → newlines t ≤ length t
unfolding newlines
newlines-length [] = omega arith
newlines-length (c ∷ t) = ground (arith, newlines-length t)

newlines-none : (t : Text) → memchr b'\n' t ≡ none → newlines t ≡ 0
unfolding newlines memchr
newlines-none [] h = refl
newlines-none (c ∷ t) h = elim (Option-cases (memchr b'\n' t)) [
  | inl e ↦ ground (arith, newlines-none t e)
  | inr (i, e) ↦ ground arith
]

newlines-some :
    (t : Text) (i : ℕ) → memchr b'\n' t ≡ some i → newlines t ≡ suc (newlines (drop (suc i) t))
unfolding newlines memchr
newlines-some [] i h = absurd (ground arith)
newlines-some (c ∷ t) zero h = elim (Option-cases (memchr b'\n' t)) [
  | inl e ↦ ground arith
  | inr (i, e) ↦ ground arith
]
newlines-some (c ∷ t) (suc j) h = elim (Option-cases (memchr b'\n' t)) [
  | inl e ↦ ground arith
  | inr (i, e) ↦ ground (arith, newlines-some t j)
]

drop_nil : (k : ℕ) → drop {A = ℕ} k [] ≡ []
drop_nil zero = refl
drop_nil (suc k) = refl

take_nil : (k : ℕ) → take {A = ℕ} k [] ≡ []
take_nil zero = refl
take_nil (suc k) = refl

drop-drop : (k n : ℕ) (t : Text) → drop k (drop n t) ≡ drop (n + k) t
drop-drop k zero t = let e : k ≡ 0 + k = omega arith in ap (λ m. drop m t) e
drop-drop k (suc n) [] = drop_nil k ∙ sym (drop_nil (suc n + k))
drop-drop k (suc n) (c ∷ t) =
    let e : suc (n + k) ≡ suc n + k = omega arith in drop-drop k n t ∙ ap (λ m. drop m (c ∷ t)) e

drop-take : (k n : ℕ) (t : Text) → drop k (take n t) ≡ take (n - k) (drop k t)
drop-take zero n t = let e : n ≡ n - 0 = omega arith in ap (λ m. take m t) e
drop-take (suc k) zero t =
    let e : 0 ≡ 0 - suc k = omega arith in ap (λ m. take m (drop (suc k) t)) e
drop-take (suc k) (suc n) [] = sym (take_nil (suc n - suc k))
drop-take (suc k) (suc n) (c ∷ t) =
    let e : n - k ≡ suc n - suc k = omega arith in drop-take k n t ∙ ap (λ m. take m (drop k t)) e

take-length : (t : Text) → take (length t) t ≡ t
take-length [] = refl
take-length (c ∷ t) = ap (λ r. c ∷ r) (take-length t)

-- The bytes that a round looks at.
abbrev window : Text → ℕ → ℕ → Text
window buf pos rv = take rv (drop pos buf)

drop-window :
    (k : ℕ) (buf : Text) (pos rv : ℕ) → drop k (window buf pos rv) ≡ window buf (pos + k) (rv - k)
drop-window k buf pos rv = drop-take k rv (drop pos buf) ∙ ap (take (rv - k)) (drop-drop k pos buf)

count_errs-zero : (buf : Text) (pos rv : ℕ) → count_errs zero buf pos rv ≡ 0
unfolding count_errs
count_errs-zero buf pos rv = refl

-- A round, by what `memchr` finds.
count_errs-none :
    (fuel : ℕ) (buf : Text) (pos rv : ℕ)
    → memchr b'\n' (window buf pos rv) ≡ none
    → count_errs (suc fuel) buf pos rv ≡ 0
unfolding count_errs
count_errs-none fuel buf pos rv e = ground (arith, e)

count_errs-some :
    (fuel : ℕ) (buf : Text) (pos rv i : ℕ)
    → memchr b'\n' (window buf pos rv) ≡ some i
    → count_errs (suc fuel) buf pos rv
      ≡ suc (count_errs fuel buf (pos + (pos + i + 1)) (rv - (pos + i + 1)))
unfolding count_errs
count_errs-some fuel buf pos rv i e = ground (arith, e)

-- The next window lies in what follows the newline, and is all of it in the first round.
later_window :
    (buf : Text) (pos rv i : ℕ)
    → window buf (pos + (pos + i + 1)) (rv - (pos + i + 1))
      ≡ drop pos (drop (suc i) (window buf pos rv))
later_window buf pos rv i =
    sym (drop-window (pos + i + 1) buf pos rv)
    ∙ ap (λ k. drop k (window buf pos rv)) (omega arith)
    ∙ sym (drop-drop pos (suc i) (window buf pos rv))

count_errs-le :
    (fuel : ℕ) (buf : Text) (pos rv : ℕ) → count_errs fuel buf pos rv ≤ newlines (window buf pos rv)
count_errs-le zero buf pos rv = ground (arith, count_errs-zero buf pos rv)
count_errs-le (suc fuel) buf pos rv = elim (Option-cases (memchr b'\n' (window buf pos rv))) [
  | inl e ↦ omega (arith, count_errs-none fuel buf pos rv e)
  | inr (i, e) ↦
      let rest = drop (suc i) (window buf pos rv) in
      omega (
        arith,
        count_errs-some fuel buf pos rv i e,
        count_errs-le fuel buf (pos + (pos + i + 1)) (rv - (pos + i + 1)),
        ap newlines (later_window buf pos rv i),
        newlines-drop pos rest,
        newlines-some (window buf pos rv) i e,
      )
]

count_errs-positive :
    (fuel : ℕ) (buf : Text) (pos rv : ℕ)
    → 0 < fuel
    → 0 < newlines (window buf pos rv)
    → 0 < count_errs fuel buf pos rv
count_errs-positive zero buf pos rv f h = absurd (omega arith)
count_errs-positive (suc fuel) buf pos rv f h =
    elim (Option-cases (memchr b'\n' (window buf pos rv))) [
      | inl e ↦ absurd (omega (arith, newlines-none (window buf pos rv) e))
      | inr (i, e) ↦ omega (arith, count_errs-some fuel buf pos rv i e)
    ]

count_errs-two :
    (fuel : ℕ) (buf : Text) (rv : ℕ)
    → newlines (window buf 0 rv) ≡ newlines buf
    → newlines buf ≤ fuel
    → min 2 (newlines buf) ≤ count_errs fuel buf 0 rv
count_errs-two zero buf rv whole enough = omega arith
count_errs-two (suc fuel) buf rv whole enough =
    elim (Option-cases (memchr b'\n' (window buf 0 rv))) [
      | inl e ↦ omega (arith, whole, newlines-none (window buf 0 rv) e)
      | inr (i, e) ↦
          let first = count_errs-some fuel buf 0 rv i e in
          let split = newlines-some (window buf 0 rv) i e in
          let next = ap newlines (later_window buf 0 rv i) in
          elim (dec_lt (newlines buf) 2) [
            | yes few ↦ omega (arith, first)
            | no more ↦ omega (
              arith,
              first,
              count_errs-positive fuel buf (0 + (0 + i + 1)) (rv - (0 + i + 1)) (omega arith)
                  (omega arith),
            )
          ]
    ]

-- Of the lines that `read_child_err` reads at once, it counts no more than there are, and the first
-- two; the position that it adds up wrongly can hide the third and later ones.
pub count_errs-newlines :
    (buf : Text)
    → (count_errs (length buf) buf 0 (length buf) ≤ newlines buf)
      × (min 2 (newlines buf) ≤ count_errs (length buf) buf 0 (length buf))
count_errs-newlines buf =
    let whole = ap newlines (take-length buf) in
    (
      omega (arith, count_errs-le (length buf) buf 0 (length buf), whole),
      count_errs-two (length buf) buf (length buf) whole (newlines-length buf),
    )
