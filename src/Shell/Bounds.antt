-- ===== src/Shell/Bounds.antt =====
-- The size of an escaped argument, and when it fits.
use phpspy.Prelude.{
  ℕ, dec_lt, Option, ◌+◌, ◌-◌, ◌≤◌, ◌≡◌, refl, none, some, [], ◌∷◌, arith, ◌==◌, length,
  if◌then◌else◌, Bool-cases, inl, inr,
}
use phpspy.Prelude.Text.{Text}
use phpspy.Shell.{quote, escape_from, shell_escape}

-- The bytes between the outer quotes.
unfoldable pub escaped_length : Text → ℕ
escaped_length [] = 0
escaped_length (c ∷ cs) = (if c == quote then 4 else 1) + escaped_length cs

escape_from-fits :
    (arg : Text) (room : ℕ)
    → escaped_length arg + 2 ≤ room
    → (out : Text) × (escape_from arg room ≡ some out) × (length out ≡ escaped_length arg + 1)
unfolding escape_from escaped_length
escape_from-fits [] room h = (quote ∷ [], ground arith, refl)
escape_from-fits (c ∷ cs) room h = elim (Bool-cases (c == quote)) [
  | inl q ↦
      let (out, e, n) = escape_from-fits cs (room - 4) (ground arith) in
      (quote ∷ 92 ∷ quote ∷ quote ∷ out, ground arith, ground arith)
  | inr p ↦
      let (out, e, n) = escape_from-fits cs (room - 1) (ground arith) in
      (c ∷ out, ground arith, ground arith)
]

escape_from-overflow :
    (arg : Text) (room : ℕ) → room ≤ escaped_length arg + 1 → escape_from arg room ≡ none
unfolding escape_from escaped_length
escape_from-overflow [] room h = ground arith
escape_from-overflow (c ∷ cs) room h = elim (Bool-cases (c == quote)) [
  | inl q ↦ ground (arith, escape_from-overflow cs (room - 4))
  | inr p ↦ ground (arith, escape_from-overflow cs (room - 1))
]

-- What the size of the buffer makes of an escaped argument: a failure is one that does not fit, and
-- an output has the predicted length and leaves room for its NUL.
abbrev pub IsEscaped : Text → ℕ → Option Text → Type 0
IsEscaped arg buf_size none = buf_size ≤ escaped_length arg + 2
IsEscaped arg buf_size (some out) =
    (length out ≡ escaped_length arg + 2) × (length out + 1 ≤ buf_size)

-- For a buffer of at least one byte, `shell_escape` succeeds exactly when the argument, at four
-- bytes for a single quote and one for any other, fits with its two outer quotes and the NUL. Then
-- the output has that length, and with its NUL stays within the buffer.
pub shell_escape_fits :
    (arg : Text) (buf_size : ℕ) → 1 ≤ buf_size → IsEscaped arg buf_size (shell_escape arg buf_size)
unfolding shell_escape
shell_escape_fits arg buf_size one = elim (dec_lt (escaped_length arg + 2) buf_size) [
  | yes fits ↦
      let (out, e, n) = escape_from-fits arg (buf_size - 1) (omega arith) in
      rw e ((omega arith, omega arith))
  | no over ↦ rw (escape_from-overflow arg (buf_size - 1) (omega arith)) (omega arith)
]
