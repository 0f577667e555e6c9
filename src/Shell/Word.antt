-- ===== src/Shell/Word.antt =====
-- How a POSIX shell reads one word, and that it reads an escaped argument as the argument itself.
use mathlib.Core.List.{append-nil, append_assoc}
use phpspy.Prelude.{
  ℕ, ◌-◌, ◌≡◌, refl, Bool, true, ◌||◌, Option, none, some, inl, inr, [], ◌∷◌, ◌++◌, arith, ◌==◌,
  if◌then◌else◌, Bool-cases, Option-cases,
}
use phpspy.Prelude.Text.{Text}
use phpspy.Shell.{quote, backslash, escape_from, shell_escape}

pub data Mode : Type 0 where
  bare quoted escaped : Mode

-- A blank, a line end or an operator ends a bare word.
abbrev pub ends_word : ℕ → Bool
ends_word c =
    (c == b' ')
    || (c == 9)
    || (c == 10)
    || (c == b';')
    || (c == b'|')
    || (c == b'&')
    || (c == b'<')
    || (c == b'>')
    || (c == b'(')
    || (c == b')')

-- The bytes of the word and the text after it; `none` for an open quote at the end.
unfoldable pub read_word : Mode → Text → Text → Option (Text × Text)
read_word bare word [] = some (word, [])
read_word quoted word [] = none
read_word escaped word [] = none
read_word bare word (c ∷ cs) =
    let in_quotes = read_word quoted word cs in
    let after_backslash = read_word escaped word cs in
    let more = read_word bare (word ++ (c ∷ [])) cs in
    if c == quote
    then in_quotes
    else if c == backslash
    then after_backslash
    else if ends_word c
    then some (word, c ∷ cs)
    else more
read_word quoted word (c ∷ cs) =
    let back = read_word bare word cs in
    let more = read_word quoted (word ++ (c ∷ [])) cs in if c == quote then back else more
read_word escaped word (c ∷ cs) = read_word bare (word ++ (c ∷ [])) cs

-- What may follow a word without becoming part of it.
abbrev pub word_ends : Text → Bool
word_ends [] = true
word_ends (c ∷ cs) = ends_word c

read_word-end : (w rest : Text) → word_ends rest ≡ true → read_word bare w rest ≡ some (w, rest)
unfolding read_word
read_word-end w [] h = refl
read_word-end w (c ∷ cs) h = ground arith

read_word-quoted :
    (arg : Text) (room : ℕ) {out : Text} (w rest : Text)
    → word_ends rest ≡ true
    → escape_from arg room ≡ some out
    → read_word quoted w (out ++ rest) ≡ some (w ++ arg, rest)
unfolding escape_from read_word
read_word-quoted [] room w rest h e = ground (arith, read_word-end w rest h, append-nil w)
read_word-quoted (c ∷ cs) room w rest h e = elim (Bool-cases (c == quote)) [
  | inl q ↦ elim (Option-cases (escape_from cs (room - 4))) [
    | inl none_left ↦ ground arith
    | inr (tail, e') ↦ ground (
      arith,
      read_word-quoted cs (room - 4) (w ++ (c ∷ [])) rest h e',
      append_assoc w (c ∷ []) cs,
    )
  ]
  | inr p ↦ elim (Option-cases (escape_from cs (room - 1))) [
    | inl none_left ↦ ground arith
    | inr (tail, e') ↦ ground (
      arith,
      read_word-quoted cs (room - 1) (w ++ (c ∷ [])) rest h e',
      append_assoc w (c ∷ []) cs,
    )
  ]
]

-- Whatever bytes the argument holds, if `shell_escape` succeeds, then a shell that reads its output
-- in front of a blank, an operator or the end of the command takes from it the one word `arg`, and
-- leaves the rest of the command untouched.
pub read_word-shell_escape :
    (arg : Text) (buf_size : ℕ) {out : Text} (rest : Text)
    → word_ends rest ≡ true
    → shell_escape arg buf_size ≡ some out
    → read_word bare [] (out ++ rest) ≡ some (arg, rest)
unfolding shell_escape read_word
read_word-shell_escape arg buf_size rest h e =
    elim (Option-cases (escape_from arg (buf_size - 1))) [
      | inl none_left ↦ ground arith
      | inr (tail, e') ↦ ground (arith, read_word-quoted arg (buf_size - 1) [] rest h e')
    ]
