-- ===== src/Peeks/Lines.antt =====
-- Which lines a specification of a variable covers.
use phpspy.Prelude.{
  ℕ, zero, suc, ◌+◌, ◌-◌, ◌%◌, ◌^◌, ◌<◌, ◌≤◌, ◌≡◌, ◌≢◌, refl, dec_lt, drop, Option, Option-cases,
  inl, inr, Bool, false, ◌&&◌, ◌||◌, none, some, List, [], ◌∷◌, ◌++◌, arith, ◌∙◌,
}
use phpspy.Prelude.Text.{Text, text_eq}
use phpspy.Prelude.Uthash.{eq_of_text_eq}
use phpspy.Trace.{VarpeekEntry}
use phpspy.Prelude.Bytes.{memchr, memrchr}
use phpspy.Peeks.{
  Peeking, endless, peeks, varpeek_key, add_var, add_lines, line_end_of, varpeek_add,
}

unfoldable pub has_name : Text → List Text → Bool
has_name v [] = false
has_name v (n ∷ ns) = text_eq n v || has_name v ns

-- The variable `v` is looked for at `key`.
unfoldable pub watched : Text → Text → List VarpeekEntry → Bool
unfolding has_name
watched key v [] = false
watched key v (e ∷ es) = (text_eq e.filename_lineno key && has_name v e.varmap) || watched key v es

-- `key` is that of one of `n` lines from `lineno` on.
unfoldable pub in_lines : Text → Text → ℕ → ℕ → Bool
unfolding varpeek_key
in_lines file key lineno zero = false
in_lines file key lineno (suc n) =
    text_eq (varpeek_key file lineno) key || in_lines file key (suc lineno) n

has_name-append :
    (v n : Text) (ns : List Text) → has_name v (ns ++ (n ∷ [])) ≡ (has_name v ns || text_eq n v)
unfolding has_name
has_name-append v n [] = ground arith
has_name-append v n (m ∷ ns) = ground (arith, has_name-append v n ns)

watched-add_var :
    (key name k v : Text) (m : List VarpeekEntry)
    → watched k v (add_var key name m) ≡ (watched k v m || (text_eq key k && text_eq name v))
unfolding watched add_var has_name
watched-add_var key name k v [] = ground arith
watched-add_var key name k v (e ∷ es) = ground (
  arith,
  has_name-append v name e.varmap,
  eq_of_text_eq e.filename_lineno key,
  watched-add_var key name k v es,
)

-- A round of the loop, and its end.
add_lines-step :
    (file name : Text) (fuel lineno last : ℕ) (m : List VarpeekEntry)
    → lineno ≤ last
    → lineno + 1 < 2 ^ 32
    → add_lines file name (suc fuel) lineno last m
      ≡ add_lines file name fuel (suc lineno) last (add_var (varpeek_key file lineno) name m)
unfolding add_lines
add_lines-step file name fuel lineno last m le small =
    let next : (lineno + 1) % 2 ^ 32 ≡ suc lineno = omega arith in ground (arith, next)

add_lines-end :
    (file name : Text) (fuel lineno last : ℕ) (m : List VarpeekEntry)
    → last < lineno
    → add_lines file name (suc fuel) lineno last m ≡ some m
unfolding add_lines
add_lines-end file name fuel lineno last m lt = ground arith

-- For a last line below 2^32 - 1, the loop of `varpeek_add` ends after one round more than there
-- are lines, and the variable is then looked for at the keys of exactly these lines, and where it
-- was before; nothing changes for other variables.
pub add_lines-watched :
    (file name : Text) (n lineno last : ℕ) (m : List VarpeekEntry)
    → lineno + n ≡ suc last
    → suc last < 2 ^ 32
    → (r : List VarpeekEntry) × (add_lines file name (suc n) lineno last m ≡ some r)
      × ((k v : Text)
          → watched k v r ≡ (watched k v m || (in_lines file k lineno n && text_eq name v)))
unfolding in_lines
add_lines-watched file name zero lineno last m total small =
    (m, add_lines-end file name 0 lineno last m (omega arith), λ k v. ground arith)
add_lines-watched file name (suc n) lineno last m total small =
    let key = varpeek_key file lineno in
    let (r, e, all) =
      add_lines-watched file name n (suc lineno) last (add_var key name m) (omega arith) small in
    (
      r,
      add_lines-step file name (suc n) lineno last m (omega arith) (omega arith) ∙ e,
      λ k v. ground (arith, all k v, watched-add_var key name k v m),
    )

-- For every other last line, 2^32 + 1 tests end it.
pub add_lines-ends :
    (file name : Text) (fuel lineno last : ℕ) (m : List VarpeekEntry)
    → last < 2 ^ 32 - 1
    → suc last < fuel + lineno
    → 0 < fuel
    → add_lines file name fuel lineno last m ≢ none
unfolding add_lines
add_lines-ends file name zero lineno last m small enough pos_fuel = absurd (omega arith)
add_lines-ends file name (suc fuel) lineno last m small enough pos_fuel =
    elim (dec_lt last lineno) [
      | yes over ↦ ground arith
      | no more ↦
          let next : (lineno + 1) % 2 ^ 32 ≡ suc lineno = omega arith in
          let rest =
            add_lines-ends file name fuel (suc lineno) last
              (add_var (varpeek_key file lineno) name m) small (omega arith) (omega arith) in
          ground (arith, next, rest)
    ]

-- The last line of an argument of -e.
unfoldable pub last_line : Text → ℕ
last_line varspec = elim (memrchr b':' varspec) [
  | none ↦ 0
  | some colon ↦ line_end_of (drop colon varspec)
]

ended :
    (r : Option (List VarpeekEntry))
    → r ≢ none
    → Peeking.endless ≢ elim r [ none ↦ endless | some m ↦ peeks m ]
ended none h = absurd (h refl)
ended (some m) h = ground arith

-- `-e` does not hang but for the last line 2^32 - 1.
pub varpeek_add-ends :
    (fuel : ℕ) (varspec : Text) (m : List VarpeekEntry)
    → 2 ^ 32 < fuel
    → last_line varspec < 2 ^ 32 - 1
    → endless ≢ varpeek_add fuel varspec m
unfolding varpeek_add last_line
varpeek_add-ends fuel varspec m enough small = elim (Option-cases (memchr b'@' varspec)) [
  | inl no_at ↦ rw (no_at, varpeek_add) (ground arith)
  | inr (at_sign, found) ↦ elim (Option-cases (memrchr b':' varspec)) [
    | inl no_colon ↦ rw (found, no_colon, varpeek_add) (ground arith)
    | inr (colon, at) ↦
        let last : line_end_of (drop colon varspec) < 2 ^ 32 - 1 = rw (at, last_line) at small in
        rw (found, at, varpeek_add)
          (ended _ (add_lines-ends _ _ fuel _ _ m last (omega arith) (omega arith)))
  ]
]

-- For the last line 2^32 - 1, no number of rounds ends the loop.
add_lines-none :
    (file name : Text) (fuel lineno : ℕ) (m : List VarpeekEntry)
    → lineno < 2 ^ 32
    → add_lines file name fuel lineno (2 ^ 32 - 1) m ≡ none
unfolding add_lines
add_lines-none file name zero lineno m small = refl
add_lines-none file name (suc fuel) lineno m small = ground (
  arith,
  add_lines-none file name fuel ((lineno + 1) % 2 ^ 32) (add_var (varpeek_key file lineno) name m)
      (omega arith),
)
