-- ===== src/Top/Frames.antt =====
-- A frame that the output handler prints is counted in its function's row, and in no other.
use phpspy.Prelude.{
  ℕ, zero, suc, ◌+◌, ◌/◌, ◌%◌, ◌^◌, ◌≤◌, ◌<◌, ◌≡◌, inl, inr, refl, sym, ap, ◌∙◌, ltb, ◌==◌,
  if◌then◌else◌, ◌&&◌, false, Option, none, some, List, [], ◌∷◌, ◌++◌, arith, length, take,
  Bool-cases, length-append,
}
use mathlib.Core.Path.{subst}
use mathlib.Core.List.{append_assoc}
use phpspy.Prelude.Text.{Text, codes, text_eq, c_str, decimal, decimal_ℤ, digits_onto, snprintf}
use phpspy.Prelude.Int.{ℤ, pos, negsuc}
use phpspy.Prelude.Number.{ulong_max}
use phpspy.Prelude.Uthash.{Uthash, eq_of_text_eq, text_eq_refl}
use phpspy.Event.{Loc, Frame}
use phpspy.Fout.Events.{sprint_loc, frame_text}
use phpspy.Prelude.Bytes.{has, has-append}
use phpspy.Top.{
  func_size, FuncEntry, Top, bump, new_entry, parse_line, accept, entry_of, bump_all, handle_line,
  intern, count_frame,
}
use phpspy.Top.Lines.{parse_line-decimal}
use phpspy.Top.Totals.{
  sum, at, stray, IsCounted, sum-append, sum-map_mod, sum-add, sum-le, entry_of-IsCounted,
}

-- What an entry adds to the inclusive count of a function.
abbrev pub inclusive : Text → FuncEntry → ℕ
inclusive k e = if text_eq e.func k then e.count_incl else 0

abbrev hit : Text → ℕ → FuncEntry → ℕ
hit k a e = if (e.addr == a) && text_eq e.func k then 1 else 0

inclusive-bump :
    (n a : ℕ) (k : Text) (e : FuncEntry)
    → inclusive k (bump n a e) % 2 ^ 64 ≡ (inclusive k e + hit k a e) % 2 ^ 64
unfolding bump
inclusive-bump n a k e = ground arith

hit-stray :
    (func : Text) (a : ℕ) (es : List FuncEntry)
    → sum (hit func a) es + sum (stray func a) es ≡ sum (at a) es
hit-stray func a [] = omega arith
hit-stray func a (e ∷ es) = ground (arith, hit-stray func a es)

hit-le :
    (func k : Text) (a : ℕ) → text_eq func k ≡ false → (e : FuncEntry) → hit k a e ≤ stray func a e
hit-le func k a ne e =
    ground (arith, eq_of_text_eq e.func k, eq_of_text_eq e.func func, text_eq_refl e.func)

-- The entry that is counted is the one that has the function.
sum-hit :
    (func k : Text) (a : ℕ) (es : List FuncEntry)
    → sum (at a) es ≡ 1
    → sum (stray func a) es ≡ 0
    → sum (hit k a) es ≡ (if text_eq func k then 1 else 0)
sum-hit func k a es one none_stray = elim (Bool-cases (text_eq func k)) [
  | inl e ↦
      subst (λ k. sum (hit k a) es ≡ (if text_eq func k then 1 else 0)) (eq_of_text_eq func k e)
        (ground (arith, hit-stray func a es, text_eq_refl func))
  | inr ne ↦ ground (arith, sum-le (hit k a) (stray func a) (hit-le func k a ne) es)
]

take_all : (t : Text) (n : ℕ) → length t ≤ n → take n t ≡ t
take_all [] zero h = refl
take_all [] (suc n) h = refl
take_all (c ∷ t) zero h = absurd (omega arith)
take_all (c ∷ t) (suc n) h = ap (λ r. c ∷ r) (take_all t n (omega arith))

-- What the output handler prints has no NUL.
c_str_no_nul : (t : Text) → has 0 t ≡ false → c_str t ≡ t
unfolding c_str
c_str_no_nul [] h = refl
c_str_no_nul (c ∷ t) h = ground (arith, c_str_no_nul t)

has-c_str : (t : Text) → has 0 (c_str t) ≡ false
unfolding c_str
has-c_str [] = refl
has-c_str (c ∷ t) = ground (arith, has-c_str t)

has-digits_onto : (f n : ℕ) (acc : Text) → has 0 (digits_onto f n acc) ≡ has 0 acc
unfolding digits_onto
has-digits_onto zero n acc = refl
has-digits_onto (suc f) n acc = ground (arith, has-digits_onto f (n / 10) ((48 + n % 10) ∷ acc))

has-decimal_ℤ : (z : ℤ) → has 0 (decimal_ℤ z) ≡ false
unfolding decimal_ℤ decimal
has-decimal_ℤ (pos n) = has-digits_onto (n + 1) n []
has-decimal_ℤ (negsuc n) = ground (arith, has-digits_onto (suc n + 1) (suc n) [])

c_str-sprint_loc : (l : Loc) → c_str (sprint_loc l) ≡ sprint_loc l
unfolding sprint_loc
c_str-sprint_loc l =
    let line = b':' ∷ decimal_ℤ l.lineno in
    let file = b' ' ∷ (c_str l.file ++ line) in
    let colons = if ltb 0 (length l.class) then codes "::" else [] in
    c_str_no_nul (sprint_loc l) (
      ground (
        arith,
        has-append 0 (c_str l.class) (colons ++ (c_str l.func ++ file)),
        has-append 0 colons (c_str l.func ++ file),
        has-append 0 (c_str l.func) file,
        has-append 0 (c_str l.file) line,
        has-c_str l.class,
        has-c_str l.func,
        has-c_str l.file,
        has-decimal_ℤ l.lineno,
      ))

sprint_loc-nonempty : (l : Loc) → 0 < length (sprint_loc l)
unfolding sprint_loc
sprint_loc-nonempty l =
    let file = b' ' ∷ (c_str l.file ++ (b':' ∷ decimal_ℤ l.lineno)) in
    let colons = if ltb 0 (length l.class) then codes "::" else [] in
    omega (
      arith,
      length-append (c_str l.class) (colons ++ (c_str l.func ++ file)),
      length-append colons (c_str l.func ++ file),
      length-append (c_str l.func) file,
    )

c_str-short :
    (func : Text)
    → c_str func ≡ func
    → length func < func_size
    → c_str (snprintf func_size func) ≡ func
unfolding snprintf
c_str-short func h short = rw (take_all func 255 (omega arith)) h

module _ (hash : Uthash) where
  entry_of-found :
      (func : Text) (o : Option ℕ) (s : Top hash)
      → hash.find ℕ func s.func_map ≡ o
      → c_str (snprintf func_size func) ≡ func
      → let r = entry_of hash func o s in hash.find ℕ func r.1.func_map ≡ some r.0
  unfolding entry_of
  entry_of-found func (some a) s e same = e
  entry_of-found func none s e same = ground (
    arith,
    hash.find-put ℕ (c_str (snprintf func_size func)) func (length s.func_list) s.func_map,
    text_eq_refl func,
    same,
  )

  entry_of-inclusive :
      (func k : Text) (o : Option ℕ) (s : Top hash)
      → sum (inclusive k) (entry_of hash func o s).1.func_list ≡ sum (inclusive k) s.func_list
  unfolding entry_of
  entry_of-inclusive func k (some a) s = refl
  entry_of-inclusive func k none s =
      ground
        (arith, sum-append (inclusive k) s.func_list (new_entry (length s.func_list) func ∷ []))

  bump_all-inclusive :
      (n : ℕ) (func k : Text) (a : ℕ) (s : Top hash)
      → IsCounted hash s
      → a < length s.func_list
      → hash.find ℕ func s.func_map ≡ some a
      → sum (inclusive k) (bump_all hash n (a, s)).func_list % 2 ^ 64
        ≡ (sum (inclusive k) s.func_list + (if text_eq func k then 1 else 0)) % 2 ^ 64
  unfolding bump_all
  bump_all-inclusive n func k a s v small e =
      let one = v.entry_at a in
      let hits = sum-hit func k a s.func_list (ground (arith, one, small)) (v.named func a e) in
      sum-map_mod (inclusive k) _ (bump n a) (inclusive-bump n a k) s.func_list
      ∙ ap (λ m. m % 2 ^ 64)
          (sum-add (inclusive k) (hit k a) s.func_list
            ∙ ap (λ m. sum (inclusive k) s.func_list + m) hits)

  accept-inclusive :
      (n : ℕ) (func k : Text) (s : Top hash)
      → IsCounted hash s
      → c_str (snprintf func_size func) ≡ func
      → sum (inclusive k) (accept hash (some (n, func)) s).func_list % 2 ^ 64
        ≡ (sum (inclusive k) s.func_list + (if text_eq func k then 1 else 0)) % 2 ^ 64
  unfolding accept count_frame intern
  accept-inclusive n func k s v same =
      let o = hash.find ℕ func s.func_map in
      let r = entry_of hash func o s in
      let (small, w) = entry_of-IsCounted hash func o s (v.found func) v in
      bump_all-inclusive n func k r.0 r.1 w small (entry_of-found func o s refl same)
      ∙ ap (λ m. (m + (if text_eq func k then 1 else 0)) % 2 ^ 64) (entry_of-inclusive func k o s)

  -- When the child's line is a frame as the output handler prints it, of at most 255 bytes of
  -- location, then the inclusive count of that location grows by one, modulo 2^64, and that of
  -- every other text is the same, whatever follows the line in the buffer.
  pub handle_line-frame_text :
      (f : Frame) (t k : Text) (s : Top hash)
      → IsCounted hash s
      → f.depth ≤ ulong_max
      → length (sprint_loc f.loc) < func_size
      → sum (inclusive k) (handle_line hash (frame_text f ++ t) (length (frame_text f)) s).func_list
          % 2 ^ 64
        ≡ (sum (inclusive k) s.func_list + (if text_eq (sprint_loc f.loc) k then 1 else 0)) % 2 ^ 64
  unfolding handle_line frame_text
  handle_line-frame_text f t k s v small short =
      let func = sprint_loc f.loc in
      let same = c_str-short func (c_str-sprint_loc f.loc) short in
      let parsed = parse_line-decimal f.depth func t small (sprint_loc-nonempty f.loc) short in
      subst
        (λ o.
          sum (inclusive k) (accept hash o s).func_list % 2 ^ 64
          ≡ (sum (inclusive k) s.func_list + (if text_eq func k then 1 else 0)) % 2 ^ 64)
        (sym (
          ap (λ l. parse_line l (length (frame_text f)))
            (append_assoc (decimal f.depth) (b' ' ∷ func) t)
          ∙ ap (λ m. parse_line (decimal f.depth ++ b' ' ∷ (func ++ t)) m)
              (omega (arith, length-append (decimal f.depth) (b' ' ∷ func)))
          ∙ parsed))
        (accept-inclusive f.depth func k s v same)
