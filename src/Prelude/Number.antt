-- ===== src/Prelude/Number.antt =====
-- What `strtoull` and `strtol` read in base ten: leading white space, a sign, digits.
use Prim.Native.Nat.{ℕ, zero, suc, ◌+◌, ◌-◌, ◌*◌, ◌/◌, ◌%◌, ◌^◌, ◌<◌, ◌≤◌, min}
use mathlib.Core.Path.{◌≡◌, refl, sym, ap, ◌∙◌, subst}
use mathlib.Core.Logic.{◌⊎◌, inl, inr}
use mathlib.Core.Bool.{Bool, true, false, ◌&&◌, ◌||◌}
use mathlib.Core.List.{[], ◌∷◌, ◌++◌}
use native.Mathlib.Omega.{arith}
unfoldable use native.Mathlib.Decide.{dec_lt, ℕ_discrete}
use phpspy.Prelude.Tests.{ltb, leb, ◌==◌, if◌then◌else◌}
use phpspy.Prelude.Lists.{length, drop, length-append, length-drop, drop-append}
use phpspy.Prelude.Text.{Text, decimal, digits_onto}
use phpspy.Prelude.Int.{ℤ, pos, sub_ℕ}

abbrev pub is_space : ℕ → Bool
is_space c = (c == 32) || (leb 9 c && leb c 13)

abbrev pub is_digit : ℕ → Bool
is_digit c = leb 48 c && leb c 57

abbrev pub is_sign : ℕ → Bool
is_sign c = (c == b'+') || (c == b'-')

-- How many bytes of white space a text starts with.
unfoldable pub spaces : Text → ℕ
spaces [] = 0
spaces (c ∷ t) = let n = spaces t in if is_space c then suc n else 0

-- The number that the digits in front of `t` spell, read after `v`, and how many digits they are.
unfoldable pub scan : ℕ → ℕ → Text → ℕ × ℕ
scan v k [] = (v, k)
scan v k (c ∷ t) = let r = scan (v * 10 + (c - 48)) (suc k) t in if is_digit c then r else (v, k)

-- A number without bounds, whether it has a minus sign, and how many bytes it takes: none when the
-- text starts with no number.
pub record Scanned : Type 0 where
  pub negative : Bool
  pub value : ℕ
  pub used : ℕ

-- A sign and the digits behind it.
unfoldable pub scan_signed : Text → Scanned
unfolding scan
scan_signed [] = record { negative = false; value = 0; used = 0 }
scan_signed (c ∷ t) =
    let s = if is_sign c then scan 0 0 t else scan 0 0 (c ∷ t) in
    record {
      negative = c == b'-';
      value = s.0;
      used = if s.1 == 0 then 0 else (if is_sign c then 1 else 0) + s.1;
    }

-- What `s` is behind `n` bytes of white space.
abbrev behind : ℕ → Scanned → Scanned
behind n s =
    if s.used == 0
    then record { negative = false; value = 0; used = 0 }
    else record s { used = n + s.used }

unfoldable pub scan_number : Text → Scanned
scan_number t = behind (spaces t) (scan_signed (drop (spaces t) t))

abbrev pub ulong_max : ℕ
ulong_max = 18446744073709551615

abbrev to_ulong : Scanned → ℕ × ℕ
to_ulong s = (
  if ltb ulong_max s.value
      then ulong_max
      else if s.negative
      then (2 ^ 64 - s.value) % 2 ^ 64
      else s.value,
  s.used,
)

-- The value and the bytes taken: too large a number is ulong_max, a negative one wraps.
unfoldable pub strtoull : Text → ℕ × ℕ
strtoull t = to_ulong (scan_number t)

-- The value, kept between LONG_MIN and LONG_MAX, and the bytes taken.
unfoldable pub strtol : Text → ℤ × ℕ
unfolding scan_number
strtol t =
    let s = scan_number t in
    (if s.negative then sub_ℕ 0 (min s.value (2 ^ 63)) else pos (min s.value (2 ^ 63 - 1)), s.used)

abbrev pub is_hex : ℕ → Bool
is_hex c = is_digit c || ((leb 65 c && leb c 70) || (leb 97 c && leb c 102))

abbrev pub hex_value : ℕ → ℕ
hex_value c = if is_digit c then c - 48 else if leb 97 c then c - 87 else c - 55

-- The number that hexadecimal digits spell.
unfoldable pub scan_16 : ℕ → Text → ℕ
scan_16 v [] = v
scan_16 v (c ∷ t) = let r = scan_16 (v * 16 + hex_value c) t in if is_hex c then r else v

-- An optional 0x, which counts only in front of a digit.
unfoldable pub skip_0x : Text → Text
skip_0x (z ∷ x ∷ c ∷ t) =
    if (z == b'0') && (((x == b'x') || (x == b'X')) && is_hex c) then c ∷ t else z ∷ x ∷ c ∷ t
skip_0x t = t

unfoldable pub unsigned_16 : Text → Bool × ℕ
unfolding scan_16 skip_0x
unsigned_16 [] = (false, 0)
unsigned_16 (c ∷ t) = (c == b'-', scan_16 0 (if is_sign c then skip_0x t else skip_0x (c ∷ t)))

-- `strtoull (t, NULL, 16)`
unfoldable pub strtoull_16 : Text → ℕ
unfolding spaces unsigned_16
strtoull_16 t =
    let r = unsigned_16 (drop (spaces t) t) in
    if ltb ulong_max r.1 then ulong_max else if r.0 then (2 ^ 64 - r.1) % 2 ^ 64 else r.1

-- What stands behind a byte that is no digit is not read.
pub scan-cut :
    (v k : ℕ) (s : Text) (c : ℕ) (t : Text)
    → is_digit c ≡ false
    → scan v k (s ++ c ∷ t) ≡ scan v k (s ++ c ∷ [])
unfolding scan
scan-cut v k [] c t h = ground arith
scan-cut v k (d ∷ s) c t h = ground (arith, scan-cut (v * 10 + (d - 48)) (suc k) s c t h)

pub spaces-cut : (s t : Text) → spaces s < length s → spaces (s ++ t) ≡ spaces s
unfolding spaces
spaces-cut [] t h = absurd (omega arith)
spaces-cut (c ∷ s) t h = ground (arith, spaces-cut s t)

-- `scan` reads back what `decimal` prints.
pub scan-digits_onto :
    (f n : ℕ) (acc : Text)
    → n < f
    → (k : ℕ) × ((j : ℕ) → scan 0 j (digits_onto f n acc) ≡ scan n (k + j) acc)
      × (length (digits_onto f n acc) ≡ k + length acc)
unfolding scan digits_onto
scan-digits_onto zero n acc h = absurd (omega arith)
scan-digits_onto (suc f) n acc h = elim (dec_lt n 10) [
  | yes small ↦ (1, (λ j. ground arith), ground arith)
  | no large ↦
      let (k, read, len) = scan-digits_onto f (n / 10) ((48 + n % 10) ∷ acc) (omega arith) in
      (suc k, (λ j. ground (arith, read j)), ground (arith, len))
]

digits_onto-append :
    (f n : ℕ) (acc t : Text) → digits_onto f n (acc ++ t) ≡ digits_onto f n acc ++ t
unfolding digits_onto
digits_onto-append zero n acc t = refl
digits_onto-append (suc f) n acc t =
    ground (arith, digits_onto-append f (n / 10) ((48 + n % 10) ∷ acc) t)

-- What `decimal` prints starts with a digit.
head-digits_onto :
    (f n : ℕ) (acc : Text)
    → n < f
    → (c : ℕ) × (t : Text) × (digits_onto f n acc ≡ c ∷ t) × (is_digit c ≡ true)
unfolding digits_onto
head-digits_onto zero n acc h = absurd (omega arith)
head-digits_onto (suc f) n acc h = elim (dec_lt n 10) [
  | yes small ↦ (48 + n, acc, ground arith, ground arith)
  | no large ↦
      let (c, t, e, digit) = head-digits_onto f (n / 10) ((48 + n % 10) ∷ acc) (omega arith) in
      (c, t, ground (arith, e), digit)
]

pub head-decimal : (n : ℕ) → (c : ℕ) × (t : Text) × (decimal n ≡ c ∷ t) × (is_digit c ≡ true)
unfolding decimal
head-decimal n = head-digits_onto (n + 1) n [] (omega arith)

pub scan-decimal :
    (n c : ℕ) (t : Text)
    → is_digit c ≡ false
    → scan 0 0 (decimal n ++ c ∷ t) ≡ (n, length (decimal n))
unfolding decimal scan
scan-decimal n c t h =
    let (k, read, len) = scan-digits_onto (n + 1) n (c ∷ t) (omega arith) in
    let same = digits_onto-append (n + 1) n [] (c ∷ t) in
    let count = length-append (digits_onto (n + 1) n []) (c ∷ t) in
    sym (ap (scan 0 0) same) ∙ read 0 ∙ ground (arith, len, ap length same, count)

pub scan_signed-cut :
    (s : Text) (c : ℕ) (t : Text)
    → 0 < length s
    → is_digit c ≡ false
    → scan_signed (s ++ c ∷ t) ≡ scan_signed (s ++ c ∷ [])
unfolding scan_signed
scan_signed-cut [] c t h n = absurd (omega arith)
scan_signed-cut (d ∷ s) c t h n = ground (arith, scan-cut 0 0 s c t n, scan-cut 0 0 (d ∷ s) c t n)

strtoull-scan :
    (d : ℕ) (t : Text) (v k : ℕ)
    → is_digit d ≡ true
    → v ≤ ulong_max
    → scan 0 0 (d ∷ t) ≡ (v, suc k)
    → strtoull (d ∷ t) ≡ (v, suc k)
unfolding strtoull scan_number scan_signed spaces
strtoull-scan d t v k digit small e = ground (arith, e)

-- A number, and what is not a digit behind it.
pub strtoull-decimal :
    (n c : ℕ) (t : Text)
    → n ≤ ulong_max
    → is_digit c ≡ false
    → strtoull (decimal n ++ c ∷ t) ≡ (n, length (decimal n))
strtoull-decimal n c t small h =
    let (d, r, e, digit) = head-decimal n in
    subst (λ ds. scan 0 0 (ds ++ c ∷ t) ≡ (n, length ds) → strtoull (ds ++ c ∷ t) ≡ (n, length ds))
      (sym e) (strtoull-scan d (r ++ c ∷ t) n (length r) digit small) (scan-decimal n c t h)

-- A text that is not all white space is read up to a byte that is no digit.
pub scan_number-cut :
    (s : Text) (c : ℕ) (t : Text)
    → spaces s < length s
    → is_digit c ≡ false
    → scan_number (s ++ c ∷ t) ≡ scan_number (s ++ c ∷ [])
unfolding scan_number
scan_number-cut s c t h n = rw (
  spaces-cut s (c ∷ t) h,
  spaces-cut s (c ∷ []) h,
  drop-append (spaces s) s (c ∷ t) (omega arith),
  drop-append (spaces s) s (c ∷ []) (omega arith),
  scan_signed-cut (drop (spaces s) s) c t (omega (arith, length-drop (spaces s) s)) n,
)

-- The digits that `scan` counts lie before the first byte that is no digit.
scan-le :
    (v k : ℕ) (s : Text) (c : ℕ) (t : Text)
    → is_digit c ≡ false
    → (scan v k (s ++ c ∷ t)).1 ≤ k + length s
unfolding scan
scan-le v k [] c t h = ground arith
scan-le v k (d ∷ s) c t h = ground (arith, scan-le (v * 10 + (d - 48)) (suc k) s c t h)

scan_signed-le :
    (s : Text) (c : ℕ) (t : Text)
    → 0 < length s
    → is_digit c ≡ false
    → (scan_signed (s ++ c ∷ t)).used ≤ length s
unfolding scan_signed
scan_signed-le [] c t h n = absurd (omega arith)
scan_signed-le (d ∷ s) c t h n = ground (arith, scan-le 0 0 s c t n, scan-le 0 0 (d ∷ s) c t n)

used-behind : (n k : ℕ) (s : Scanned) → n + s.used ≤ k → (behind n s).used ≤ k
used-behind n k s h = ground arith

pub strtoull-le :
    (s : Text) (c : ℕ) (t : Text)
    → spaces s < length s
    → is_digit c ≡ false
    → (strtoull (s ++ c ∷ t)).1 ≤ length s
unfolding strtoull scan_number
strtoull-le s c t h n =
    let len = length-drop (spaces s) s in
    let le : (scan_signed (drop (spaces s) s ++ c ∷ t)).used ≤ length (drop (spaces s) s) =
      scan_signed-le (drop (spaces s) s) c t (omega (arith, len)) n in
    rw (spaces-cut s (c ∷ t) h, drop-append (spaces s) s (c ∷ t) (omega arith))
      (used-behind (spaces s) (length s) (scan_signed (drop (spaces s) s ++ c ∷ t))
        (omega (arith, len, le)))

pub strtoull-cut :
    (s : Text) (c : ℕ) (t : Text)
    → spaces s < length s
    → is_digit c ≡ false
    → strtoull (s ++ c ∷ t) ≡ strtoull (s ++ c ∷ [])
unfolding strtoull
strtoull-cut s c t h n = rw (scan_number-cut s c t h n)

-- All white space: there is no number, or it stands further on.
spaces-all : (s t : Text) → length s ≤ spaces s → length s ≤ spaces (s ++ t)
unfolding spaces
spaces-all [] t h = omega arith
spaces-all (c ∷ s) t h = ground (arith, spaces-all s t)

to_ulong-behind :
    (n k : ℕ) (s : Scanned)
    → k ≤ n
    → (to_ulong (behind n s) ≡ (0, 0)) ⊎ (k < (to_ulong (behind n s)).1)
to_ulong-behind n k s h = elim (ℕ_discrete s.used 0) [
  | yes e ↦ inl (ground arith)
  | no ne ↦ inr (ground arith)
]

pub strtoull-all :
    (s t : Text)
    → length s ≤ spaces s
    → (strtoull (s ++ t) ≡ (0, 0)) ⊎ (length s < (strtoull (s ++ t)).1)
unfolding strtoull scan_number
strtoull-all s t h =
    to_ulong-behind (spaces (s ++ t)) (length s) (scan_signed (drop (spaces (s ++ t)) (s ++ t)))
      (spaces-all s t h)
