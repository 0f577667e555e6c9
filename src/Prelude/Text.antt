-- ===== src/Prelude/Text.antt =====
-- C strings as lists of bytes without the closing NUL, and what `printf` makes of numbers.
use Prim.Native.Nat.{ℕ, zero, suc, ◌+◌, ◌-◌, ◌/◌, ◌%◌}
use Prim.Native.Char.{code}
use Prim.Native.String.{String}
use mathlib.Core.Bool.{Bool, true, false, ◌&&◌, ◌||◌}
use mathlib.Core.List.{List, [], ◌∷◌}
use phpspy.Prelude.Int.{ℤ, pos, negsuc}
use phpspy.Prelude.Tests.{ltb, ◌==◌, if◌then◌else◌}
use phpspy.Prelude.Lists.{take}

abbrev pub Text : Type 0
Text = List ℕ

-- The bytes of an ASCII literal.
abbrev pub codes : String → Text
codes String.[] = []
codes (String.◌∷◌ c s) = code c ∷ codes s

-- `strcmp (s, t) == 0`
unfoldable pub text_eq : Text → Text → Bool
text_eq [] [] = true
text_eq [] (d ∷ t) = false
text_eq (c ∷ s) [] = false
text_eq (c ∷ s) (d ∷ t) = (c == d) && text_eq s t

-- `strstr (s, "%d") != NULL`
unfoldable pub has_percent_d : Text → Bool
has_percent_d [] = false
has_percent_d (c ∷ []) = false
has_percent_d (c ∷ d ∷ s) = ((c == b'%') && (d == b'd')) || has_percent_d (d ∷ s)

-- The digits of `n` in front of `acc`. The fuel `n + 1` is enough: every round divides by ten.
unfoldable pub digits_onto : ℕ → ℕ → Text → Text
digits_onto zero n acc = acc
digits_onto (suc f) n acc =
    let rest = digits_onto f (n / 10) ((48 + n % 10) ∷ acc) in
    if ltb n 10 then (48 + n) ∷ acc else rest

-- `%d`, `%lu` of a number that is not negative.
unfoldable pub decimal : ℕ → Text
unfolding digits_onto
decimal n = digits_onto (n + 1) n []

-- `%d` of an `int`.
unfoldable pub decimal_ℤ : ℤ → Text
unfolding decimal
decimal_ℤ (pos n) = decimal n
decimal_ℤ (negsuc n) = b'-' ∷ decimal (suc n)

-- What `snprintf` leaves in a buffer of `size` bytes, without the NUL.
unfoldable pub snprintf : ℕ → Text → Text
snprintf size s = take (size - 1) s

-- A byte array as a C string: up to its NUL.
unfoldable pub c_str : Text → Text
c_str [] = []
c_str (c ∷ cs) = let rest = c_str cs in if c == 0 then [] else c ∷ rest
