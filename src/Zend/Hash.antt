-- ===== src/Zend/Hash.antt =====
-- `phpspy_zend_inline_hash_func` of phpspy.c, the hash by which PHP finds a string key.
use phpspy.Prelude.{
  ℕ, ◌+◌, ◌-◌, ◌*◌, ◌%◌, ◌^◌, ◌≤◌, ◌<◌, ◌≡◌, refl, ap, ltb, leb, if◌then◌else◌, Bool, ◌&&◌, [], ◌∷◌,
  arith, All, ◌∙◌,
}
use phpspy.Prelude.Text.{Text}
use mathlib.Core.List.{foldl}

-- A `char` in 64-bit arithmetic: sign-extended where `char` is signed (x86_64), and as it is where
-- it is not (aarch64).
unfoldable pub widen : Bool → ℕ → ℕ
widen signed c = if signed && leb 128 c then 2 ^ 64 - 256 + c else c

-- `((hash << 5) + hash) + *str++`
unfoldable pub hash_step : Bool → ℕ → ℕ → ℕ
hash_step signed h c = (h * 32 + h + widen signed c) % 2 ^ 64

-- The `switch` over what is left, less than eight bytes, each case falling through to the next.
unfoldable pub hash_tail : Bool → ℕ → Text → ℕ
hash_tail signed h [] = h
hash_tail signed h (c ∷ cs) = hash_tail signed (hash_step signed h c) cs

-- The loop takes eight bytes a round.
unfoldable pub hash_loop : Bool → ℕ → Text → ℕ
hash_loop signed h (a ∷ b ∷ c ∷ d ∷ e ∷ f ∷ g ∷ i ∷ rest) =
    let step = hash_step signed in
    hash_loop signed (step (step (step (step (step (step (step (step h a) b) c) d) e) f) g) i) rest
hash_loop signed h rest = hash_tail signed h rest

-- `hash | 0x8000000000000000` of a 64-bit number.
abbrev pub set_top_bit : ℕ → ℕ
set_top_bit h = if ltb h (2 ^ 63) then h + 2 ^ 63 else h

unfoldable pub inline_hash : Bool → Text → ℕ
inline_hash signed str = set_top_bit (hash_loop signed 5381 str)

hash_tail-foldl :
    (signed : Bool) (h : ℕ) (cs : Text) → hash_tail signed h cs ≡ foldl (hash_step signed) h cs
unfolding hash_tail
hash_tail-foldl signed h [] = refl
hash_tail-foldl signed h (c ∷ cs) = hash_tail-foldl signed (hash_step signed h c) cs

hash_loop-foldl :
    (signed : Bool) (h : ℕ) (cs : Text) → hash_loop signed h cs ≡ foldl (hash_step signed) h cs
unfolding hash_loop
hash_loop-foldl signed h (a ∷ b ∷ c ∷ d ∷ e ∷ f ∷ g ∷ i ∷ rest) =
    hash_loop-foldl signed
      (hash_step signed
        (hash_step signed
          (hash_step signed
            (hash_step signed
              (hash_step signed (hash_step signed (hash_step signed (hash_step signed h a) b) c) d)
              e)
            f)
          g)
        i)
      rest
hash_loop-foldl signed h rest = hash_tail-foldl signed h rest

hash_step-lt : (signed : Bool) (h c : ℕ) → hash_step signed h c < 2 ^ 64
unfolding hash_step
hash_step-lt signed h c = omega arith

foldl-lt : (signed : Bool) (h : ℕ) (cs : Text) → h < 2 ^ 64 → foldl (hash_step signed) h cs < 2 ^ 64
foldl-lt signed h [] lt = lt
foldl-lt signed h (c ∷ cs) lt = foldl-lt signed (hash_step signed h c) cs (hash_step-lt signed h c)

-- A round of the plain loop: `h * 33 + c`, where a signed `char` from 128 on is a negative number.
abbrev pub times_33 : Bool → ℕ → ℕ → ℕ
times_33 signed h c = (h * 33 + (if signed && leb 128 c then 2 ^ 64 - (256 - c) else c)) % 2 ^ 64

foldl-times_33 :
    (signed : Bool) (h : ℕ) (cs : Text)
    → All (λ c. c < 256) cs
    → foldl (hash_step signed) h cs ≡ foldl (times_33 signed) h cs
unfolding hash_step widen
foldl-times_33 signed h [] small = refl
foldl-times_33 signed h (c ∷ cs) (byte, small) =
    let one : hash_step signed h c ≡ times_33 signed h c = ground arith in
    ap (λ k. foldl (hash_step signed) k cs) one
    ∙ foldl-times_33 signed (times_33 signed h c) cs small

set_top_bit_lem : (h : ℕ) → h < 2 ^ 64 → set_top_bit h % 2 ^ 63 ≡ h % 2 ^ 63
set_top_bit_lem h lt = ground arith

-- On bytes, the 63 low bits of the unrolled hash are those of the plain loop `h = h * 33 + c` from
-- 5381, with `c` as a signed or unsigned `char`, modulo 2^64; and the top bit is set: the hash is a
-- 64-bit number that is not below 2^63, so never 0.
pub inline_hash-foldl :
    (signed : Bool) (str : Text)
    → All (λ c. c < 256) str
    → (inline_hash signed str % 2 ^ 63 ≡ foldl (times_33 signed) 5381 str % 2 ^ 63)
      × (2 ^ 63 ≤ inline_hash signed str)
      × (inline_hash signed str < 2 ^ 64)
unfolding inline_hash
inline_hash-foldl signed str small = (
  set_top_bit_lem _ (rw (hash_loop-foldl signed 5381 str) (foldl-lt signed 5381 str (omega arith)))
      ∙ ap (λ h. h % 2 ^ 63)
          (hash_loop-foldl signed 5381 str ∙ foldl-times_33 signed 5381 str small),
  ground arith,
  ground (arith, hash_loop-foldl signed 5381 str, foldl-lt signed 5381 str),
)
