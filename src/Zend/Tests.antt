-- ===== src/Zend/Tests.antt =====
-- The hash, the layouts and the printing of values at concrete inputs.
use mathlib.Core.List.{foldl}
use phpspy.Zend.Remote.{bytes, Target, done, return, ◌>>=◌}
use phpspy.Zend.Print.{sprint_zval}
use phpspy.Zend.Bounds.{IsPrinted, sprint_zval-IsPrinted}
use phpspy.Prelude.{
  ℕ, [], ◌∷◌, ◌++◌, set, replicate, ◌==◌, if◌then◌else◌, arith, ◌^◌, ◌≤◌, ◌<◌, ◌%◌, ◌≡◌, refl, true,
}
use phpspy.Prelude.Text.{Text, codes, decimal, decimal_ℤ, snprintf}
use phpspy.Zend.Hash.{times_33, inline_hash, inline_hash-foldl}
use phpspy.Zend.Layout.{x86_64_74}

abbrev name : Text
name = codes "_SERVER_X"

inline_hash-foldl_example :
    (inline_hash true name % 2 ^ 63 ≡ foldl (times_33 true) 5381 name % 2 ^ 63)
    × (2 ^ 63 ≤ inline_hash true name)
    × (inline_hash true name < 2 ^ 64)
inline_hash-foldl_example = inline_hash-foldl true name (ground arith)

-- A packed array of the numbers 7 and 42: its header is at 256, its elements are at 512.
abbrev long_zval : ℕ → Text
long_zval n = n ∷ replicate 7 0 ++ (4 ∷ replicate 7 0)

abbrev array_header : Text
array_header = set (set (set (replicate 36 0) 8 4) 17 2) 24 2

abbrev process : Target
process = record {
  layout = x86_64_74;
  vm_readv =
      λ k raddr size. bytes (if raddr == 256 then array_header else long_zval 7 ++ long_zval 42);
  print_double = λ b. [];
  leftover = λ n. 0;
  char_signed = true;
  executor_globals_addr = 0;
  sapi_globals_addr = 0;
  alloc_globals_addr = 0;
}

abbrev array_zval : Text
array_zval = 0 ∷ 1 ∷ replicate 6 0 ++ (7 ∷ replicate 7 0)

printed_array : (sprint_zval 2 process array_zval 256 0).0 ≡ done (codes "0=7,1=42")
unfolding sprint_zval ◌>>=◌ decimal return snprintf decimal_ℤ
printed_array = refl

cut_array : (sprint_zval 2 process array_zval 8 0).0 ≡ done (codes "0=7,1=4")
unfolding sprint_zval ◌>>=◌ decimal return snprintf decimal_ℤ
cut_array = refl

sprint_zval-IsPrinted_example : IsPrinted 256 (sprint_zval 2 process array_zval 256 0).0
sprint_zval-IsPrinted_example = sprint_zval-IsPrinted 2 process array_zval 256 0 (omega arith)
