-- ===== src/Top/Lines.antt =====
-- What `handle_line` reads of a line of the child's output.
use phpspy.Prelude.{
  ℕ, zero, suc, ◌+◌, ◌-◌, ◌≤◌, ◌<◌, ◌≡◌, ◌⊎◌, inl, inr, refl, sym, ap, ◌∙◌, true, none, some, [],
  ◌∷◌, ◌++◌, arith, length, take, drop, get_or, length-drop, drop-append, take-append, dec_lt,
}
use phpspy.Prelude.Text.{Text, decimal, digits_onto}
use phpspy.Prelude.Number.{
  is_space, is_digit, spaces, strtoull, strtoull-le, strtoull-cut, strtoull-all, strtoull-decimal,
  head-decimal, ulong_max,
}
use phpspy.Top.{func_size, accept_line, parse_line}

get_or-append :
    (d : ℕ) (s t u : Text) (c i : ℕ)
    → i ≤ length s
    → get_or (s ++ c ∷ t) i d ≡ get_or (s ++ c ∷ u) i d
get_or-append d [] t u c zero h = refl
get_or-append d [] t u c (suc i) h = absurd (omega arith)
get_or-append d (a ∷ s) t u c zero h = refl
get_or-append d (a ∷ s) t u c (suc i) h = get_or-append d s t u c i (omega arith)

-- The bytes of the function lie in the line.
take-drop-append :
    (i k : ℕ) (s t : Text) → i + k ≤ length s → take k (drop i (s ++ t)) ≡ take k (drop i s)
take-drop-append i k s t h =
    rw
      (drop-append i s t (omega arith), take-append k (drop i s) t (omega (arith, length-drop i s)))

head_of_spaces : (s : Text) → 0 < length s → length s ≤ spaces s → is_space (get_or s 0 0) ≡ true
unfolding spaces
head_of_spaces [] h n = absurd (omega arith)
head_of_spaces (c ∷ s) h n = ground arith

accept_line-blank :
    (c : ℕ) (s t : Text) (n : ℕ × ℕ)
    → is_space c ≡ true
    → (n ≡ (0, 0)) ⊎ (suc (length s) < n.1)
    → accept_line (c ∷ (s ++ t)) (suc (length s)) n ≡ none
unfolding accept_line
accept_line-blank c s t n h (inl e) = rw e (ground arith)
accept_line-blank c s t n h (inr far) = ground arith

-- A line of white space only is no frame, whatever follows it.
parse_line-blank : (s t : Text) → length s ≤ spaces s → parse_line (s ++ t) (length s) ≡ none
unfolding parse_line accept_line
parse_line-blank [] t h = ground arith
parse_line-blank (c ∷ s) t h =
    accept_line-blank c s t (strtoull (c ∷ (s ++ t))) (head_of_spaces (c ∷ s) (omega arith) h)
      (strtoull-all (c ∷ s) t h)

accept_line-cut :
    (s t : Text) (c : ℕ) (n : ℕ × ℕ)
    → n.1 ≤ length s
    → accept_line (s ++ c ∷ t) (length s) n ≡ accept_line (s ++ c ∷ []) (length s) n
unfolding accept_line
accept_line-cut s t c n h = elim (dec_lt n.1 (length s)) [
  | no le ↦ ground (arith, get_or-append 0 s t [] c 0, get_or-append 0 s t [] c n.1)
  | yes lt ↦ ground (
    arith,
    get_or-append 0 s t [] c 0,
    get_or-append 0 s t [] c n.1,
    take-drop-append (suc n.1) (length s - suc n.1) s (c ∷ t) (omega arith),
    take-drop-append (suc n.1) (length s - suc n.1) s (c ∷ []) (omega arith),
  )
]

-- What `handle_line` takes from a line is the same whatever follows its newline in the buffer.
pub parse_line-cut :
    (s t : Text) → parse_line (s ++ b'\n' ∷ t) (length s) ≡ parse_line (s ++ b'\n' ∷ []) (length s)
unfolding parse_line
parse_line-cut s t = elim (dec_lt (spaces s) (length s)) [
  | no all ↦
      parse_line-blank s (b'\n' ∷ t) (omega arith)
      ∙ sym (parse_line-blank s (b'\n' ∷ []) (omega arith))
  | yes word ↦ rw (
    accept_line-cut s t b'\n' (strtoull (s ++ b'\n' ∷ t)) (strtoull-le s b'\n' t word refl),
    strtoull-cut s b'\n' t word refl,
  )
]

get_or-length : (d : ℕ) (s t : Text) (c : ℕ) → get_or (s ++ c ∷ t) (length s) d ≡ c
get_or-length d [] t c = refl
get_or-length d (a ∷ s) t c = get_or-length d s t c

drop-length : (s t : Text) (c : ℕ) → drop (suc (length s)) (s ++ c ∷ t) ≡ t
drop-length [] t c = refl
drop-length (a ∷ s) t c = drop-length s t c

take-length : (s t : Text) → take (length s) (s ++ t) ≡ s
take-length [] t = refl
take-length (a ∷ s) t = ap (λ r. a ∷ r) (take-length s t)

accept_line-frame :
    (d : ℕ) (r func t : Text) (n : ℕ)
    → is_digit d ≡ true
    → (n ≡ 0 → d ≡ b'0')
    → 0 < length func
    → length func < func_size
    → accept_line
        ((d ∷ r) ++ b' ' ∷ (func ++ t))
        (length (d ∷ r) + 1 + length func)
        (n, length (d ∷ r))
      ≡ some (n, func)
unfolding accept_line
accept_line-frame d r func t n digit zero_digit nonempty short =
    let space = get_or-length 0 (d ∷ r) (func ++ t) b' ' in
    let rest = drop-length (d ∷ r) (func ++ t) b' ' in
    ground (arith, space, rest, take-length func t)

head_of_zero : (n d : ℕ) (r : Text) → decimal n ≡ d ∷ r → n ≡ 0 → d ≡ b'0'
unfolding decimal digits_onto
head_of_zero zero d r e z = ground (arith, e)
head_of_zero (suc n) d r e z = absurd (omega arith)

-- The line that the output handler prints for a frame is read back.
pub parse_line-decimal :
    (n : ℕ) (func t : Text)
    → n ≤ ulong_max
    → 0 < length func
    → length func < func_size
    → parse_line (decimal n ++ b' ' ∷ (func ++ t)) (length (decimal n) + 1 + length func)
      ≡ some (n, func)
unfolding parse_line
parse_line-decimal n func t small nonempty short =
    let (d, r, e, digit) = head-decimal n in
    rw (strtoull-decimal n b' ' (func ++ t) small refl, e)
      (accept_line-frame d r func t n digit (head_of_zero n d r e) nonempty short)
