-- ===== src/Zend/Bounds.antt =====
-- The printed values fit their buffers.
use phpspy.Prelude.{
  ℕ, zero, suc, ◌+◌, ◌-◌, ◌/◌, ◌%◌, ◌≤◌, ◌≡◌, refl, ap, ltb, leb, ◌==◌, if◌then◌else◌, Bool, true,
  false, List, [], ◌∷◌, ◌++◌, arith, length, length-append, length-take,
}
use phpspy.Prelude.Text.{Text, decimal, snprintf}
use Prim.Native.Nat.{min}
use phpspy.Prelude.Text.{c_str}
use phpspy.Zend.Remote.{Target, Outcome, done, fail, stuck, Read, member, field, sprint_zstring}
use phpspy.Zend.Print.{
  zval_type, type_long, type_double, type_string, type_array, leftovers, key_prefix, drop_comma,
  print_elements, sprint_zarray_packed, sprint_zarray_bucket, sprint_zarray, sprint_zval,
}
use phpspy.Zend.Always.{
  Post, Always, Always-any, Always-return, Always-bind, Always-if, Always-weaken, Always-raise,
  copied,
}

-- The text and its NUL fit into `size` bytes.
abbrev Fits : ℕ → Text → Type 0
Fits size text = length text + 1 ≤ size

sprint_zstring-Fits :
    (t : Target) (rzstring size : ℕ)
    → 1 ≤ size
    → Always (Fits size) (sprint_zstring t rzstring size)
unfolding sprint_zstring
sprint_zstring-Fits t rzstring size one =
    Always-bind (λ b. Unit) (Fits size) _ _ (Always-any _)
      (λ header u.
        Always-weaken (λ b. length b ≡ min (field t.layout.string_len 8 header) (size - 1))
          (Fits size) _ (λ b e. omega arith) (copied t _ _))

length-snprintf : (size : ℕ) (s : Text) → 1 ≤ size → Fits size (snprintf size s)
unfolding snprintf
length-snprintf size s one = omega (arith, length-take (size - 1) s)

length-c_str-le : (s : Text) → length (c_str s) ≤ length s
unfolding c_str
length-c_str-le [] = omega arith
length-c_str-le (c ∷ s) = ground (arith, length-c_str-le s)

length-leftovers : (f : ℕ → ℕ) (n : ℕ) → length (leftovers f n) ≡ n
length-leftovers f zero = refl
length-leftovers f (suc n) = ap suc (length-leftovers f n)

-- A key leaves room for a byte and the NUL.
length-key_prefix :
    (t : Target) (size : ℕ) (key : Text) → 1 ≤ size → length (key_prefix t size key) + 1 ≤ size
unfolding key_prefix
length-key_prefix t size key one = ground (
  arith,
  length-append key (b'=' ∷ []),
  length-append (c_str key) (b'=' ∷ 0 ∷ leftovers t.leftover (length key - length (c_str key) - 1)),
  length-leftovers t.leftover (length key - length (c_str key) - 1),
  length-c_str-le key,
)

length-drop_comma-le : (s : Text) → length (drop_comma s) ≤ length s
length-drop_comma-le [] = omega arith
length-drop_comma-le (c ∷ []) = ground arith
length-drop_comma-le (c ∷ d ∷ s) = ground (arith, length-drop_comma-le (d ∷ s))

-- The loop over elements that each fit.
print_elements-Fits :
    (printer : ℕ → Text → ℕ → Read Text) (total : ℕ)
    → ((i : ℕ) (e : Text) (size : ℕ) → 1 ≤ size → Always (Fits size) (printer i e size))
    → (i : ℕ) (es : List Text) (size : ℕ) (acc : Text) → 1 ≤ size
    → length acc + size ≤ total
    → Always (Fits total) (print_elements printer i es size acc)
print_elements-Fits printer total h i [] size acc one room =
    Always-return (Fits total) _ (omega (arith, length-drop_comma-le acc))
print_elements-Fits printer total h i (e ∷ es) size acc one room =
    Always-bind (Fits size) (Fits total) _ _ (h i e size one) (λ text fit.
      Always-if (Fits total) (length text == 0) _ _
        (λ skip. print_elements-Fits printer total h (i + 1) es size acc one room)
        (λ some_text.
          Always-if (Fits total) (ltb (size - length text) 2) _ _
            (λ full.
              Always-return (Fits total) _
                (omega (arith, length-drop_comma-le (acc ++ text), length-append acc text)))
            (λ space.
              print_elements-Fits printer total h (i + 1) es (size - length text - 1)
                (acc ++ (text ++ (b',' ∷ []))) (ground arith)
                (ground (
                  arith,
                  length-append acc (text ++ (b',' ∷ [])),
                  length-append text (b',' ∷ []),
                )))))

module _ (printer : Text → ℕ → Read Text)
    (h : (zval : Text) (size : ℕ) → 1 ≤ size → Always (Fits size) (printer zval size)) where
  sprint_zarray_packed-Fits :
      (t : Target) (i : ℕ) (zval : Text) (size : ℕ)
      → 1 ≤ size
      → Always (Fits size) (sprint_zarray_packed printer t i zval size)
  unfolding sprint_zarray_packed
  sprint_zarray_packed-Fits t i zval size one =
      let index = decimal i ++ (b'=' ∷ []) in
      Always-if (Fits size) (zval_type t zval == 0) _ _
        (λ undef. Always-return (Fits size) [] (omega arith))
        (λ value.
          Always-if (Fits size) (leb size (length index)) _ _
            (λ full. Always-return (Fits size) [] (omega arith))
            (λ space.
              Always-bind (Fits (size - length index)) (Fits size) _ _
                (h zval (size - length index) (ground arith))
                (λ text fit.
                  Always-return (Fits size) (index ++ text)
                    (ground (arith, length-append index text)))))

  sprint_zarray_bucket-Fits :
      (t : Target) (i : ℕ) (bucket : Text) (size : ℕ)
      → 1 ≤ size
      → Always (Fits size) (sprint_zarray_bucket printer t i bucket size)
  unfolding sprint_zarray_bucket
  sprint_zarray_bucket-Fits t i bucket size one =
      Always-if (Fits size)
        (zval_type t (member t.layout.bucket_val t.layout.zval_size bucket) == 0) _ _
        (λ undef. Always-return (Fits size) [] (omega arith))
        (λ value.
          Always-bind (Fits size) (Fits size) _ _
            (Always-if (Fits size) (field t.layout.bucket_key 8 bucket == 0) _ _
              (λ none_key. Always-return (Fits size) [] (omega arith))
              (λ key.
                Always-bind (λ name. Unit) (Fits size) _ _ (Always-any _)
                  (λ name u. Always-return (Fits size) _ (length-key_prefix t size name one))))
            (λ prefix fit.
              Always-bind (Fits (size - length prefix)) (Fits size) _ _
                (h _ (size - length prefix) (omega arith))
                (λ text fit'.
                  Always-return (Fits size) (prefix ++ text)
                    (omega (arith, length-append prefix text)))))

  sprint_zarray-Fits :
      (t : Target) (rzarray size : ℕ)
      → 1 ≤ size
      → Always (Fits size) (sprint_zarray printer t rzarray size)
  unfolding sprint_zarray
  sprint_zarray-Fits t rzarray size one =
      Always-bind (λ a. Unit) (Fits size) _ _ (Always-any _)
        (λ array u.
          Always-bind (λ a. Unit) (Fits size) _ _ (Always-any _)
            (λ copy v. element ((field t.layout.array_flags 1 array / 4) % 2 == 1) _))
    where
      element :
          (packed : Bool) (es : List Text)
          → Always (Fits size) (
              print_elements
                (if packed then sprint_zarray_packed printer t else sprint_zarray_bucket printer t)
                0
                es
                size
                [])
      element true es =
          print_elements-Fits _ size (sprint_zarray_packed-Fits t) 0 es size [] one (omega arith)
      element false es =
          print_elements-Fits _ size (sprint_zarray_bucket-Fits t) 0 es size [] one (omega arith)

sprint_zval-Always :
    (f : ℕ) (t : Target) (zval : Text) (size : ℕ)
    → 1 ≤ size
    → Always (Fits size) (sprint_zval f t zval size)
unfolding sprint_zval
sprint_zval-Always zero t zval size one = record { always = λ k. tt }
sprint_zval-Always (suc f) t zval size one =
    let kind = zval_type t zval in
    Always-if (Fits size) (kind == type_long) _ _
      (λ long. Always-return (Fits size) _ (length-snprintf size _ one))
      (λ p.
        Always-if (Fits size) (kind == type_double) _ _
          (λ double. Always-return (Fits size) _ (length-snprintf size _ one))
          (λ q.
            Always-if (Fits size) (kind == type_string) _ _
              (λ string. sprint_zstring-Fits t _ size one)
              (λ r.
                Always-if (Fits size) (kind == type_array) _ _
                  (λ array.
                    sprint_zarray-Fits (sprint_zval f t) (sprint_zval-Always f t) t _ size one)
                  (λ other. Always-raise (Fits size) _))))

-- What a value prints as: a text that fits, or no text.
abbrev pub IsPrinted : ℕ → Outcome Text → Type 0
IsPrinted size (done text) = length text + 1 ≤ size
IsPrinted size (fail rv) = Unit
IsPrinted size stuck = Unit

printed : (size : ℕ) (r : Outcome Text) → Post (Fits size) r → IsPrinted size r
printed size (done text) h = h
printed size (fail rv) h = tt
printed size stuck h = tt

-- Whatever the memory of the process holds, and however it changes while it is read, a value that
-- `sprint_zval` prints fits with its NUL into the buffer, if that has at least one byte: strings,
-- numbers and nested arrays, packed or not, cut off where the buffer is full.
pub sprint_zval-IsPrinted :
    (f : ℕ) (t : Target) (zval : Text) (size k : ℕ)
    → 1 ≤ size
    → IsPrinted size (sprint_zval f t zval size k).0
sprint_zval-IsPrinted f t zval size k one =
    printed size (sprint_zval f t zval size k).0 ((sprint_zval-Always f t zval size one).always k)
