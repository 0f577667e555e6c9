-- ===== src/Zend/Print.antt =====
-- How phpspy_trace.c prints values: `sprint_zval`, `sprint_zarray` and their parts. A function that
-- writes to a buffer of `buf_size` bytes returns the `*buf_len` bytes that it has written.
use phpspy.Prelude.{
  ℕ, zero, suc, ◌+◌, ◌-◌, ◌*◌, ◌/◌, ◌%◌, ◌^◌, ltb, leb, ◌==◌, if◌then◌else◌, List, [], ◌∷◌, ◌++◌,
  length, take, drop,
}
use phpspy.Prelude.Text.{c_str, Text, text_eq, decimal, decimal_ℤ, snprintf}
use Prim.Native.Nat.{min}
use phpspy.Status.{err}
use phpspy.Zend.Hash.{inline_hash}
use phpspy.Zend.Remote.{
  Target, stuck, Read, ◌>>=◌, return, raise, copy_proc_mem, at_offset, member, field, signed,
  sprint_zstring,
}

-- PHPSPY_MAX_ARRAY_BUCKETS
abbrev pub max_array_buckets : ℕ
max_array_buckets = 128

-- PHPSPY_ZVAL_TYPE_*
abbrev pub type_long : ℕ
type_long = 4

abbrev pub type_double : ℕ
type_double = 5

abbrev pub type_string : ℕ
type_string = 6

abbrev pub type_array : ℕ
type_array = 7

abbrev pub type_object : ℕ
type_object = 8

abbrev pub zval_type : Target → Text → ℕ
zval_type t zval = field t.layout.zval_type 1 zval

-- The elements of a copied array: zvals of a packed one, buckets of another.
abbrev pub elements : ℕ → ℕ → Text → List Text
elements zero size copy = []
elements (suc n) size copy = take size copy ∷ elements n size (drop size copy)

abbrev pub leftovers : (ℕ → ℕ) → ℕ → Text
leftovers f zero = []
leftovers f (suc n) = f n ∷ leftovers f n

-- The `key=` in front of an element of a hash, where there is a key and room for it: `snprintf`
-- stops at a NUL within the key, and the bytes behind it stay what they were.
unfoldable pub key_prefix : Target → ℕ → Text → Text
unfolding c_str
key_prefix t buf_size key =
    if ltb (length key + 1 + 1) buf_size
    then (let shown = c_str key in
        if length shown == length key
        then key ++ (b'=' ∷ [])
        else shown ++ (b'=' ∷ 0 ∷ leftovers t.leftover (length key - length shown - 1)))
    else []

-- The loop over the elements, `printed` being what one leaves in the buffer; `acc` is what stands
-- in the buffer so far, and a final comma goes.
abbrev pub drop_comma : Text → Text
drop_comma [] = []
drop_comma (c ∷ []) = if c == b',' then [] else c ∷ []
drop_comma (c ∷ d ∷ cs) = c ∷ drop_comma (d ∷ cs)

abbrev pub print_elements : (ℕ → Text → ℕ → Read Text) → ℕ → List Text → ℕ → Text → Read Text
print_elements printer i [] buf_size acc = return (drop_comma acc)
print_elements printer i (e ∷ es) buf_size acc = do
  text ← printer i e buf_size
  let left = buf_size - length text
  let skip : Read Text = print_elements printer (i + 1) es buf_size acc
  let more : Read Text = print_elements printer (i + 1) es (left - 1) (acc ++ (text ++ (b',' ∷ [])))
  let full : Read Text = return (drop_comma (acc ++ text))
  if length text == 0 then skip else if ltb left 2 then full else more

-- The functions that `sprint_zval` calls on arrays, `printer` being `sprint_zval` itself.
module _ (printer : Text → ℕ → Read Text) where
  unfoldable pub sprint_zarray_packed : Target → ℕ → Text → ℕ → Read Text
  unfolding field
  sprint_zarray_packed t idx zval buf_size =
      let index = decimal idx ++ (b'=' ∷ []) in
      let print_value : Read Text =
        (printer zval (buf_size - length index) >>= λ text. return (index ++ text)) in
      if zval_type t zval == 0
      then return []
      else if leb buf_size (length index)
      then return []
      else print_value

  unfoldable pub sprint_zarray_bucket : Target → ℕ → Text → ℕ → Read Text
  unfolding field sprint_zstring key_prefix
  sprint_zarray_bucket t i bucket buf_size =
      let l = t.layout in
      let zval = member l.bucket_val l.zval_size bucket in
      let key = field l.bucket_key 8 bucket in
      let prefixed : Read Text =
        (sprint_zstring t key 256 >>= λ name. return (key_prefix t buf_size name)) in
      let print_value : Read Text = do
        prefix ← if key == 0 then return [] else prefixed
        text ← printer zval (buf_size - length prefix)
        return (prefix ++ text)
      in if zval_type t zval == 0 then return [] else print_value

  unfoldable pub sprint_zarray : Target → ℕ → ℕ → Read Text
  unfolding copy_proc_mem field sprint_zarray_packed sprint_zarray_bucket
  sprint_zarray t rzarray buf_size = do
    let l = t.layout
    array ← copy_proc_mem t rzarray l.array_size
    let len = min (field l.array_num_used 4 array) max_array_buckets
    let packed = (field l.array_flags 1 array / 4) % 2 == 1
    let size = if packed then l.zval_size else l.bucket_size
    copied ← copy_proc_mem t (field l.array_data 8 array) (size * len)
    print_elements (if packed then sprint_zarray_packed t else sprint_zarray_bucket t) 0
        (elements len size copied) buf_size []

-- `sprint_zval`, its cases in the order of the switch. The fuel is the depth of nested arrays.
unfoldable pub sprint_zval : ℕ → Target → Text → ℕ → Read Text
unfolding sprint_zstring field sprint_zarray
sprint_zval zero t zval buf_size = λ k. (stuck, k)
sprint_zval (suc f) t zval buf_size =
    let value = field t.layout.zval_value 8 zval in
    if zval_type t zval == type_long
    then return (snprintf buf_size (decimal_ℤ (signed 8 value)))
    else if zval_type t zval == type_double
    then return (snprintf buf_size (t.print_double (member t.layout.zval_value 8 zval)))
    else if zval_type t zval == type_string
    then sprint_zstring t value buf_size
    else if zval_type t zval == type_array
    then sprint_zarray (sprint_zval f t) t value buf_size
    else raise err

-- `copy_zarray_bucket`: the loop along the chain of a hash, from the number `hash_bucket` on. A
-- bucket without a key ends it. The fuel is the length of the chain.
unfoldable pub find_bucket : ℕ → Target → ℕ → Text → ℕ → Read Text
unfolding copy_proc_mem field sprint_zstring c_str
find_bucket zero t data_addr key hash_bucket = λ k. (stuck, k)
find_bucket (suc f) t data_addr key hash_bucket =
    let l = t.layout in
    let compared : Text → Read Text = λ bucket.
      (sprint_zstring t (field l.bucket_key 8 bucket) 256 >>= λ name.
      (if text_eq key (c_str name)
        then return bucket
        else find_bucket f t data_addr key (field (l.bucket_val + l.zval_next) 4 bucket))) in
    let visit : Read Text =
      (copy_proc_mem t (at_offset data_addr (hash_bucket * l.bucket_size)) l.bucket_size
        >>= λ bucket.
            (if field l.bucket_key 8 bucket == 0 then return bucket else compared bucket)) in
    if hash_bucket == 2 ^ 32 - 1 then raise err else visit

-- `copy_zarray_bucket`. An empty table mask divides by zero.
unfoldable pub copy_zarray_bucket : ℕ → Target → ℕ → Text → Read Text
unfolding copy_proc_mem field find_bucket
copy_zarray_bucket f t rzarray key = do
  let l = t.layout
  array ← copy_proc_mem t rzarray l.array_size
  let size = (2 ^ 32 - field l.array_table_mask 4 array) % 2 ^ 32
  let data_addr = field l.array_data 8 array
  let index = inline_hash t.char_signed key % size
  let walk : Read Text =
      (copy_proc_mem t (at_offset data_addr (2 ^ 64 - 4 * size + 4 * index)) 4 >>= λ val.
      find_bucket f t data_addr key (field 0 4 val))
  if size == 0 then (λ k. (stuck, k)) else walk

-- `sprint_zarray_val`
unfoldable pub sprint_zarray_val : ℕ → Target → ℕ → Text → ℕ → Read Text
unfolding copy_zarray_bucket sprint_zval
sprint_zarray_val f t rzarray key buf_size = do
  bucket ← copy_zarray_bucket f t rzarray key
  sprint_zval f t (member t.layout.bucket_val t.layout.zval_size bucket) buf_size
