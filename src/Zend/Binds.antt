-- ===== src/Zend/Binds.antt =====
-- How phpspy_trace.c prints the bound parameters of a PDO statement.
use phpspy.Prelude.{
  ℕ, ◌+◌, ◌-◌, ◌*◌, ◌/◌, ◌%◌, leb, ◌==◌, if◌then◌else◌, not, ◌&&◌, ◌||◌, Option, none, some, [],
  ◌∷◌, ◌++◌, length,
}
use phpspy.Prelude.Text.{c_str, Text, decimal_ℤ}
use Prim.Native.Nat.{min}
use phpspy.Zend.Remote.{
  Target, Read, ◌>>=◌, return, attempt, copy_proc_mem, at_offset, member, field, signed,
  sprint_zstring,
}
use phpspy.Zend.Print.{max_array_buckets, zval_type, elements, print_elements, sprint_zval}

-- PHPSPY_ZVAL_TYPE_REFERENCE
abbrev type_reference : ℕ
type_reference = 10

-- The name of a bound parameter, or its number.
unfoldable pub bind_label : Target → Text → Read (Option Text)
unfolding field sprint_zstring
bind_label t bind =
    let name = field t.layout.bind_name 8 bind in
    let number = signed 8 (field t.layout.bind_paramno 8 bind) in
    let named : Read (Option Text) =
      (attempt (sprint_zstring t name 256) >>= λ text.
      return (elim text [ none ↦ none | some s ↦ some (c_str s) ])) in
    if name == 0 then return (some (decimal_ℤ number)) else named

-- The zval that is bound: what a reference refers to, where that can be read.
unfoldable pub bound_zval : Target → Text → Read Text
unfolding field copy_proc_mem
bound_zval t bind =
    let l = t.layout in
    let zval = member l.bind_parameter l.zval_size bind in
    let ref = field l.zval_value 8 zval in
    let followed : Read Text =
      (attempt (copy_proc_mem t (at_offset ref 8) l.zval_size) >>= λ copy.
      return (elim copy [ none ↦ zval | some z ↦ z ])) in
    if (zval_type t zval == type_reference) && not (ref == 0) then followed else return zval

-- `sprint_pdo_bind`
unfoldable pub sprint_pdo_bind : ℕ → Target → ℕ → Text → ℕ → Read Text
unfolding field copy_proc_mem bind_label bound_zval sprint_zval
sprint_pdo_bind f t i zval buf_size =
    let l = t.layout in
    let rbp = field l.zval_value 8 zval in
    let print_value : Text → Text → Read Text = λ bind label. do
      vptr ← bound_zval t bind
      text ← sprint_zval f t vptr (buf_size - length label)
      return (label ++ text)
    in let labelled : Text → Option Text → Read Text = λ bind name. elim name [
      | none ↦ return []
      | some s ↦
          if leb buf_size (length s + 1) then return [] else print_value bind (s ++ (b'=' ∷ []))
    ] in
      let copied : Option Text → Read Text =
        λ copy. elim copy [ none ↦ return [] | some bind ↦ bind_label t bind >>= labelled bind ] in
      if (zval_type t zval == 0) || (rbp == 0)
      then return []
      else attempt (copy_proc_mem t rbp l.bind_size) >>= copied

-- `sprint_pdo_binds`
unfoldable pub sprint_pdo_binds : ℕ → Target → ℕ → ℕ → Read Text
unfolding field copy_proc_mem sprint_pdo_bind
sprint_pdo_binds f t rht buf_size =
    let l = t.layout in
    let printed : Text → Read Text = λ table. do
      let used = min (field l.array_num_used 4 table) max_array_buckets
      let packed = (field l.array_flags 1 table / 4) % 2 == 1
      let size = if packed then l.zval_size else l.bucket_size
      let start = if packed then 0 else l.bucket_val
      let data_addr = field l.array_data 8 table
      let none_used = (used == 0) || (data_addr == 0)
      let print_all : Read Text =
          (copy_proc_mem t data_addr (size * used) >>= λ copied.
          print_elements (λ i e. sprint_pdo_bind f t i (member start l.zval_size e)) 0
            (elements used size copied) buf_size [])
      if none_used then return [] else print_all
    in if rht == 0 then return [] else copy_proc_mem t rht l.array_size >>= printed
