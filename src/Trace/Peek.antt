-- ===== src/Trace/Peek.antt =====
-- The values that are peeked at while a frame is traced: `trace_locals` and `trace_pdo`.
use phpspy.Prelude.{
  ℕ, zero, suc, ◌+◌, ◌-◌, ◌*◌, ◌%◌, ◌^◌, ltb, leb, ◌==◌, if◌then◌else◌, Bool, false, not, ◌&&◌,
  ◌||◌, Option, none, some, List, [], ◌∷◌, ◌++◌, length, take,
}
use phpspy.Prelude.Text.{c_str, Text, codes, text_eq, decimal_ℤ, snprintf}
use phpspy.Prelude.Int.{pos_part}
use phpspy.Event.{Loc, varpeek}
use phpspy.Status.{err}
use phpspy.Zend.Remote.{attempt, copy_proc_mem, at_offset, member, field, signed, sprint_zstring}
use phpspy.Zend.Print.{type_string, type_array, type_object, zval_type, sprint_zval, sprint_zarray}
use phpspy.Zend.Binds.{sprint_pdo_binds}
use phpspy.Trace.{VarpeekEntry, Env, Action, ◌>>=◌, ◌>>◌, return, raise, read, send, str_size}

-- HASH_FIND_STR in `varpeek_map`, and HASH_FIND in `varmap`.
abbrev pub find_entry : Text → List VarpeekEntry → Option VarpeekEntry
find_entry key [] = none
find_entry key (e ∷ es) = if text_eq key e.filename_lineno then some e else find_entry key es

abbrev pub find_var : Text → List Text → Bool
find_var name [] = false
find_var name (v ∷ vs) = text_eq name v || find_var name vs

abbrev pub send_varpeek : Env → Text → Text → Text → Action (Unit {0})
send_varpeek e name entry text =
    send e (varpeek (record { name = name; filename_lineno = entry; zval_str = text }))

-- The loop over the compiled variables, from `i` on; `todo` of them are left, and `found` have been
-- peeked at.
unfoldable pub peek_vars : Env → VarpeekEntry → ℕ → ℕ → ℕ → ℕ → ℕ → Action (Unit {0})
unfolding copy_proc_mem field sprint_zstring sprint_zval send
peek_vars e entry remote vars i zero found = return tt
peek_vars e entry remote vars i (suc todo) found =
    let t = e.target in
    let l = t.layout in
    let next = peek_vars e entry remote vars (i + 1) todo found in
    let after = peek_vars e entry remote vars (i + 1) todo (found + 1) in
    let stop : Action (Unit {0}) = return tt in
    let peek : Text → Action (Unit {0}) = λ name. do
      zval ←
          read (copy_proc_mem t (at_offset remote (l.zval_size * (l.frame_slot + i))) l.zval_size)
      text ← read (sprint_zval e.depth t zval str_size)
      send_varpeek e name entry.filename_lineno text
      if leb (length entry.varmap) (found + 1) then stop else after
    in do
      zstrp ← read (copy_proc_mem t (at_offset vars (8 * i)) 8)
      name ← read (sprint_zstring t (field 0 8 zstrp) str_size)
      if find_var name entry.varmap then peek name else next

-- `trace_locals`, on local copies of the opline and of the function.
unfoldable pub trace_locals : Env → Text → ℕ → Text → Text → Action (Unit {0})
unfolding field peek_vars
trace_locals e zop remote zfunc file =
    let l = e.target.layout in
    let key =
      snprintf str_size (c_str file ++ (b':' ∷ decimal_ℤ (signed 4 (field l.op_lineno 4 zop)))) in
    elim (find_entry key e.varpeek_map) [
      | none ↦ return tt
      | some entry ↦
          peek_vars e entry remote (field l.op_array_vars 8 zfunc) 0
            (pos_part (signed 4 (field l.op_array_last_var 4 zfunc))) 0
    ]

abbrev pdo_entry : Loc → Text
pdo_entry l = take 96 (c_str l.class) ++ (codes "::" ++ take 96 (c_str l.func))

-- The event for printed arguments, where there are any.
abbrev pub send_args : Env → Text → Option Text → Action (Unit {0})
send_args e entry none = return tt
send_args e entry (some []) = return tt
send_args e entry (some (c ∷ cs)) = send_varpeek e (codes "#pdo_args") entry (c ∷ cs)

-- `((zval*)remote_execute_data) + 5`, whatever the version.
abbrev pub first_arg : Env → ℕ → Action Text
first_arg e remote =
    let l = e.target.layout in
    read (copy_proc_mem e.target (at_offset remote (l.zval_size * 5)) l.zval_size)

-- The SQL text of a zval, where it is a string.
unfoldable pub pdo_sql : Env → Text → Text → Action (Unit {0})
unfolding field sprint_zstring send
pdo_sql e entry zval =
    let t = e.target in
    let peek : Action (Unit {0}) = do
      text ← read (sprint_zstring t (field t.layout.zval_value 8 zval) str_size)
      send_varpeek e (codes "#pdo_sql") entry text
    in if zval_type t zval == type_string then peek else return tt

-- The arguments of `execute`, or what has been bound.
unfoldable pub pdo_args : Env → Text → ℕ → ℕ → ℕ → Action (Unit {0})
unfolding field copy_proc_mem sprint_zarray sprint_zval sprint_pdo_binds send
pdo_args e entry remote num_args robj =
    let t = e.target in
    let l = t.layout in
    let given : Action (Unit {0}) = do
      zval ← first_arg e remote
      let array = field l.zval_value 8 zval
      let peek : Action (Unit {0}) =
          (read (attempt (sprint_zarray (sprint_zval e.depth t) t array str_size)) >>= λ text.
          send_args e entry text)
      if zval_type t zval == type_array then peek else return tt
    in let bound : Action (Unit {0}) = do
      stmt ← read (copy_proc_mem t ((2 ^ 64 + robj - l.stmt_object) % 2 ^ 64) l.stmt_size)
      let params = field l.stmt_bound_params 8 stmt
      let peek : Action (Unit {0}) =
          (read (attempt (sprint_pdo_binds e.depth t params str_size)) >>= λ text.
          send_args e entry text)
      if params == 0 then return tt else peek
      in if ltb 0 num_args then given else bound

-- The two branches of `trace_pdo`: on a statement that is executed, and on a query.
unfoldable pub pdo_call : Env → ℕ → Text → Text → Bool → Bool → Action (Unit {0})
unfolding field copy_proc_mem pdo_sql pdo_args
pdo_call e remote execute_data entry is_stmt_execute is_query_or_exec =
    let l = e.target.layout in
    let num_args = field (l.frame_this + l.zval_next) 4 execute_data in
    let robj = field (l.frame_this + l.zval_value) 8 execute_data in
    let this_type = field (l.frame_this + l.zval_type) 1 execute_data in
    let on_statement : Action (Unit {0}) = do
      lobj ← read (copy_proc_mem e.target robj l.object_size)
      pdo_sql e entry (member l.object_properties l.zval_size lobj)
      pdo_args e entry remote num_args robj
    in let on_query : Action (Unit {0}) = first_arg e remote >>= pdo_sql e entry in
      if is_stmt_execute
      then (if not (this_type == type_object) || (robj == 0) then raise err else on_statement)
      else if is_query_or_exec
      then (if ltb num_args 1 then raise err else on_query)
      else return tt

-- `trace_pdo`, on a local copy of `execute_data`. Its caller does not look at what it returns.
unfoldable pub trace_pdo : Env → ℕ → Text → Loc → Action (Unit {0})
unfolding pdo_call
trace_pdo e remote execute_data loc =
    let is_class : Text → Bool = λ name. text_eq (c_str loc.class) name in
    let is_func : Text → Bool = λ name. text_eq (c_str loc.func) name in
    pdo_call e remote execute_data (pdo_entry loc)
      (is_class (codes "PDOStatement") && is_func (codes "execute"))
      (is_class (codes "PDO") && (is_func (codes "query") || is_func (codes "exec")))
