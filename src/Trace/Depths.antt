-- ===== src/Trace/Depths.antt =====
-- The depths of the frames that a stack walk sends.
use phpspy.Prelude.{
  ℕ, zero, suc, ◌+◌, ltb, leb, ◌==◌, if◌then◌else◌, Bool, Option, none, some, [], ◌∷◌, length,
}
use phpspy.Prelude.Text.{Text}
use phpspy.Prelude.Int.{ℤ, pos_part}
use phpspy.Event.{Loc, frame, varpeek}
use phpspy.Status.{err}
use phpspy.Zend.Remote.{field, signed}
use phpspy.Trace.{VarpeekEntry, Env, ◌>>◌, return, ignore}
use phpspy.Trace.Peek.{
  find_entry, find_var, send_args, peek_vars, trace_locals, pdo_sql, pdo_args, pdo_call, trace_pdo,
}
use phpspy.Trace.Stack.{string_or, scope_name, file_and_line, stack_emit_frame}
use phpspy.Trace.Emits.{
  Emits, Emits-return, Emits-if, Emits-read, Emits-raise, Emits-send, Emits-bind, Emits-ignore,
  quiet,
}

Emits-string_or : (e : Env) (p : ℕ) (s : Text) → Emits (string_or e p s) []
unfolding string_or
Emits-string_or e p s = Emits-if (p == 0) (Emits-return s) (Emits-read _)

Emits-scope_name : (e : Env) (scope : ℕ) → Emits (scope_name e scope) []
unfolding scope_name
Emits-scope_name e scope =
    Emits-if (scope == 0) (Emits-return []) (quiet (Emits-read _) (λ zce. Emits-read _))

Emits-peek_vars :
    (e : Env) (entry : VarpeekEntry) (remote vars i todo found : ℕ)
    → Emits (peek_vars e entry remote vars i todo found) []
unfolding peek_vars
Emits-peek_vars e entry remote vars i zero found = Emits-return tt
Emits-peek_vars e entry remote vars i (suc todo) found = quiet (Emits-read _) (λ zstrp.
    quiet (Emits-read _) (λ name.
      Emits-if (find_var name entry.varmap)
        (quiet (Emits-read _) (λ zval. quiet (Emits-read _) (λ text.
          quiet (Emits-send e (varpeek _)) (λ u.
            Emits-if (leb (length entry.varmap) (found + 1)) (Emits-return tt)
              (Emits-peek_vars e entry remote vars (i + 1) todo (found + 1))))))
        (Emits-peek_vars e entry remote vars (i + 1) todo found)))

Emits-trace_locals :
    (e : Env) (zop : Text) (remote : ℕ) (zfunc file : Text)
    → Emits (trace_locals e zop remote zfunc file) []
unfolding trace_locals
Emits-trace_locals e zop remote zfunc file = found (find_entry _ e.varpeek_map)
  where
    found :
        (r : Option VarpeekEntry)
        → Emits
            (elim r [
              | none ↦ return tt
              | some entry ↦
                  peek_vars e entry remote
                    (field e.target.layout.op_array_vars 8 zfunc)
                    0
                    (pos_part (signed 4 (field e.target.layout.op_array_last_var 4 zfunc)))
                    0
            ])
            []
    found none = Emits-return tt
    found (some entry) = Emits-peek_vars e entry remote _ 0 _ 0

Emits-send_args : (e : Env) (entry : Text) (args : Option Text) → Emits (send_args e entry args) []
Emits-send_args e entry none = Emits-return tt
Emits-send_args e entry (some []) = Emits-return tt
Emits-send_args e entry (some (c ∷ cs)) = Emits-send e (varpeek _)

Emits-pdo_sql : (e : Env) (entry zval : Text) → Emits (pdo_sql e entry zval) []
unfolding pdo_sql
Emits-pdo_sql e entry zval =
    Emits-if _ (quiet (Emits-read _) (λ text. Emits-send e (varpeek _))) (Emits-return tt)

Emits-pdo_args :
    (e : Env) (entry : Text) (remote num_args robj : ℕ)
    → Emits (pdo_args e entry remote num_args robj) []
unfolding pdo_args
Emits-pdo_args e entry remote num_args robj =
    Emits-if _
      (quiet (Emits-read _) (λ zval.
        Emits-if _ (quiet (Emits-read _) (λ text. Emits-send_args e entry text)) (Emits-return tt)))
      (quiet (Emits-read _) (λ stmt.
        Emits-if _ (Emits-return tt) (quiet (Emits-read _) (λ text. Emits-send_args e entry text))))

Emits-pdo_call :
    (e : Env) (remote : ℕ) (execute_data entry : Text) (is_stmt_execute is_query_or_exec : Bool)
    → Emits (pdo_call e remote execute_data entry is_stmt_execute is_query_or_exec) []
unfolding pdo_call
Emits-pdo_call e remote execute_data entry is_stmt_execute is_query_or_exec =
    Emits-if is_stmt_execute
      (Emits-if _ (Emits-raise _ err) (
        quiet (Emits-read _)
          (λ lobj. quiet (Emits-pdo_sql e entry _) (λ u. Emits-pdo_args e entry remote _ _))))
      (Emits-if is_query_or_exec
        (Emits-if _ (Emits-raise _ err) (quiet (Emits-read _) (λ zval. Emits-pdo_sql e entry zval)))
        (Emits-return tt))

Emits-trace_pdo :
    (e : Env) (remote : ℕ) (execute_data : Text) (loc : Loc)
    → Emits (trace_pdo e remote execute_data loc) []
unfolding trace_pdo
Emits-trace_pdo e remote execute_data loc = Emits-pdo_call e remote execute_data _ _ _

of_line :
    (e : Env) (remote : ℕ) (zfunc file : Text) (start : ℤ) (zop : Option Text)
    → Emits {A = Text × ℤ}
        (elim zop [
          | none ↦ return (file, start)
          | some op ↦
              (if ltb 0 (length e.varpeek_map)
                then ignore (trace_locals e op remote zfunc file)
                else return tt)
              >> return (file, signed 4 (field e.target.layout.op_lineno 4 op))
        ])
        []
of_line e remote zfunc file start none = Emits-return (file, start)
of_line e remote zfunc file start (some op) =
    quiet
      (Emits-if (ltb 0 (length e.varpeek_map))
        (Emits-ignore (Emits-trace_locals e op remote zfunc file)) (Emits-return tt))
      (λ u. Emits-return _)

Emits-file_and_line :
    (e : Env) (remote : ℕ) (execute_data zfunc : Text)
    → Emits (file_and_line e remote execute_data zfunc) []
unfolding file_and_line
Emits-file_and_line e remote execute_data zfunc =
    Emits-if _ (quiet (Emits-read _) (λ file. quiet (Emits-read _) (of_line e remote zfunc file _)))
      (Emits-return _)

-- One frame, at its depth.
pub Emits-stack_emit_frame :
    (e : Env) (remote depth : ℕ) → Emits (stack_emit_frame e remote depth) (depth ∷ [])
unfolding stack_emit_frame
Emits-stack_emit_frame e remote depth = Emits-bind [] (depth ∷ []) (Emits-read _) (λ execute_data.
    Emits-bind [] (depth ∷ []) (Emits-read _) (λ zfunc.
      Emits-bind [] (depth ∷ []) (Emits-string_or e _ _) (λ func.
        Emits-bind [] (depth ∷ []) (Emits-scope_name e _) (λ class.
          Emits-bind [] (depth ∷ []) (Emits-file_and_line e remote execute_data zfunc) (λ at.
            Emits-bind (depth ∷ []) [] (Emits-send e (frame _)) (λ u.
              quiet
                (Emits-if e.options.peek_pdo
                  (Emits-ignore (
                    Emits-trace_pdo e remote execute_data
                      (record { func = func; class = class; file = at.0; lineno = at.1 })))
                  (Emits-return tt))
                (λ u. Emits-return _)))))))
