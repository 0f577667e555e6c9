-- ===== src/Trace/Peeked.antt =====
-- The values that are peeked at send content only.
use phpspy.Prelude.{ℕ, zero, suc, ◌+◌, leb, refl, Bool, Option, none, some, List, [], ◌∷◌, length}
use phpspy.Prelude.Text.{Text}
use phpspy.Prelude.Int.{pos_part}
use phpspy.Event.{Loc, Event, varpeek}
use phpspy.Status.{err}
use phpspy.Zend.Remote.{field, signed}
use phpspy.Trace.{VarpeekEntry, Env, return}
use phpspy.Trace.Peek.{
  find_entry, find_var, send_args, peek_vars, trace_locals, pdo_sql, pdo_args, pdo_call, trace_pdo,
}
use phpspy.Trace.Keeps.{
  Keeps, IsOpen, Keeps-return, Keeps-raise, Keeps-read, Keeps-if, Keeps-bind, Keeps-send,
}

module _ {P : List Event → Type 0} (open_ : IsOpen P) (e : Env) where
  Keeps-peek_vars :
      (entry : VarpeekEntry) (remote vars i todo found : ℕ)
      → Keeps P (peek_vars e entry remote vars i todo found)
  unfolding peek_vars
  Keeps-peek_vars entry remote vars i zero found = Keeps-return tt
  Keeps-peek_vars entry remote vars i (suc todo) found = Keeps-bind (Keeps-read _) (λ zstrp.
      Keeps-bind (Keeps-read _) (λ name.
        Keeps-if (find_var name entry.varmap)
          (Keeps-bind (Keeps-read _) (λ zval. Keeps-bind (Keeps-read _) (λ text.
            Keeps-bind (Keeps-send open_ e (varpeek _) refl) (λ u.
              Keeps-if (leb (length entry.varmap) (found + 1)) (Keeps-return tt)
                (Keeps-peek_vars entry remote vars (i + 1) todo (found + 1))))))
          (Keeps-peek_vars entry remote vars (i + 1) todo found)))

  pub Keeps-trace_locals :
      (zop : Text) (remote : ℕ) (zfunc file : Text) → Keeps P (trace_locals e zop remote zfunc file)
  unfolding trace_locals
  Keeps-trace_locals zop remote zfunc file = found (find_entry _ e.varpeek_map)
    where
      found :
          (r : Option VarpeekEntry)
          → Keeps P (elim r [
            | none ↦ return tt
            | some entry ↦
                peek_vars e entry remote
                  (field e.target.layout.op_array_vars 8 zfunc)
                  0
                  (pos_part (signed 4 (field e.target.layout.op_array_last_var 4 zfunc)))
                  0
          ])
      found none = Keeps-return tt
      found (some entry) = Keeps-peek_vars entry remote _ 0 _ 0

  Keeps-send_args : (entry : Text) (args : Option Text) → Keeps P (send_args e entry args)
  Keeps-send_args entry none = Keeps-return tt
  Keeps-send_args entry (some []) = Keeps-return tt
  Keeps-send_args entry (some (c ∷ cs)) = Keeps-send open_ e (varpeek _) refl

  Keeps-pdo_sql : (entry zval : Text) → Keeps P (pdo_sql e entry zval)
  unfolding pdo_sql
  Keeps-pdo_sql entry zval =
      Keeps-if _ (Keeps-bind (Keeps-read _) (λ text. Keeps-send open_ e (varpeek _) refl))
        (Keeps-return tt)

  Keeps-pdo_args :
      (entry : Text) (remote num_args robj : ℕ) → Keeps P (pdo_args e entry remote num_args robj)
  unfolding pdo_args
  Keeps-pdo_args entry remote num_args robj =
      Keeps-if _
        (Keeps-bind (Keeps-read _) (λ zval.
          Keeps-if _ (Keeps-bind (Keeps-read _) (λ text. Keeps-send_args entry text))
            (Keeps-return tt)))
        (Keeps-bind (Keeps-read _) (λ stmt.
          Keeps-if _ (Keeps-return tt)
            (Keeps-bind (Keeps-read _) (λ text. Keeps-send_args entry text))))

  Keeps-pdo_call :
      (remote : ℕ) (execute_data entry : Text) (is_stmt_execute is_query_or_exec : Bool)
      → Keeps P (pdo_call e remote execute_data entry is_stmt_execute is_query_or_exec)
  unfolding pdo_call
  Keeps-pdo_call remote execute_data entry is_stmt_execute is_query_or_exec =
      Keeps-if is_stmt_execute
        (Keeps-if _ (Keeps-raise _ err) (
          Keeps-bind (Keeps-read _)
            (λ lobj. Keeps-bind (Keeps-pdo_sql entry _) (λ u. Keeps-pdo_args entry remote _ _))))
        (Keeps-if is_query_or_exec
          (Keeps-if _ (Keeps-raise _ err)
            (Keeps-bind (Keeps-read _) (λ zval. Keeps-pdo_sql entry zval)))
          (Keeps-return tt))

  pub Keeps-trace_pdo :
      (remote : ℕ) (execute_data : Text) (loc : Loc) → Keeps P (trace_pdo e remote execute_data loc)
  unfolding trace_pdo
  Keeps-trace_pdo remote execute_data loc = Keeps-pdo_call remote execute_data _ _ _
