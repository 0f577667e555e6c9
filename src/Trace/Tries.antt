-- ===== src/Trace/Tries.antt =====
-- A function that fails returns a status that is not PHPSPY_OK: what it takes for `try`, up to
-- `stack_emit_frame`.
use phpspy.Prelude.{
  ℕ, ◌+◌, ltb, ◌==◌, if◌then◌else◌, ◌≡◌, refl, Bool, true, false, Option, none, some, [], length,
}
use phpspy.Prelude.Int.{ℤ, negsuc}
use phpspy.Prelude.Text.{Text, codes}
use phpspy.Status.{Status, err, err_dead, is_ok}
use phpspy.Event.{Event, frame}
use phpspy.Zend.Remote as Remote
use phpspy.Zend.Remote.{
  Answer, bytes, esrch, refused, Target, Outcome, done, fail, stuck, Read, attempt, copy_proc_mem,
  field, signed, sprint_zstring,
}
use phpspy.Trace.{Env, Context, Action, ◌>>=◌, ◌>>◌, return, read, ignore, send, str_size}
use phpspy.Trace.Peek.{trace_locals, trace_pdo}
use phpspy.Trace.Stack.{string_or, scope_name, file_and_line, stack_emit_frame}

abbrev pub IsError : {A : Type 0} → Outcome A → Type 0
IsError (done a) = Unit
IsError (fail rv) = is_ok rv ≡ false
IsError stuck = Unit

record IsReadTry {A : Type 0} (m : Read A) : Type 0 where
  errs : (k : ℕ) → IsError (m k).0

pub record IsTry {A : Type 0} (m : Action A) : Type 0 where
  pub errs : (s : Context) → IsError (m s).0

IsReadTry-copy_proc_mem : (t : Target) (raddr size : ℕ) → IsReadTry (copy_proc_mem t raddr size)
unfolding copy_proc_mem
IsReadTry-copy_proc_mem t raddr size = record { errs = λ k. null (raddr == 0) k }
  where
    sized : (b : Text) (fits : Bool) → IsError (if fits then done b else fail err)
    sized b true = tt
    sized b false = refl

    answered :
        (a : Answer)
        → IsError (elim a [
          | bytes b ↦ if length b == size then done b else fail err
          | esrch ↦ fail err_dead
          | refused ↦ fail err
        ])
    answered (bytes b) = sized b (length b == size)
    answered esrch = refl
    answered refused = refl

    null :
        (b : Bool) (k : ℕ)
        → (let r : Outcome Text × ℕ =
              (if b then (fail err, k) else (
                elim (t.vm_readv k raddr size) [
                  | bytes c ↦ if length c == size then done c else fail err
                  | esrch ↦ fail err_dead
                  | refused ↦ fail err
                ],
                k + 1,
              )) in
            IsError r.0)
    null true k = refl
    null false k = answered (t.vm_readv k raddr size)

IsReadTry-bind :
    {A B : Type 0} (m : Read A) (f : A → Read B)
    → IsReadTry m
    → ((a : A) → IsReadTry (f a))
    → IsReadTry (Remote.◌>>=◌ m f)
unfolding Remote.◌>>=◌
IsReadTry-bind {A} {B} m f h h' = record { errs = λ k. go (m k).0 (m k).1 (h.errs k) }
  where
    go : (r : Outcome A) (k : ℕ) → IsError r → IsError ((Remote.◌>>=◌ (λ j. (r, k)) f k).0)
    go (done a) k e = (h' a).errs k
    go (fail rv) k e = e
    go stuck k e = tt

IsReadTry-sprint_zstring : (t : Target) (p size : ℕ) → IsReadTry (sprint_zstring t p size)
unfolding sprint_zstring
IsReadTry-sprint_zstring t p size =
    IsReadTry-bind _ _ (IsReadTry-copy_proc_mem t _ _) (λ header. IsReadTry-copy_proc_mem t _ _)

IsReadTry-attempt : {A : Type 0} (m : Read A) → IsReadTry (attempt m)
unfolding attempt
IsReadTry-attempt {A} m = record { errs = λ k. go (m k).0 (m k).1 }
  where
    go : (r : Outcome A) (k : ℕ) → IsError (attempt (λ j. (r, k)) k).0
    go (done a) k = tt
    go (fail rv) k = tt
    go stuck k = tt

IsTry-read : {A : Type 0} {m : Read A} → IsReadTry m → IsTry (read m)
unfolding read
IsTry-read h = record { errs = λ s. h.errs s.reads }

IsTry-return : {A : Type 0} (a : A) → IsTry (return a)
unfolding return
IsTry-return a = record { errs = λ s. tt }

IsTry-if : {A : Type 0} (b : Bool) {m n : Action A} → IsTry m → IsTry n → IsTry (if b then m else n)
IsTry-if true h h' = h
IsTry-if false h h' = h'

IsTry-bind :
    {A B : Type 0} {m : Action A} {f : A → Action B}
    → IsTry m
    → ((a : A) → IsTry (f a))
    → IsTry (m >>= f)
unfolding ◌>>=◌
IsTry-bind {A} {B} {m} {f} h h' = record { errs = λ s. go (m s).0 (m s).1 (h.errs s) }
  where
    go : (r : Outcome A) (s : Context) → IsError r → IsError (((λ c. (r, s)) >>= f) s).0
    go (done a) s e = (h' a).errs s
    go (fail rv) s e = e
    go stuck s e = tt

IsTry-ignore : {A : Type 0} (m : Action A) → IsTry (ignore m)
unfolding ignore
IsTry-ignore {A} m = record { errs = λ s. go (m s).0 (m s).1 }
  where
    go : (r : Outcome A) (s : Context) → IsError (ignore (λ c. (r, s)) s).0
    go (done a) s = tt
    go (fail rv) s = tt
    go stuck s = tt

IsTry-send : (e : Env) (ev : Event) → IsTry (send e ev)
unfolding send
IsTry-send e ev = record {
  errs = λ s. go (e.handler s.events ev) (is_ok (e.handler s.events ev)) refl;
}
  where
    go : (rv : Status) (b : Bool) → is_ok rv ≡ b → IsError (if b then done tt else fail rv)
    go rv true h = tt
    go rv false h = h

IsTry-copy : (e : Env) (raddr size : ℕ) → IsTry (read (copy_proc_mem e.target raddr size))
IsTry-copy e raddr size = IsTry-read (IsReadTry-copy_proc_mem e.target raddr size)

IsTry-zstring : (e : Env) (p size : ℕ) → IsTry (read (sprint_zstring e.target p size))
IsTry-zstring e p size = IsTry-read (IsReadTry-sprint_zstring e.target p size)

IsTry-string_or : (e : Env) (p : ℕ) (s : Text) → IsTry (string_or e p s)
unfolding string_or
IsTry-string_or e p s = IsTry-if (p == 0) (IsTry-return s) (IsTry-zstring e p str_size)

IsTry-scope_name : (e : Env) (scope : ℕ) → IsTry (scope_name e scope)
unfolding scope_name
IsTry-scope_name e scope =
    IsTry-if (scope == 0) (IsTry-return [])
      (IsTry-bind (IsTry-copy e _ _) (λ zce. IsTry-zstring e _ str_size))

of_line :
    (e : Env) (remote : ℕ) (zfunc file : Text) (start : ℤ) (zop : Option Text)
    → IsTry {A = Text × ℤ} (elim zop [
      | none ↦ return (file, start)
      | some op ↦
          (if ltb 0 (length e.varpeek_map)
            then ignore (trace_locals e op remote zfunc file)
            else return tt)
          >> return (file, signed 4 (field e.target.layout.op_lineno 4 op))
    ])
of_line e remote zfunc file start none = IsTry-return (file, start)
of_line e remote zfunc file start (some op) =
    IsTry-bind
      (IsTry-if (ltb 0 (length e.varpeek_map)) (IsTry-ignore (trace_locals e op remote zfunc file))
        (IsTry-return tt))
      (λ u. IsTry-return _)

IsTry-file_and_line :
    (e : Env) (remote : ℕ) (execute_data zfunc : Text)
    → IsTry (file_and_line e remote execute_data zfunc)
unfolding file_and_line
IsTry-file_and_line e remote execute_data zfunc =
    IsTry-if _
      (IsTry-bind (IsTry-zstring e _ str_size) (λ file.
        IsTry-bind
          (IsTry-read (
            IsReadTry-attempt (
              copy_proc_mem e.target (field e.target.layout.frame_opline 8 execute_data)
                e.target.layout.op_size)))
          (of_line e remote zfunc file
            (signed 4 (field e.target.layout.op_array_line_start 4 zfunc)))))
      (IsTry-return (codes "<internal>", negsuc 0))

pub IsTry-stack_emit_frame : (e : Env) (remote depth : ℕ) → IsTry (stack_emit_frame e remote depth)
unfolding stack_emit_frame
IsTry-stack_emit_frame e remote depth = IsTry-bind (IsTry-copy e _ _) (λ execute_data.
    IsTry-bind (IsTry-copy e _ _) (λ zfunc. IsTry-bind (IsTry-string_or e _ _) (λ func.
      IsTry-bind (IsTry-scope_name e _) (λ class.
        IsTry-bind (IsTry-file_and_line e remote execute_data zfunc) (λ at.
          IsTry-bind (IsTry-send e (frame _)) (λ u.
            IsTry-bind
              (IsTry-if e.options.peek_pdo
                (IsTry-ignore (
                  trace_pdo e remote execute_data
                    (record { func = func; class = class; file = at.0; lineno = at.1 })))
                (IsTry-return tt))
              (λ v. IsTry-return _)))))))
