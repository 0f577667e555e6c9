-- ===== src/Trace/Content.antt =====
-- The parts of a trace keep what any content keeps: they send no other events.
use phpspy.Prelude.{
  ℕ, zero, suc, ◌+◌, ltb, ◌==◌, ◌≡◌, ◌⊎◌, ◌||◌, inl, inr, refl, if◌then◌else◌, Bool, true, false,
  Option, none, some, List, [], ◌∷◌, length,
}
use phpspy.Prelude.Text.{Text}
use phpspy.Prelude.Int.{ℤ, pos, negsuc}
use phpspy.Event.{Event, frame, glopeek, request, mem}
use phpspy.Status.{Status}
use phpspy.Zend.Remote.{Outcome, done, fail, stuck, field, signed}
use phpspy.Trace.{GlopeekEntry, Env, Context, Action, ◌>>◌, return, ignore, send}
use phpspy.Trace.Peek.{trace_locals}
use phpspy.Trace.Stack.{
  string_or, scope_name, file_and_line, stack_emit_frame, stack_collect, emit_kept, trace_from_root,
  trace_from_leaf, trace_stack, elided_frame, max_stack_walk, at_limit,
}
use phpspy.Trace.Info.{
  request_field, trace_request_info, trace_memory_info, global_array, peek_globals, trace_globals,
}
use phpspy.Trace.Keeps.{
  Keeps, IsOpen, Keeps-return, Keeps-read, Keeps-if, Keeps-bind, Keeps-ignore, Keeps-send,
}
use phpspy.Trace.Peeked.{Keeps-trace_locals, Keeps-trace_pdo}

ℤ-cases : (z : ℤ) → ((n : ℕ) × (z ≡ pos n)) ⊎ ((n : ℕ) × (z ≡ negsuc n))
ℤ-cases (pos n) = inl (n, refl)
ℤ-cases (negsuc n) = inr (n, refl)

module _ {P : List Event → Type 0} (open_ : IsOpen P) (e : Env) where
  Keeps-string_or : (p : ℕ) (s : Text) → Keeps P (string_or e p s)
  unfolding string_or
  Keeps-string_or p s = Keeps-if (p == 0) (Keeps-return s) (Keeps-read _)

  Keeps-scope_name : (scope : ℕ) → Keeps P (scope_name e scope)
  unfolding scope_name
  Keeps-scope_name scope =
      Keeps-if (scope == 0) (Keeps-return []) (Keeps-bind (Keeps-read _) (λ zce. Keeps-read _))

  of_line :
      (remote : ℕ) (zfunc file : Text) (start : ℤ) (zop : Option Text)
      → Keeps {A = Text × ℤ} P (elim zop [
        | none ↦ return (file, start)
        | some op ↦
            (if ltb 0 (length e.varpeek_map)
              then ignore (trace_locals e op remote zfunc file)
              else return tt)
            >> return (file, signed 4 (field e.target.layout.op_lineno 4 op))
      ])
  of_line remote zfunc file start none = Keeps-return (file, start)
  of_line remote zfunc file start (some op) =
      Keeps-bind
        (Keeps-if (ltb 0 (length e.varpeek_map))
          (Keeps-ignore (Keeps-trace_locals open_ e op remote zfunc file)) (Keeps-return tt))
        (λ u. Keeps-return _)

  Keeps-file_and_line :
      (remote : ℕ) (execute_data zfunc : Text) → Keeps P (file_and_line e remote execute_data zfunc)
  unfolding file_and_line
  Keeps-file_and_line remote execute_data zfunc =
      Keeps-if _
        (Keeps-bind (Keeps-read _)
          (λ file. Keeps-bind (Keeps-read _) (of_line remote zfunc file _)))
        (Keeps-return _)

  Keeps-stack_emit_frame : (remote depth : ℕ) → Keeps P (stack_emit_frame e remote depth)
  unfolding stack_emit_frame
  Keeps-stack_emit_frame remote depth = Keeps-bind (Keeps-read _) (λ execute_data.
      Keeps-bind (Keeps-read _) (λ zfunc. Keeps-bind (Keeps-string_or _ _) (λ func.
        Keeps-bind (Keeps-scope_name _) (λ class.
          Keeps-bind (Keeps-file_and_line remote execute_data zfunc) (λ at.
            Keeps-bind (Keeps-send open_ e (frame _) refl) (λ u.
              Keeps-bind
                (Keeps-if e.options.peek_pdo
                  (Keeps-ignore (
                    Keeps-trace_pdo open_ e remote execute_data
                      (record { func = func; class = class; file = at.0; lineno = at.1 })))
                  (Keeps-return tt))
                (λ u. Keeps-return _)))))))

  Keeps-stack_collect :
      (todo remote : ℕ) (ptrs : List ℕ) → Keeps P (stack_collect e todo remote ptrs)
  unfolding stack_collect
  Keeps-stack_collect zero remote ptrs = Keeps-return ptrs
  Keeps-stack_collect (suc todo) remote ptrs =
      Keeps-if (remote == 0) (Keeps-return ptrs)
        (Keeps-bind (Keeps-read _) (λ next. Keeps-stack_collect todo _ _))

  Keeps-emit_kept :
      (inner : ℕ) (outer num : ℤ) (i : ℕ) (ps : List ℕ) → Keeps P (emit_kept e inner outer num i ps)
  unfolding emit_kept elided_frame
  Keeps-emit_kept inner outer num i [] = Keeps-return tt
  Keeps-emit_kept inner outer num i (p ∷ ps) =
      Keeps-bind (Keeps-if _ (Keeps-send open_ e (frame _) refl) (Keeps-return tt)) (λ u.
        Keeps-bind
          (Keeps-if _ (Keeps-return tt)
            (Keeps-bind (Keeps-stack_emit_frame p i) (λ next. Keeps-return tt)))
          (λ u. Keeps-emit_kept inner outer num (i + 1) ps))

  Keeps-trace_from_root : (from_root remote : ℕ) → Keeps P (trace_from_root e from_root remote)
  unfolding trace_from_root
  Keeps-trace_from_root from_root remote =
      Keeps-bind (Keeps-stack_collect max_stack_walk remote [])
        (λ ptrs. Keeps-bind (Keeps-emit_kept _ _ _ 0 ptrs) (λ u. Keeps-return _))

  either :
      (b : Bool) {A : Type 0} (x y : Outcome A × Context)
      → P x.1.events
      → P y.1.events
      → P (if b then x else y).1.events
  either true x y p q = p
  either false x y p q = q

  onwards :
      (depth : ℕ) (next : ℕ → Action (Status × ℕ)) (r : Outcome ℕ) (s : Context)
      → ((remote : ℕ) → Keeps P (next remote))
      → P s.events
      → (let go : Outcome (Status × ℕ) × Context = elim r [
        | done remote ↦ next remote s
        | fail rv ↦ (done (rv, depth), s)
        | stuck ↦ (stuck, s)
      ] in
          P go.1.events)
  onwards depth next (done remote) s h p = (h remote).kept s p
  onwards depth next (fail rv) s h p = p
  onwards depth next stuck s h p = p

  Keeps-trace_from_leaf : (todo depth remote : ℕ) → Keeps P (trace_from_leaf e todo depth remote)
  unfolding trace_from_leaf
  Keeps-trace_from_leaf zero depth remote = record { kept = λ s p. p }
  Keeps-trace_from_leaf (suc todo) depth remote = record {
    kept = λ s p.
        let frame_s = stack_emit_frame e remote depth s in
        either ((remote == 0) || at_limit e.options.max_stack_depth_from_leaf depth) _ _ p (
          onwards depth (trace_from_leaf e todo (depth + 1)) frame_s.0 frame_s.1
            (λ next. Keeps-trace_from_leaf todo (depth + 1) next)
            ((Keeps-stack_emit_frame remote depth).kept s p));
  }

  pub Keeps-trace_stack : (remote : ℕ) → Keeps P (trace_stack e remote)
  unfolding trace_stack
  Keeps-trace_stack remote = record {
    kept = λ s p. elim (ℤ-cases e.options.max_stack_depth_from_root) [
      | inl (n, limit) ↦ rw limit ((Keeps-trace_from_root n remote).kept s p)
      | inr (n, none_) ↦ rw none_ ((Keeps-trace_from_leaf max_stack_walk 0 remote).kept s p)
    ];
  }

  Keeps-request_field : (wanted : Bool) (raddr : ℕ) → Keeps P (request_field e wanted raddr)
  unfolding request_field
  Keeps-request_field wanted raddr = Keeps-if _ (Keeps-read _) (Keeps-return _)

  pub Keeps-trace_request_info : Keeps P (trace_request_info e)
  unfolding trace_request_info
  Keeps-trace_request_info = Keeps-bind (Keeps-read _) (λ sapi.
      Keeps-bind
        (Keeps-request_field e.options.capture_req_qstring
          (field e.target.layout.sapi_query_string 8 sapi))
        (λ qstring.
          Keeps-bind
            (Keeps-request_field e.options.capture_req_cookie
              (field e.target.layout.sapi_cookie_data 8 sapi))
            (λ cookie.
              Keeps-bind
                (Keeps-request_field e.options.capture_req_uri
                  (field e.target.layout.sapi_request_uri 8 sapi))
                (λ uri.
                  Keeps-bind
                    (Keeps-request_field e.options.capture_req_path
                      (field e.target.layout.sapi_path_translated 8 sapi))
                    (λ path. Keeps-send open_ e (request _) refl)))))

  pub Keeps-trace_memory_info : Keeps P (trace_memory_info e)
  unfolding trace_memory_info
  Keeps-trace_memory_info =
      Keeps-bind (Keeps-read _)
        (λ alloc. Keeps-bind (Keeps-read _) (λ heap. Keeps-send open_ e (mem _) refl))

  Keeps-global_array :
      (symtable : ℕ) (entry : GlopeekEntry) → Keeps P (global_array e symtable entry)
  unfolding global_array
  Keeps-global_array symtable entry =
      Keeps-if _ (Keeps-return symtable) (Keeps-bind (Keeps-read _) (λ bucket. Keeps-return _))

  of_text :
      (entry : GlopeekEntry) (text : Option Text)
      → Keeps P (elim text [
        | none ↦ return tt
        | some s ↦ send e (glopeek (record { key = entry.key; zval_str = s }))
      ])
  of_text entry none = Keeps-return tt
  of_text entry (some s) = Keeps-send open_ e (glopeek _) refl

  Keeps-peek_globals :
      (symtable : ℕ) (entries : List GlopeekEntry) → Keeps P (peek_globals e symtable entries)
  unfolding peek_globals
  Keeps-peek_globals symtable [] = Keeps-return tt
  Keeps-peek_globals symtable (entry ∷ entries) =
      Keeps-bind (Keeps-global_array symtable entry) (λ array.
        Keeps-bind (Keeps-read _)
          (λ text. Keeps-bind (of_text entry text) (λ u. Keeps-peek_globals symtable entries)))

  pub Keeps-trace_globals : Keeps P (trace_globals e)
  unfolding trace_globals
  Keeps-trace_globals = Keeps-peek_globals _ e.glopeek_map
