-- ===== src/Trace/Stack.antt =====
-- The frames of a trace: `stack_collect`, `stack_emit_frame` and `trace_stack`.
use phpspy.Prelude.{
  ℕ, zero, suc, ◌+◌, ◌-◌, ◌%◌, ◌^◌, ltb, leb, ◌==◌, if◌then◌else◌, Bool, false, ◌&&◌, ◌||◌, Option,
  none, some, List, [], ◌∷◌, ◌++◌, length,
}
use phpspy.Prelude.Text.{Text, codes, decimal_ℤ}
use phpspy.Prelude.Int.{ℤ, pos, negsuc, pos_part, sub_ℕ, ltb_ℤ}
use phpspy.Status.{Status, ok}
use phpspy.Event.{Event, Loc, frame}
use phpspy.Zend.Remote.{
  Outcome, done, fail, stuck, attempt, copy_proc_mem, at_offset, field, signed, sprint_zstring,
}
use phpspy.Trace.{Env, Context, Action, ◌>>=◌, ◌>>◌, return, read, ignore, send, str_size}
use phpspy.Trace.Peek.{trace_locals, trace_pdo}

-- PHPSPY_MAX_STACK_WALK
abbrev pub max_stack_walk : ℕ
max_stack_walk = 1024

-- A zend_string, or what stands for a null pointer.
unfoldable pub string_or : Env → ℕ → Text → Action Text
unfolding sprint_zstring
string_or e p otherwise =
    if p == 0 then return otherwise else read (sprint_zstring e.target p str_size)

-- The class name of a scope.
unfoldable pub scope_name : Env → ℕ → Action Text
unfolding sprint_zstring copy_proc_mem field
scope_name e scope =
    let l = e.target.layout in
    let named : Action Text = do
      zce ← read (copy_proc_mem e.target scope l.class_size)
      read (sprint_zstring e.target (field l.class_name 8 zce) str_size)
    in if scope == 0 then return [] else named

-- The file and the line; on the way, the local variables of a frame whose opline can be read.
unfoldable pub file_and_line : Env → ℕ → Text → Text → Action (Text × ℤ)
unfolding sprint_zstring copy_proc_mem field trace_locals
file_and_line e remote execute_data zfunc =
    let t = e.target in
    let l = t.layout in
    let start = signed 4 (field l.op_array_line_start 4 zfunc) in
    let opline : Action (Option Text) =
      read (attempt (copy_proc_mem t (field l.frame_opline 8 execute_data) l.op_size)) in
    let of_line : Text → Option Text → Action (Text × ℤ) = λ file zop. elim zop [
      | none ↦ return (file, start)
      | some op ↦
          let peeked : Action (Unit {0}) = ignore (trace_locals e op remote zfunc file) in
          (if ltb 0 (length e.varpeek_map) then peeked else return tt)
          >> return (file, signed 4 (field l.op_lineno 4 op))
    ] in
    let of_user : Action (Text × ℤ) = do
      file ← read (sprint_zstring t (field l.op_array_filename 8 zfunc) str_size)
      zop ← opline
      of_line file zop
    in if field l.function_type 1 zfunc == 2 then of_user else return (codes "<internal>", negsuc 0)

-- `stack_emit_frame`; its result is `*next_out`.
unfoldable pub stack_emit_frame : Env → ℕ → ℕ → Action ℕ
unfolding copy_proc_mem field string_or scope_name file_and_line send trace_pdo
stack_emit_frame e remote depth = do
  let t = e.target
  let l = t.layout
  execute_data ← read (copy_proc_mem t remote l.frame_size)
  zfunc ← read (copy_proc_mem t (field l.frame_func 8 execute_data) l.function_size)
  func ← string_or e (field l.function_name 8 zfunc) (codes "<main>")
  class ← scope_name e (field l.function_scope 8 zfunc)
  at ← file_and_line e remote execute_data zfunc
  let loc : Loc = record { func = func; class = class; file = at.0; lineno = at.1 }
  send e (frame (record { loc = loc; depth = depth }))
  if e.options.peek_pdo then ignore (trace_pdo e remote execute_data loc) else return tt
  return (field l.frame_prev 8 execute_data)

-- `stack_collect`, `todo` being what is left of the limit of the walk.
unfoldable pub stack_collect : Env → ℕ → ℕ → List ℕ → Action (List ℕ)
unfolding copy_proc_mem field
stack_collect e zero remote stack_ptrs = return stack_ptrs
stack_collect e (suc todo) remote stack_ptrs =
    let go : Action (List ℕ) = do
      next ← read (copy_proc_mem e.target (at_offset remote e.target.layout.frame_prev) 8)
      stack_collect e todo (field 0 8 next) (stack_ptrs ++ (remote ∷ []))
    in if remote == 0 then return stack_ptrs else go

-- The frame that stands for what is left out.
unfoldable pub elided_frame : ℤ → ℕ → Event
elided_frame num_elided i = frame (record {
  loc = record {
    func = codes "<elided:" ++ (decimal_ℤ num_elided ++ (b'>' ∷ []));
    class = [];
    file = codes "<elided>";
    lineno = negsuc 0;
  };
  depth = i;
})

-- The loop over `stack_ptrs` from index `i` on.
unfoldable pub emit_kept : Env → ℕ → ℤ → ℤ → ℕ → List ℕ → Action (Unit {0})
unfolding stack_emit_frame send elided_frame
emit_kept e keep_inner keep_outer_from num_elided i [] = return tt
emit_kept e keep_inner keep_outer_from num_elided i (p ∷ ps) = do
  let marker : Action (Unit {0}) = send e (elided_frame num_elided i)
  let emit : Action (Unit {0}) = stack_emit_frame e p i >> return tt
  if (i == keep_inner) && ltb_ℤ (pos 0) num_elided then marker else return tt
  if leb keep_inner i && ltb_ℤ (pos i) keep_outer_from then return tt else emit
  emit_kept e keep_inner keep_outer_from num_elided (i + 1) ps

-- `keep_outer_from` and `num_elided`, 32-bit integers that wrap around.
unfoldable pub keep_range : ℕ → ℕ → ℕ → ℤ × ℤ
keep_range keep_inner from_root total_depth =
    if ltb_ℤ (signed 4 ((keep_inner + from_root) % 2 ^ 32)) (pos total_depth)
    then (
      sub_ℕ total_depth from_root,
      signed 4 ((total_depth + 2 ^ 33 - from_root - keep_inner) % 2 ^ 32),
    )
    else (pos keep_inner, pos 0)

-- With a limit from the root: the frames are collected first.
unfoldable pub trace_from_root : Env → ℕ → ℕ → Action ℕ
unfolding stack_collect emit_kept keep_range
trace_from_root e from_root remote = do
  stack_ptrs ← stack_collect e max_stack_walk remote []
  let keep_inner = pos_part e.options.max_stack_depth_from_leaf
  let range = keep_range keep_inner from_root (length stack_ptrs)
  emit_kept e keep_inner range.0 range.1 0 stack_ptrs
  return (length stack_ptrs)

-- `*depth != opt_max_stack_depth_from_leaf`
abbrev pub at_limit : ℤ → ℕ → Bool
at_limit (pos n) depth = depth == n
at_limit (negsuc n) depth = false

-- Without: the loop from the leaf outwards. `*depth` is also what a failure leaves in it.
unfoldable pub trace_from_leaf : Env → ℕ → ℕ → ℕ → Action (Status × ℕ)
unfolding stack_emit_frame
trace_from_leaf e zero depth remote s = (done (ok, depth), s)
trace_from_leaf e (suc todo) depth remote s =
    let (r, s') = stack_emit_frame e remote depth s in
    let go : Outcome (Status × ℕ) × Context = elim r [
      | done next ↦ trace_from_leaf e todo (depth + 1) next s'
      | fail rv ↦ (done (rv, depth), s')
      | stuck ↦ (stuck, s')
    ] in
    if (remote == 0) || at_limit e.options.max_stack_depth_from_leaf depth
    then (done (ok, depth), s)
    else go

-- `trace_stack`: its status and `*depth`, which a failure leaves at 0 where frames are collected.
unfoldable pub trace_stack : Env → ℕ → Action (Status × ℕ)
unfolding trace_from_root trace_from_leaf
trace_stack e remote s = elim e.options.max_stack_depth_from_root [
  | pos from_root ↦
      let (r, s') = trace_from_root e from_root remote s in
      (elim r [ done depth ↦ done (ok, depth) | fail rv ↦ done (rv, 0) | stuck ↦ stuck ], s')
  | negsuc n ↦ trace_from_leaf e max_stack_walk 0 remote s
]
