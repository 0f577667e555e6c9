-- ===== src/Fout/Events.antt =====
-- `event_handler_fout`: the switch over the event types.
use phpspy.Prelude.{
  ℕ, ltb, ◌==◌, if◌then◌else◌, Bool, true, false, not, Option, none, some, List, [], ◌∷◌, ◌++◌,
  length,
}
use phpspy.Prelude.Text.{c_str, Text, codes, decimal, decimal_ℤ}
use phpspy.Prelude.Int.{ℤ}
use phpspy.Prelude.Bytes.{memchr}
use phpspy.Options.{Options}
use phpspy.Status.{Status, ok, err, err_skipped}
use phpspy.Event.{
  Loc, Frame, Event, init, stack_begin, stack_end, deinit, frame, varpeek, glopeek, request, mem,
}
use phpspy.Fout.Sys.{Env, Out}
use phpspy.Fout.Buffer.{Udata, fout_realloc, fout_snprintf}
use phpspy.Fout.Chunks.{fout_write}

-- "%.*s%s%.*s %.*s:%d": class, "::" if there is one, function, file and line.
-- What PHP has behind a NUL, as in the name of an anonymous class, is not printed.
unfoldable pub sprint_loc : Loc → Text
sprint_loc l =
    c_str l.class
    ++ ((if ltb 0 (length l.class) then codes "::" else [])
        ++ (c_str l.func ++ (b' ' ∷ (c_str l.file ++ (b':' ∷ decimal_ℤ l.lineno)))))

unfoldable pub frame_text : Frame → Text
frame_text f = decimal f.depth ++ (b' ' ∷ sprint_loc f.loc)

-- The two calls that print a record: its text, stripped of delimiters, and the frame delimiter.
unfoldable pub fout_record : Options → Env → Udata → Text → Udata
fout_record o e u t =
    fout_snprintf o e (fout_snprintf o e u true (some t)) false (some (o.frame_delim ∷ []))

unfoldable pub fout_records : Options → Env → Udata → List Text → Udata
fout_records o e u [] = u
fout_records o e u (t ∷ ts) = fout_records o e (fout_record o e u t) ts

-- The texts that an event prints, in order.
unfoldable pub event_texts : Event → List Text
event_texts (frame f) = frame_text f ∷ []
event_texts (varpeek v) =
    (codes "# varpeek "
      ++ (v.name ++ (b'@' ∷ (v.filename_lineno ++ (codes " = " ++ c_str v.zval_str)))))
    ∷ []
event_texts (glopeek g) = (codes "# glopeek " ++ (g.key ++ (codes " = " ++ c_str g.zval_str))) ∷ []
event_texts (request r) =
    (codes "# uri = " ++ r.uri)
    ∷ (codes "# path = " ++ r.path)
    ∷ (codes "# qstring = " ++ r.qstring)
    ∷ (codes "# cookie = " ++ r.cookie)
    ∷ (codes "# ts = " ++ r.ts)
    ∷ []
event_texts (mem m) = (codes "# mem " ++ (decimal m.size ++ (b' ' ∷ decimal m.peak))) ∷ []
event_texts init = []
event_texts stack_begin = []
event_texts stack_end = []
event_texts deinit = []

-- The udata that INIT fills in: `calloc` gives zeros, and `buf` is NULL until `realloc` gives it
-- `cap` bytes.
abbrev pub initial : Options → ℕ → Udata
initial o fd = record {
  fd = fd;
  buf = [];
  cap = o.fout_buffer_size;
  use_mutex = elim o.event_handler_opts [
    | none ↦ false
    | some s ↦ elim (memchr b'm' s) [ none ↦ false | some i ↦ true ]
  ];
  truncated = false;
  trunc_marker = codes "# truncated = 1" ++ (o.frame_delim ∷ []);
  trace_id_tail = [];
}

-- PHPSPY_TRACE_EVENT_INIT
unfoldable pub fout_init : Options → Env → Option Udata
fout_init o e = elim e.open_fd [
  | none ↦ none
  | some fd ↦ fout_realloc e (initial o fd) o.fout_buffer_size
]

-- `-f` skips what does not match, `-F` what does.
unfoldable pub filtered_out : Options → Env → Text → Bool
filtered_out o e t = elim o.filter_re [
  | none ↦ false
  | some re ↦ if o.filter_negate then e.regexec re t else not (e.regexec re t)
]

-- The verbose fields that STACK_END appends.
unfoldable pub verbose_texts : Options → Env → ℤ → List Text
verbose_texts o e pid =
    (if o.verbose_fields_ts then (codes "# trace_ts = " ++ e.timestamp) ∷ [] else [])
    ++ (if o.verbose_fields_pid then (codes "# pid = " ++ decimal_ℤ pid) ∷ [] else [])

unfoldable pub fout_stack_end : Options → Env → ℤ → Udata → Out → Status × Udata × Out
fout_stack_end o e pid u out =
    if length u.buf == 0
    then (ok, u, out)
    else if filtered_out o e u.buf
    then (err_skipped, u, out)
    else fout_write o e (fout_records o e u (verbose_texts o e pid)) out

-- The handler. `none` is `context->event_udata` before INIT, and after DEINIT, which frees it.
unfoldable pub event_handler_fout :
    Options → Env → ℤ → Option Udata → Out → Event → Status × Option Udata × Out
event_handler_fout o e pid ud out init = elim (fout_init o e) [
  | none ↦ (err, ud, out)
  | some u ↦ (ok, some u, out)
]
event_handler_fout o e pid none out ev = (err, none, out)
event_handler_fout o e pid (some u) out stack_begin =
    (ok, some (record u { buf = []; truncated = false }), out)
event_handler_fout o e pid (some u) out stack_end =
    let (rv, u', out') = fout_stack_end o e pid u out in (rv, some u', out')
event_handler_fout o e pid (some u) out deinit = (ok, none, out)
event_handler_fout o e pid (some u) out ev = (ok, some (fout_records o e u (event_texts ev)), out)
