-- ===== src/Fout/Tests.antt =====
-- Buffers and writes of event_fout.c at concrete inputs.
use phpspy.Prelude.{◌≡◌, refl, true, false, some, [], ◌∷◌, ◌++◌, arith, length}
use phpspy.Prelude.Int.{pos}
use phpspy.Prelude.Text.{Text, codes}
use phpspy.Prelude.Bytes.{has}
use phpspy.Options.{Options, defaults}
use phpspy.Event.{mem}
use phpspy.Fout.Sys.{Env, Out}
use phpspy.Fout.Buffer.{Udata, fout_realloc, strip_delims}
use phpspy.Fout.Chunks.{write_chunked, fout_write}
use phpspy.Fout.Events.{fout_records, event_handler_fout}
use phpspy.Fout.Growth.{IsGrown, fout_realloc_lem}
use phpspy.Fout.Strip.{IsDelims, has_frame-strip_delims, trace_delim_survives}
use phpspy.Fout.Trace.{ChunkedTrace, write_chunked-ChunkedTrace}
use phpspy.Fout.Whole.{IsRecords-nil}
use phpspy.Fout.Records.{IsValid, Kept, fout_records-Kept}
use phpspy.Fout.Atomic.{Adds, fout_write-Adds}
use phpspy.Fout.Handler.{IsValid?, event_handler_fout-IsValid}

-- `writev` takes everything.
abbrev env : Env
env = record {
  realloc_ok = λ size. true;
  writev = λ k bytes. some (length bytes);
  regexec = λ re t. true;
  open_fd = some 1;
  timestamp = codes "1.5";
}

-- Single-line mode: a tab between frames, a line end between traces.
abbrev opts : Options
opts = record defaults { frame_delim = 9; fout_buffer_size = 73 }

abbrev udata : Text → Udata
udata text = record {
  fd = 1;
  buf = text;
  cap = 256;
  use_mutex = false;
  truncated = false;
  trunc_marker = codes "# truncated = 1\t";
  trace_id_tail = [];
}

abbrev no_writes : Out
no_writes = record { writes = []; trace_id = 6 }

-- Two records that do not fit one write of 73 bytes.
abbrev long_text : Text
long_text =
    codes "0 Some\\Long\\Namespace\\SomeClass::method /srv/a.php:10\t"
    ++ codes "1 <main> /srv/www/html/index.php:3\t"

opts-IsDelims : IsDelims opts
opts-IsDelims = record { frame_ne = omega arith; trace_ne = omega arith }

empty-IsValid : IsValid opts (udata [])
empty-IsValid = record { room = omega arith; bounded = omega arith; records = IsRecords-nil 9 }

write_chunked-ChunkedTrace_example :
    ChunkedTrace opts
      (udata long_text)
      no_writes
      (write_chunked opts env (udata long_text) no_writes).1
      (write_chunked opts env (udata long_text) no_writes).2
write_chunked-ChunkedTrace_example = write_chunked-ChunkedTrace opts env (udata long_text) no_writes

fout_records-Kept_example :
    Kept opts
      (udata [])
      (codes "a\tb" ∷ long_text ∷ [])
      (fout_records opts env (udata []) (codes "a\tb" ∷ long_text ∷ []))
fout_records-Kept_example =
    fout_records-Kept opts env (udata []) (codes "a\tb" ∷ long_text ∷ []) opts-IsDelims
      empty-IsValid refl

event_handler_fout-IsValid_example :
    IsValid? opts
      (event_handler_fout opts env
        (pos 5)
        (some (udata []))
        no_writes
        (mem (record { size = 1; peak = 2 }))).1
event_handler_fout-IsValid_example =
    event_handler_fout-IsValid opts env (pos 5) (some (udata [])) no_writes
      (mem (record { size = 1; peak = 2 })) opts-IsDelims (omega arith) empty-IsValid

fout_write-Adds_example : Adds opts no_writes (fout_write opts env (udata long_text) no_writes).2
fout_write-Adds_example =
    fout_write-Adds opts env (udata long_text) no_writes (omega arith) (omega arith) (omega arith)
      (omega arith)

fout_realloc_lem_example : IsGrown env (udata []) 1000 (fout_realloc env (udata []) 1000)
fout_realloc_lem_example = fout_realloc_lem env (udata []) 1000 (omega arith) (omega arith)

has_frame-strip_delims_example : has 9 (strip_delims opts long_text) ≡ false
has_frame-strip_delims_example = has_frame-strip_delims opts long_text opts-IsDelims

trace_delim_survives_example : has 10 (strip_delims opts (codes "a\nb\tc")) ≡ true
trace_delim_survives_example =
    trace_delim_survives opts (codes "a\nb") (codes "c") (omega arith) refl
