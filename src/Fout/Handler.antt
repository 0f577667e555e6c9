-- ===== src/Fout/Handler.antt =====
-- The handler over a whole run: every event keeps the buffer valid.
use phpspy.Prelude.{
  ℕ, ◌+◌, ◌≤◌, ◌≡◌, inl, inr, sym, ap, ◌==◌, Option, none, some, List, [], arith, length,
  Bool-cases, Option-cases,
}
use phpspy.Prelude.Text.{Text}
use mathlib.Core.Path.{subst}
use phpspy.Prelude.Int.{ℤ}
use phpspy.Options.{Options}
use phpspy.Event.{
  Event, init, stack_begin, stack_end, deinit, frame, varpeek, glopeek, request, mem,
}
use phpspy.Fout.Sys.{Env, Out}
use phpspy.Fout.Buffer.{Udata, max_buffer, fout_realloc, realloc_cap}
use phpspy.Fout.Growth.{IsGrown, fout_realloc_lem}
use phpspy.Fout.Strip.{IsDelims}
use phpspy.Fout.Whole.{IsRecords, IsRecords-nil}
use phpspy.Fout.Chunks.{finish_chunks, write_chunk, fill_trace_id, write_chunked, fout_write}
use phpspy.Fout.Loop.{chunk_loop-Chunked}
use phpspy.Fout.Trace.{first_chunk}
use phpspy.Fout.Records.{IsValid, fout_records-Kept, fout_records-truncated}
use phpspy.Fout.Events.{
  fout_records, fout_init, verbose_texts, initial, filtered_out, fout_stack_end, event_handler_fout,
}

-- What a udata is worth before INIT and after DEINIT, and in between.
abbrev pub IsValid? : Options → Option Udata → Type 0
IsValid? o none = Unit
IsValid? o (some u) = IsValid o u

fout_realloc-small :
    (e : Env) (u : Udata) (needed : ℕ) {u' : Udata}
    → fout_realloc e u needed ≡ some u'
    → needed ≤ max_buffer
unfolding fout_realloc realloc_cap
fout_realloc-small e u needed h = ground arith

fout_init-IsValid :
    (o : Options) (e : Env) {u : Udata}
    → 1 ≤ o.fout_buffer_size
    → fout_init o e ≡ some u
    → IsValid o u
unfolding fout_init
fout_init-IsValid o e {u} one h = elim (Option-cases e.open_fd) [
  | inl closed ↦ absurd (ground arith)
  | inr (fd, opened) ↦
      let got : fout_realloc e (initial o fd) o.fout_buffer_size ≡ some u = ground arith in
      let small = fout_realloc-small e (initial o fd) o.fout_buffer_size got in
      let (same, enough, le, bounded, tight) =
        subst (IsGrown e (initial o fd) o.fout_buffer_size) got
          (fout_realloc_lem e (initial o fd) o.fout_buffer_size one small) in
      let empty : u.buf ≡ [] = ap (λ (w : Udata). w.buf) same in
      record {
        room = omega (arith, ap (length {A = ℕ}) empty, enough, one);
        bounded = bounded;
        records = subst (IsRecords o.frame_delim) (sym empty) (IsRecords-nil o.frame_delim);
      }
]

-- Writing changes the flag and the tail at most.
finish_chunks-kept :
    (o : Options) (e : Env) (id : ℕ) (u : Udata) (out : Out)
    → let u' = (write_chunked o e u out).1 in (u'.buf ≡ u.buf) × (u'.cap ≡ u.cap)
unfolding write_chunked finish_chunks write_chunk fill_trace_id
finish_chunks-kept o e id u out =
    let c =
      chunk_loop-Chunked o e out.trace_id (length u.buf + 1) (first_chunk u out) (omega arith) in
    ground (arith, ap (λ (w : Udata). w.buf) c.kept, ap (λ (w : Udata). w.cap) c.kept)

fout_write-kept :
    (o : Options) (e : Env) (u : Udata) (out : Out)
    → let u' = (fout_write o e u out).1 in (u'.buf ≡ u.buf) × (u'.cap ≡ u.cap)
unfolding fout_write
fout_write-kept o e u out = ground (arith, finish_chunks-kept o e 0 u out)

IsValid-kept :
    (o : Options) (u u' : Udata) → (u'.buf ≡ u.buf) × (u'.cap ≡ u.cap) → IsValid o u → IsValid o u'
IsValid-kept o u u' same v = record {
  room = rw (same.0, same.1) v.room;
  bounded = rw (same.1) v.bounded;
  records = subst (IsRecords o.frame_delim) (sym same.0) v.records;
}

fout_records-IsValid :
    (o : Options) (e : Env) (u : Udata) (ts : List Text)
    → IsDelims o
    → IsValid o u
    → IsValid o (fout_records o e u ts)
fout_records-IsValid o e u ts d v = elim (Bool-cases u.truncated) [
  | inl shut ↦ rw (fout_records-truncated o e u ts shut) v
  | inr open_ ↦ (fout_records-Kept o e u ts d v open_).valid
]

fout_stack_end-IsValid :
    (o : Options) (e : Env) (pid : ℤ) (u : Udata) (out : Out)
    → IsDelims o
    → IsValid o u
    → IsValid o (fout_stack_end o e pid u out).1
unfolding fout_stack_end
fout_stack_end-IsValid o e pid u out d v = elim (Bool-cases (length u.buf == 0)) [
  | inl empty ↦ rw empty v
  | inr some_text ↦ elim (Bool-cases (filtered_out o e u.buf)) [
    | inl skip ↦ rw (some_text, skip) v
    | inr keep ↦
        let u1 = fout_records o e u (verbose_texts o e pid) in
        rw (some_text, keep)
          (IsValid-kept o u1 _ (fout_write-kept o e u1 out) (fout_records-IsValid o e u _ d v))
  ]
]

-- Every event keeps the udata valid, whatever the memory, the output and the filter do: the text
-- with its NUL stays within the capacity, the capacity within the limit, and the text is a list of
-- whole records. INIT makes it so, for a buffer size of at least one byte.
pub event_handler_fout-IsValid :
    (o : Options) (e : Env) (pid : ℤ) (ud : Option Udata) (out : Out) (ev : Event)
    → IsDelims o
    → 1 ≤ o.fout_buffer_size
    → IsValid? o ud
    → IsValid? o (event_handler_fout o e pid ud out ev).1
unfolding event_handler_fout
event_handler_fout-IsValid o e pid ud out init d one v = elim (Option-cases (fout_init o e)) [
  | inl failed ↦ rw (failed, IsValid?) v
  | inr (u, made) ↦ rw (made, IsValid?) (fout_init-IsValid o e one made)
]
event_handler_fout-IsValid o e pid none out stack_begin d one v = tt
event_handler_fout-IsValid o e pid none out _ d one v = tt
event_handler_fout-IsValid o e pid (some u) out stack_begin d one v = record {
  room = omega (arith, v.room);
  bounded = v.bounded;
  records = IsRecords-nil o.frame_delim;
}
event_handler_fout-IsValid o e pid (some u) out stack_end d one v =
    fout_stack_end-IsValid o e pid u out d v
event_handler_fout-IsValid o e pid (some u) out deinit d one v = tt
event_handler_fout-IsValid o e pid (some u) out (frame f) d one v = fout_records-IsValid o e u _ d v
event_handler_fout-IsValid o e pid (some u) out (varpeek f) d one v =
    fout_records-IsValid o e u _ d v
event_handler_fout-IsValid o e pid (some u) out (glopeek f) d one v =
    fout_records-IsValid o e u _ d v
event_handler_fout-IsValid o e pid (some u) out (request f) d one v =
    fout_records-IsValid o e u _ d v
event_handler_fout-IsValid o e pid (some u) out (mem f) d one v = fout_records-IsValid o e u _ d v
