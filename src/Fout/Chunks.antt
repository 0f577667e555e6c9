-- ===== src/Fout/Chunks.antt =====
-- How event_fout.c writes a finished trace: whole, or in chunks with trace ids.
use phpspy.Prelude.{
  ℕ, zero, suc, ◌+◌, ◌-◌, ◌%◌, ◌^◌, ltb, leb, ◌==◌, if◌then◌else◌, Bool, true, false, not, ◌&&◌,
  Option, none, some, [], ◌∷◌, ◌++◌, length, take, drop, set,
}
use phpspy.Prelude.Text.{Text, codes, decimal}
use phpspy.Prelude.Bytes.{memrchr}
use phpspy.Options.{Options}
use phpspy.Status.{Status, ok, err_truncated, ◌⊔◌}
use phpspy.Fout.Sys.{Env, Out, fout_writev}
use phpspy.Fout.Buffer.{Udata}

-- `event_handler_fout_find_chunk_end`: the length of the chunk, `none` for NULL. The text runs from
-- `chunk_start` to `stop`.
unfoldable pub find_chunk_end : Options → Text → ℕ → Option ℕ
find_chunk_end o chunk max_chunk_len =
    if leb (length chunk) max_chunk_len
    then some (length chunk)
    else elim (memrchr o.frame_delim (take max_chunk_len chunk)) [
      | none ↦ none
      | some i ↦ some (i + 1)
    ]

-- The text that `event_handler_fout_fill_trace_id` formats. With 64-bit numbers it is at most 57
-- bytes long, so `snprintf` does not cut it.
unfoldable pub trace_id_text : Options → ℕ → ℕ → ℕ → Text
trace_id_text o trace_id chunk_idx sentinel =
    codes "# trace_id = "
    ++ (decimal trace_id
        ++ (b'.' ∷ (decimal chunk_idx ++ (sentinel ∷ o.frame_delim ∷ o.trace_delim ∷ []))))

unfoldable pub fill_trace_id : Options → Udata → ℕ → ℕ → Udata
fill_trace_id o u trace_id chunk_idx = record u {
  trace_id_tail = trace_id_text o trace_id chunk_idx b'~';
}

-- `event_handler_fout_write_chunk`: the body and the tail with its sentinel, in one `writev`.
unfoldable pub write_chunk : Env → Udata → Text → ℕ → Out → Status × Udata × Out
write_chunk e u body sentinel out =
    let tail = set u.trace_id_tail (length u.trace_id_tail - 3) sentinel in
    let (rv, out') = fout_writev e u.fd (body ++ tail) out in
    (rv, record u { trace_id_tail = tail }, out')

-- The local variables of `event_handler_fout_write_chunked`; `rest` runs from `chunk_start` to
-- `stop`.
pub record Chunking : Type 0 where
  pub u : Udata
  pub rest : Text
  pub chunk_idx : ℕ
  pub rv : Status
  pub out : Out

-- How many bytes of the buffer size the tail leaves: 0 if it leaves none.
abbrev pub chunk_room : Options → Text → ℕ
chunk_room o tail =
    if ltb (length tail) o.fout_buffer_size then o.fout_buffer_size - length tail else 0

abbrev pub is_empty : Text → Bool
is_empty [] = true
is_empty (c ∷ cs) = false

-- The end of a round that has found a chunk of `n` bytes: its sentinel, its write, and the step.
unfoldable pub chunk_next : Env → Chunking → Udata → ℕ → Chunking
chunk_next e s u n =
    let sentinel = if (n == length s.rest) && not u.truncated then b'!' else b'~' in
    let (rv, u', out') = write_chunk e u (take n s.rest) sentinel s.out in
    record { u = u'; rest = drop n s.rest; chunk_idx = s.chunk_idx + 1; rv = s.rv ⊔ rv; out = out' }

-- One round of the loop; `false` when it ends, by its test or by its `break`.
unfoldable pub chunk_round : Options → Env → ℕ → Chunking → Bool × Chunking
chunk_round o e trace_id s =
    let u = fill_trace_id o s.u trace_id s.chunk_idx in
    let chunk : Bool × Chunking = elim (find_chunk_end o s.rest (chunk_room o u.trace_id_tail)) [
      | none ↦ (false, record s { u = u })
      | some n ↦ (true, chunk_next e s u n)
    ] in
    if is_empty s.rest then (false, s) else chunk

-- Every round that goes on takes at least one byte of the rest.
unfoldable pub chunk_loop : Options → Env → ℕ → ℕ → Chunking → Chunking
chunk_loop o e trace_id zero s = s
chunk_loop o e trace_id (suc f) s =
    let (go, s') = chunk_round o e trace_id s in
    let more = chunk_loop o e trace_id f s' in if go then more else s'

-- What follows the loop: text that is left makes the trace truncated, and a truncated trace gets
-- its truncation record.
unfoldable pub finish_chunks : Options → Env → ℕ → Chunking → Status × Udata × Out
finish_chunks o e trace_id s =
    let u : Udata = if is_empty s.rest then s.u else record s.u { truncated = true } in
    let marked : Status × Udata × Out =
      (let (rv, u', out') =
          write_chunk e (fill_trace_id o u trace_id s.chunk_idx) u.trunc_marker b'!' s.out in
        (s.rv ⊔ rv, u', out')) in
    if not u.truncated then (s.rv, u, s.out) else marked

-- `event_handler_fout_write_chunked`. The counter of trace ids is a `uint64_t`.
unfoldable pub write_chunked : Options → Env → Udata → Out → Status × Udata × Out
write_chunked o e u out = finish_chunks o e out.trace_id (
    chunk_loop o e out.trace_id (length u.buf + 1) (record {
      u = u;
      rest = u.buf;
      chunk_idx = 0;
      rv = ok;
      out = record out { trace_id = (out.trace_id + 1) % 2 ^ 64 };
    }))

-- `event_handler_fout_write_whole`
unfoldable pub write_whole : Options → Env → Udata → Out → Status × Out
write_whole o e u out =
    let marker : Text = if u.truncated then u.trunc_marker else [] in
    fout_writev e u.fd (u.buf ++ (marker ++ (o.trace_delim ∷ []))) out

-- `event_handler_fout_write`. The mutex is only held around the writes.
unfoldable pub fout_write : Options → Env → Udata → Out → Status × Udata × Out
fout_write o e u out =
    let total_len = length u.buf + 1 + (if u.truncated then length u.trunc_marker else 0) in
    let whole : Status × Udata × Out = (let (rv, out') = write_whole o e u out in (rv, u, out')) in
    let (rv, u', out') =
      if leb total_len o.fout_buffer_size then whole else write_chunked o e u out in
    (if u'.truncated then rv ⊔ err_truncated else rv, u', out')
