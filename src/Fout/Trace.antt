-- ===== src/Fout/Trace.antt =====
-- What `event_handler_fout_write_chunked` and `event_handler_fout_write` leave on the output.
use phpspy.Prelude.{
  ℕ, ◌+◌, ◌%◌, ◌^◌, ◌≡◌, ap, ◌∙◌, if◌then◌else◌, Bool, true, false, not, ◌&&◌, ◌||◌, List, [], ◌∷◌,
  ◌++◌, arith, length, All,
}
use phpspy.Prelude.Text.{Text}
use mathlib.Core.List.{append_assoc, append-nil}
use phpspy.Options.{Options}
use phpspy.Status.{ok}
use phpspy.Fout.Sys.{Env, Out}
use phpspy.Fout.Buffer.{Udata}
use phpspy.Fout.Chunks.{
  trace_id_text, fill_trace_id, write_chunk, Chunking, is_empty, chunk_loop, finish_chunks,
  write_chunked,
}
use phpspy.Fout.Reassembly.{
  payloads, joined, chunk_payloads, set-trace_id_text, write_chunk-payloads,
}
use phpspy.Fout.Loop.{Fit, Chunked, chunk_loop-Chunked}

-- The state in which the loop starts.
abbrev pub first_chunk : Udata → Out → Chunking
first_chunk u out = record {
  u = u;
  rest = u.buf;
  chunk_idx = 0;
  rv = ok;
  out = record out { trace_id = (out.trace_id + 1) % 2 ^ 64 };
}

-- The record that ends a truncated trace, and nothing for a complete one.
abbrev pub marker_payloads : Options → Udata → ℕ → ℕ → Bool → List Text
marker_payloads o u id idx cut =
    if cut then (u.trunc_marker ++ trace_id_text o id idx b'!') ∷ [] else []

-- A chunked trace: the bodies, what was left out of them, and the payloads that carry them.
pub record ChunkedTrace (o : Options) (u : Udata) (out : Out) (u' : Udata) (out' : Out)
    : Type 0 where
  pub bodies : List Text
  pub left : Text
  pub filled : All (λ b. is_empty b ≡ false) bodies
  pub split : u.buf ≡ joined bodies ++ left
  pub cut : u'.truncated ≡ (u.truncated || not (is_empty left))
  pub sent :
      payloads out'.writes
      ≡ payloads out.writes
        ++ (chunk_payloads o out.trace_id (not u'.truncated) 0 bodies
            ++ marker_payloads o u out.trace_id (length bodies) u'.truncated)
  pub fits : Fit o (chunk_payloads o out.trace_id (not u'.truncated) 0 bodies)

finish_chunks-cut :
    (o : Options) (e : Env) (id : ℕ) (s : Chunking)
    → (finish_chunks o e id s).1.truncated ≡ (s.u.truncated || not (is_empty s.rest))
unfolding finish_chunks write_chunk fill_trace_id
finish_chunks-cut o e id s = ground arith

finish_chunks-sent :
    (o : Options) (e : Env) (id : ℕ) (s : Chunking)
    → payloads (finish_chunks o e id s).2.writes
      ≡ payloads s.out.writes
        ++ marker_payloads o s.u id s.chunk_idx (s.u.truncated || not (is_empty s.rest))
unfolding finish_chunks fill_trace_id
finish_chunks-sent o e id s = ground (
  arith,
  append-nil (payloads s.out.writes),
  write_chunk-payloads e (fill_trace_id o s.u id s.chunk_idx) s.u.trunc_marker b'!' s.out,
  write_chunk-payloads e (fill_trace_id o (record s.u { truncated = true }) id s.chunk_idx)
      s.u.trunc_marker b'!' s.out,
  set-trace_id_text o id s.chunk_idx b'~' b'!',
)

not_or : (a b : Bool) → not (a || not b) ≡ (not a && b)
not_or a b = ground arith

finished :
    (o : Options) (e : Env) (u : Udata) (out : Out) (s : Chunking)
    → Chunked o out.trace_id (first_chunk u out) s
    → ChunkedTrace o u out (finish_chunks o e out.trace_id s).1 (finish_chunks o e out.trace_id s).2
finished o e u out s c = record {
  bodies = c.bodies;
  left = s.rest;
  filled = c.filled;
  split = c.split;
  cut = cut;
  sent =
      rw (cut, not_or, finish_chunks-sent, c.sent, truncated_kept, marker_kept, idx)
        (append_assoc (payloads out.writes) _ _);
  fits = rw (cut, not_or) c.fits;
}
  where
    cut : (finish_chunks o e out.trace_id s).1.truncated ≡ (u.truncated || not (is_empty s.rest))
    cut =
        finish_chunks-cut o e out.trace_id s
        ∙ ap (λ (v : Udata). v.truncated || not (is_empty s.rest)) c.kept

    truncated_kept : s.u.truncated ≡ u.truncated
    truncated_kept = ap (λ (v : Udata). v.truncated) c.kept

    marker_kept : s.u.trunc_marker ≡ u.trunc_marker
    marker_kept = ap (λ (v : Udata). v.trunc_marker) c.kept

    idx : s.chunk_idx ≡ length c.bodies
    idx = omega (arith, c.idx)

-- For every buffer, a chunked write splits the text into non-empty bodies and what is left out. It
-- writes the bodies in order, each with the tail that holds the trace id, its own index and the
-- sentinel: `!` on the last body if the trace is complete, `~` otherwise. A trace that is truncated,
-- by a full buffer or because something is left, ends with the truncation record, which carries
-- the index after the last body and `!`. Every body with its tail keeps to the buffer size.
pub write_chunked-ChunkedTrace :
    (o : Options) (e : Env) (u : Udata) (out : Out)
    → ChunkedTrace o u out (write_chunked o e u out).1 (write_chunked o e u out).2
unfolding write_chunked
write_chunked-ChunkedTrace o e u out =
    let s = chunk_loop o e out.trace_id (length u.buf + 1) (first_chunk u out) in
    let c =
      chunk_loop-Chunked o e out.trace_id (length u.buf + 1) (first_chunk u out) (omega arith) in
    finished o e u out s c
