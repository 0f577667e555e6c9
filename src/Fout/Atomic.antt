-- ===== src/Fout/Atomic.antt =====
-- The size of each write: what keeps the records of several threads from interleaving on a pipe.
use phpspy.Prelude.{
  ℕ, zero, suc, ◌+◌, ◌/◌, ◌%◌, ◌^◌, ◌≤◌, ◌<◌, ◌≡◌, inl, inr, ap, leb, if◌then◌else◌, Bool, true,
  false, not, List, [], ◌∷◌, ◌++◌, arith, length, Bool-cases, length-append, All, All-append,
  leb→le,
}
use phpspy.Prelude.Text.{Text, decimal}
use native.Mathlib.Nat.{pow-suc}
use phpspy.Prelude.Text.{digits_onto}
use phpspy.Options.{Options}
use phpspy.Fout.Sys.{Env, Out, fout_writev}
use phpspy.Fout.Buffer.{Udata, max_buffer}
use phpspy.Fout.Chunks.{trace_id_text, is_empty, write_whole, fout_write}
use phpspy.Fout.Reassembly.{payloads, payloads-append, joined, chunk_payloads}
use phpspy.Fout.Loop.{Fit}
use phpspy.Fout.Trace.{ChunkedTrace, marker_payloads, write_chunked-ChunkedTrace}

length-digits_onto :
    (k f n : ℕ) (acc : Text) → n < 10 ^ suc k → length (digits_onto f n acc) ≤ suc k + length acc
unfolding digits_onto
length-digits_onto k zero n acc h = omega arith
length-digits_onto zero (suc f) n acc h = ground arith
length-digits_onto (suc k) (suc f) n acc h = ground (
  arith,
  length-digits_onto k f (n / 10) ((48 + n % 10) ∷ acc) (omega (arith, pow-suc 10 (suc k))),
)

-- A 64-bit number has at most twenty digits.
pub length-decimal : (n : ℕ) → n < 2 ^ 64 → length (decimal n) ≤ 20
unfolding decimal
length-decimal n h = omega (arith, length-digits_onto 19 (n + 1) n [] (omega arith))

-- The tail of a chunk with 64-bit numbers is at most 57 bytes, so it fits its array of 64 bytes
-- with its NUL, and `snprintf` cuts nothing.
length-trace_id_text-le :
    (o : Options) (id idx c : ℕ)
    → id < 2 ^ 64
    → idx < 2 ^ 64
    → length (trace_id_text o id idx c) ≤ 57
unfolding trace_id_text
length-trace_id_text-le o id idx c hid hidx = omega (
  arith,
  length-append (decimal id) (b'.' ∷ (decimal idx ++ (c ∷ o.frame_delim ∷ o.trace_delim ∷ []))),
  length-append (decimal idx) (c ∷ o.frame_delim ∷ o.trace_delim ∷ []),
  length-decimal id hid,
  length-decimal idx hidx,
)

length-bodies : (bs : List Text) → All (λ b. is_empty b ≡ false) bs → length bs ≤ length (joined bs)
length-bodies [] h = omega arith
length-bodies ([] ∷ bs) h = absurd (ground arith)
length-bodies ((c ∷ b) ∷ bs) h = omega (arith, length-bodies bs h.1, length-append b (joined bs))

-- The payloads that a write has added.
pub record Adds (o : Options) (out out' : Out) : Type 0 where
  pub new : List Text
  pub sent : payloads out'.writes ≡ payloads out.writes ++ new
  pub fits : Fit o new

chunked-Adds :
    (o : Options) (u u' : Udata) (out out' : Out)
    → ChunkedTrace o u out u' out'
    → 73 ≤ o.fout_buffer_size
    → out.trace_id < 2 ^ 64
    → length u.trunc_marker ≤ 16
    → length u.buf ≤ max_buffer
    → Adds o out out'
chunked-Adds o u u' out out' c wide id marker small = record {
  new =
      chunk_payloads o out.trace_id (not u'.truncated) 0 c.bodies
      ++ marker_payloads o u out.trace_id (length c.bodies) u'.truncated;
  sent = c.sent;
  fits = All-append _ _ _ c.fits (marker_fits u'.truncated);
}
  where
    few : length c.bodies ≤ max_buffer
    few = omega (
      arith,
      length-bodies c.bodies c.filled,
      ap (length {A = ℕ}) c.split,
      length-append (joined c.bodies) c.left,
    )

    marker_fits : (b : Bool) → Fit o (marker_payloads o u out.trace_id (length c.bodies) b)
    marker_fits false = tt
    marker_fits true = (
      omega (
        arith,
        length-append u.trunc_marker (trace_id_text o out.trace_id (length c.bodies) b'!'),
        length-trace_id_text-le o out.trace_id (length c.bodies) b'!' id (omega (arith, few)),
      ),
      tt,
    )

whole-Adds :
    (o : Options) (e : Env) (u : Udata) (out : Out)
    → length u.buf + 1 + (if u.truncated then length u.trunc_marker else 0) ≤ o.fout_buffer_size
    → Adds o out (write_whole o e u out).1
unfolding write_whole fout_writev
whole-Adds o e u out small = record {
  new = _ ∷ [];
  sent = payloads-append out.writes _;
  fits = (whole_fits, tt);
}
  where
    marker : Text
    marker = if u.truncated then u.trunc_marker else []

    marker_length : length marker ≡ (if u.truncated then length u.trunc_marker else 0)
    marker_length = ground arith

    whole_fits : length (u.buf ++ (marker ++ (o.trace_delim ∷ []))) ≤ o.fout_buffer_size
    whole_fits = omega (
      arith,
      small,
      marker_length,
      length-append u.buf (marker ++ (o.trace_delim ∷ [])),
      length-append marker (o.trace_delim ∷ []),
    )

-- With a buffer size of at least 73 bytes, `event_handler_fout_write` never hands more bytes to
-- one `writev` than the buffer size, whether it writes the trace whole or in chunks, truncated or
-- not. (The truncation marker is at most 16 bytes, the text within the buffer limit, and trace
-- ids are 64-bit numbers.)
pub fout_write-Adds :
    (o : Options) (e : Env) (u : Udata) (out : Out)
    → 73 ≤ o.fout_buffer_size
    → out.trace_id < 2 ^ 64
    → length u.trunc_marker ≤ 16
    → length u.buf ≤ max_buffer
    → Adds o out (fout_write o e u out).2
unfolding fout_write
fout_write-Adds o e u out wide id marker small =
    elim (Bool-cases (
      leb (length u.buf + 1 + (if u.truncated then length u.trunc_marker else 0))
        o.fout_buffer_size)) [
          | inl le ↦ rw le (whole-Adds o e u out (leb→le _ _ le))
          | inr gt ↦
              rw gt (
                chunked-Adds o u _ out _ (write_chunked-ChunkedTrace o e u out) wide id marker
                  small)
        ]
