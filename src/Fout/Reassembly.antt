-- ===== src/Fout/Reassembly.antt =====
-- What the writes of a chunked trace hold, and that a reader can put the trace together again.
use phpspy.Prelude.{
  ℕ, zero, suc, ◌+◌, ◌-◌, ◌≤◌, ◌≡◌, inl, inr, refl, sym, ap, ◌==◌, if◌then◌else◌, Bool, true, false,
  not, ◌&&◌, some, List, [], ◌∷◌, ◌++◌, arith, length, take, drop, set, Option-cases, length-append,
  length-take,
}
use phpspy.Prelude.Text.{Text, codes, decimal}
use mathlib.Core.List.{append_assoc}
use mathlib.Core.Bool.{false≢true}
use mathlib.Core.Path.{subst}
use phpspy.Prelude.Bytes.{memrchr, memrchr-lt}
use phpspy.Options.{Options}
use phpspy.Fout.Sys.{Env, Write, Out, fout_writev}
use phpspy.Fout.Buffer.{Udata}
use phpspy.Fout.Chunks.{
  find_chunk_end, trace_id_text, fill_trace_id, write_chunk, Chunking, chunk_room, is_empty,
  chunk_next, chunk_round,
}

abbrev pub payloads : List Write → List Text
payloads [] = []
payloads (w ∷ ws) = w.payload ∷ payloads ws

pub payloads-append : (vs ws : List Write) → payloads (vs ++ ws) ≡ payloads vs ++ payloads ws
payloads-append [] ws = refl
payloads-append (v ∷ vs) ws = ap (λ r. v.payload ∷ r) (payloads-append vs ws)

-- The bytes of the bodies in order.
abbrev pub joined : List Text → Text
joined [] = []
joined (b ∷ bs) = b ++ joined bs

-- The payloads for a list of bodies from chunk number `idx` on: each body with its tail, whose
-- sentinel is `!` at the last one of a trace that is `closed` by it, and `~` elsewhere.
unfoldable pub chunk_payloads : Options → ℕ → Bool → ℕ → List Text → List Text
chunk_payloads o id closed idx [] = []
chunk_payloads o id closed idx (b ∷ []) =
    (b ++ trace_id_text o id idx (if closed then b'!' else b'~')) ∷ []
chunk_payloads o id closed idx (b ∷ b' ∷ bs) =
    (b ++ trace_id_text o id idx b'~') ∷ chunk_payloads o id closed (idx + 1) (b' ∷ bs)

set-append : (p q : Text) (n v : ℕ) → n ≡ length p → set (p ++ q) n v ≡ p ++ set q 0 v
set-append [] q zero v h = refl
set-append [] q (suc n) v h = absurd (omega arith)
set-append (c ∷ p) q zero v h = absurd (omega arith)
set-append (c ∷ p) q (suc n) v h = ap (λ r. c ∷ r) (set-append p q n v (omega arith))

set-third_last :
    (p : Text) (n c c' a b : ℕ)
    → n ≡ length (p ++ (c ∷ a ∷ b ∷ [])) - 3
    → set (p ++ (c ∷ a ∷ b ∷ [])) n c' ≡ p ++ (c' ∷ a ∷ b ∷ [])
set-third_last p n c c' a b h =
    set-append p (c ∷ a ∷ b ∷ []) n c' (omega (arith, length-append p (c ∷ a ∷ b ∷ [])))

abbrev id_prefix : ℕ → ℕ → Text
id_prefix id idx = codes "# trace_id = " ++ (decimal id ++ (b'.' ∷ decimal idx))

trace_id_text-split :
    (o : Options) (id idx c : ℕ)
    → trace_id_text o id idx c ≡ id_prefix id idx ++ (c ∷ o.frame_delim ∷ o.trace_delim ∷ [])
unfolding trace_id_text
trace_id_text-split o id idx c = simp append_assoc

-- The third byte from the end is the sentinel.
pub set-trace_id_text :
    (o : Options) (id idx c c' : ℕ)
    → set (trace_id_text o id idx c) (length (trace_id_text o id idx c) - 3) c'
      ≡ trace_id_text o id idx c'
set-trace_id_text o id idx c c' =
    rw (trace_id_text-split o id idx c, trace_id_text-split o id idx c')
      (set-third_last (id_prefix id idx) _ c c' o.frame_delim o.trace_delim refl)

pub length-trace_id_text :
    (o : Options) (id idx c c' : ℕ)
    → length (trace_id_text o id idx c) ≡ length (trace_id_text o id idx c')
length-trace_id_text o id idx c c' =
    rw (trace_id_text-split o id idx c, trace_id_text-split o id idx c')
      (omega (
        arith,
        length-append (id_prefix id idx) (c ∷ o.frame_delim ∷ o.trace_delim ∷ []),
        length-append (id_prefix id idx) (c' ∷ o.frame_delim ∷ o.trace_delim ∷ []),
      ))

find_chunk_end-bounds :
    (o : Options) (chunk : Text) (max : ℕ) {n : ℕ}
    → is_empty chunk ≡ false
    → find_chunk_end o chunk max ≡ some n
    → (1 ≤ n) × (n ≤ max) × (n ≤ length chunk)
unfolding find_chunk_end
find_chunk_end-bounds o [] max ne e = absurd (false≢true (sym ne))
find_chunk_end-bounds o (c ∷ cs) max ne e =
    elim (Option-cases (memrchr o.frame_delim (take max (c ∷ cs)))) [
      | inl m ↦ ground arith
      | inr (i, m) ↦
          ground (arith, memrchr-lt o.frame_delim (take max (c ∷ cs)) m, length-take max (c ∷ cs))
    ]

-- What a round that goes on has done.
pub record Wrote (o : Options) (id : ℕ) (s s' : Chunking) : Type 0 where
  pub len : ℕ
  pub some_taken : 1 ≤ len
  pub within : len ≤ length s.rest
  pub body_fits : len + length (trace_id_text o id s.chunk_idx b'~') ≤ o.fout_buffer_size
  pub rest : s'.rest ≡ drop len s.rest
  pub idx : s'.chunk_idx ≡ s.chunk_idx + 1
  pub sent :
      payloads s'.out.writes
      ≡ payloads s.out.writes
        ++ ((take len s.rest
              ++ trace_id_text o id s.chunk_idx
                  (if (len == length s.rest) && not s.u.truncated then b'!' else b'~'))
            ∷ [])
  pub kept : s'.u ≡ record s.u { trace_id_tail = s'.u.trace_id_tail }

pub write_chunk-payloads :
    (e : Env) (u : Udata) (body : Text) (sentinel : ℕ) (out : Out)
    → payloads (write_chunk e u body sentinel out).2.writes
      ≡ payloads out.writes
        ++ ((body ++ set u.trace_id_tail (length u.trace_id_tail - 3) sentinel) ∷ [])
unfolding write_chunk fout_writev
write_chunk-payloads e u body sentinel out = payloads-append out.writes _

pub write_chunk-kept :
    (e : Env) (u : Udata) (body : Text) (sentinel : ℕ) (out : Out)
    → (write_chunk e u body sentinel out).1
      ≡ record u { trace_id_tail = (write_chunk e u body sentinel out).1.trace_id_tail }
unfolding write_chunk
write_chunk-kept e u body sentinel out = refl

-- The round finds a chunk of the rest.
chunk_round-found :
    (o : Options) (e : Env) (id : ℕ) (s : Chunking)
    → (chunk_round o e id s).0 ≡ true
    → (n : ℕ) × (find_chunk_end o s.rest (chunk_room o (trace_id_text o id s.chunk_idx b'~'))
        ≡ some n)
      × (is_empty s.rest ≡ false)
      × ((chunk_round o e id s).1 ≡ chunk_next e s (fill_trace_id o s.u id s.chunk_idx) n)
unfolding chunk_round fill_trace_id
chunk_round-found o e id s go =
    elim (Option-cases
      (find_chunk_end o s.rest (chunk_room o (trace_id_text o id s.chunk_idx b'~')))) [
        | inl m ↦ absurd (ground arith)
        | inr (n, m) ↦ (n, m, ground arith, ground arith)
      ]

pub chunk_round-Wrote :
    (o : Options) (e : Env) (id : ℕ) (s : Chunking)
    → (chunk_round o e id s).0 ≡ true
    → Wrote o id s (chunk_round o e id s).1
unfolding chunk_next fill_trace_id
chunk_round-Wrote o e id s go =
    let (n, found, ne, same) = chunk_round-found o e id s go in
    let (pos, le, in_rest) = find_chunk_end-bounds o s.rest _ ne found in
    subst (Wrote o id s) (sym same) (record {
      len = n;
      some_taken = pos;
      within = in_rest;
      body_fits = ground arith;
      rest = refl;
      idx = refl;
      sent =
          rw
            (← set-trace_id_text o id s.chunk_idx b'~'
              (if (n == length s.rest) && not s.u.truncated then b'!' else b'~'))
            (write_chunk-payloads e _ _ _ s.out);
      kept = write_chunk-kept e _ _ _ s.out;
    })

pub chunk_round-stop :
    (o : Options) (e : Env) (id : ℕ) (s : Chunking)
    → (chunk_round o e id s).0 ≡ false
    → (chunk_round o e id s).1 ≡ record s { u = (chunk_round o e id s).1.u }
unfolding chunk_round
chunk_round-stop o e id s h = ground arith

pub chunk_round-kept :
    (o : Options) (e : Env) (id : ℕ) (s : Chunking)
    → (chunk_round o e id s).0 ≡ false
    → (chunk_round o e id s).1.u
      ≡ record s.u { trace_id_tail = (chunk_round o e id s).1.u.trace_id_tail }
unfolding chunk_round fill_trace_id
chunk_round-kept o e id s h = ground arith
