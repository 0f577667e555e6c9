-- ===== src/Fout/Loop.antt =====
-- What the loop of `event_handler_fout_write_chunked` writes.
use phpspy.Prelude.{
  ℕ, zero, suc, ◌+◌, ◌≤◌, ◌<◌, ◌≡◌, inl, inr, refl, sym, ap, ◌∙◌, ◌==◌, if◌then◌else◌, Bool, true,
  false, not, ◌&&◌, List, [], ◌∷◌, ◌++◌, arith, length, take, drop, Bool-cases, length-append,
  length-take, length-drop, take-append-drop, All,
}
use phpspy.Prelude.Text.{Text}
use mathlib.Core.Bool.{false≢true}
use mathlib.Core.Path.{subst}
use mathlib.Core.List.{append_assoc, append-nil}
use phpspy.Options.{Options}
use phpspy.Fout.Sys.{Env}
use phpspy.Fout.Buffer.{Udata}
use phpspy.Fout.Chunks.{trace_id_text, Chunking, is_empty, chunk_round, chunk_loop}
use phpspy.Fout.Reassembly.{
  payloads, joined, chunk_payloads, length-trace_id_text, Wrote, chunk_round-Wrote,
  chunk_round-stop, chunk_round-kept,
}

abbrev pub Fit : Options → List Text → Type 0
Fit o ps = All (λ p. length p ≤ o.fout_buffer_size) ps

-- From `s` the loop has come to `s'` by writing these bodies.
pub record Chunked (o : Options) (id : ℕ) (s s' : Chunking) : Type 0 where
  pub bodies : List Text
  pub filled : All (λ b. is_empty b ≡ false) bodies
  pub split : s.rest ≡ joined bodies ++ s'.rest
  pub sent :
      payloads s'.out.writes
      ≡ payloads s.out.writes
        ++ chunk_payloads o id (not s.u.truncated && is_empty s'.rest) s.chunk_idx bodies
  pub fits : Fit o (chunk_payloads o id (not s.u.truncated && is_empty s'.rest) s.chunk_idx bodies)
  pub idx : s'.chunk_idx ≡ s.chunk_idx + length bodies
  pub kept : s'.u ≡ record s.u { trace_id_tail = s'.u.trace_id_tail }

Chunked-stop :
    (o : Options) (e : Env) (id : ℕ) (s : Chunking)
    → (chunk_round o e id s).0 ≡ false
    → Chunked o id s (chunk_round o e id s).1
unfolding chunk_payloads
Chunked-stop o e id s h = record {
  bodies = [];
  filled = tt;
  split = ground (arith, chunk_round-stop o e id s h);
  sent = ground (arith, chunk_round-stop o e id s h, append-nil (payloads s.out.writes));
  fits = tt;
  idx = ground (arith, chunk_round-stop o e id s h);
  kept = chunk_round-kept o e id s h;
}

abbrev is_nil : List Text → Bool
is_nil [] = true
is_nil (b ∷ bs) = false

chunk_payloads-cons :
    (o : Options) (id idx : ℕ) (closed : Bool) (b : Text) (bs : List Text)
    → chunk_payloads o id closed idx (b ∷ bs)
      ≡ (b ++ trace_id_text o id idx (if is_nil bs && closed then b'!' else b'~'))
        ∷ chunk_payloads o id closed (idx + 1) bs
unfolding chunk_payloads
chunk_payloads-cons o id idx closed b [] = refl
chunk_payloads-cons o id idx closed b (b' ∷ bs) = refl

is_empty-drop : (n : ℕ) (t : Text) → n ≤ length t → is_empty (drop n t) ≡ (n == length t)
is_empty-drop zero [] h = refl
is_empty-drop zero (c ∷ cs) h = ground arith
is_empty-drop (suc n) [] h = absurd (omega arith)
is_empty-drop (suc n) (c ∷ cs) h = ground (arith, is_empty-drop n cs)

is_empty-joined :
    (bs : List Text) (left : Text)
    → All (λ b. is_empty b ≡ false) bs
    → is_empty (joined bs ++ left) ≡ (is_nil bs && is_empty left)
is_empty-joined [] left h = refl
is_empty-joined ([] ∷ bs) left h = absurd (false≢true (sym h.0))
is_empty-joined ((c ∷ cs) ∷ bs) left h = refl

is_empty-take : (n : ℕ) (t : Text) → 1 ≤ n → n ≤ length t → is_empty (take n t) ≡ false
is_empty-take zero t h l = absurd (omega arith)
is_empty-take (suc n) [] h l = absurd (omega arith)
is_empty-take (suc n) (c ∷ cs) h l = refl

module _ (o : Options) (id : ℕ) (s s' s'' : Chunking) (w : Wrote o id s s')
    (c : Chunked o id s' s'') where
  -- A chunk reaches the end of the text exactly if no body follows and nothing is left.
  last_chunk :
      ((w.len == length s.rest) && not s.u.truncated)
      ≡ (is_nil c.bodies && (not s'.u.truncated && is_empty s''.rest))
  last_chunk = ground (
    arith,
    is_empty-drop w.len s.rest w.within,
    is_empty-joined c.bodies s''.rest c.filled,
    ap is_empty (w.rest ∙ refl),
    ap is_empty c.split,
    ap (λ (u : Udata). u.truncated) w.kept,
  )

  same_truncated : s'.u.truncated ≡ s.u.truncated
  same_truncated = ap (λ (u : Udata). u.truncated) w.kept

  abbrev closed : Bool
  closed = not s'.u.truncated && is_empty s''.rest

  payload : Text
  payload =
      take w.len s.rest
      ++ trace_id_text o id s.chunk_idx (if is_nil c.bodies && closed then b'!' else b'~')

  payload_fits : length payload ≤ o.fout_buffer_size
  unfolding payload
  payload_fits = omega (
    arith,
    w.body_fits,
    length-append (take w.len s.rest)
        (trace_id_text o id s.chunk_idx (if is_nil c.bodies && closed then b'!' else b'~')),
    length-trace_id_text o id s.chunk_idx b'~' (if is_nil c.bodies && closed then b'!' else b'~'),
    length-take w.len s.rest,
  )

  all_payloads :
      chunk_payloads o id
        (not s.u.truncated && is_empty s''.rest)
        s.chunk_idx
        (take w.len s.rest ∷ c.bodies)
      ≡ payload ∷ chunk_payloads o id closed s'.chunk_idx c.bodies
  unfolding payload
  all_payloads =
      rw (← same_truncated, w.idx) (chunk_payloads-cons o id s.chunk_idx closed _ c.bodies)

  first_sent : payloads s'.out.writes ≡ payloads s.out.writes ++ (payload ∷ [])
  unfolding payload
  first_sent = rw (← last_chunk) w.sent

  Chunked-next : Chunked o id s s''
  unfolding payload
  Chunked-next = record {
    bodies = take w.len s.rest ∷ c.bodies;
    filled = (is_empty-take w.len s.rest w.some_taken w.within, c.filled);
    split = ground (
      arith,
      w.rest,
      c.split,
      take-append-drop w.len s.rest,
      append_assoc (take w.len s.rest) (joined c.bodies) s''.rest,
    );
    sent =
        rw (all_payloads, c.sent, first_sent)
          (append_assoc (payloads s.out.writes) (payload ∷ []) _);
    fits = subst (Fit o) (sym all_payloads) (payload_fits, c.fits);
    idx = omega (arith, w.idx, c.idx);
    kept = ground (arith, w.kept, c.kept);
  }

shorter :
    {f : ℕ} (o : Options) (id : ℕ) (s s' : Chunking)
    → Wrote o id s s'
    → length s.rest < suc f
    → length s'.rest < f
shorter o id s s' w h =
    omega (arith, w.some_taken, w.within, ap (length {A = ℕ}) w.rest, length-drop w.len s.rest)

pub chunk_loop-Chunked :
    (o : Options) (e : Env) (id f : ℕ) (s : Chunking)
    → length s.rest < f
    → Chunked o id s (chunk_loop o e id f s)
unfolding chunk_loop
chunk_loop-Chunked o e id zero s h = absurd (omega arith)
chunk_loop-Chunked o e id (suc f) s h = elim (Bool-cases (chunk_round o e id s).0) [
  | inl go ↦
      let w = chunk_round-Wrote o e id s go in
      let s' = (chunk_round o e id s).1 in
      rw go (
        Chunked-next o id s s' (chunk_loop o e id f s') w
          (chunk_loop-Chunked o e id f s' (shorter o id s s' w h)))
  | inr stop ↦ rw stop (Chunked-stop o e id s stop)
]
