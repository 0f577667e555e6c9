-- ===== src/Top/Traces.antt =====
-- From the output handler to top mode: what the one writes of a trace, the other counts.
use phpspy.Prelude.{
  ℕ, zero, suc, ◌+◌, ◌%◌, ◌^◌, ◌≤◌, ◌<◌, ◌≡◌, refl, sym, ap, ◌∙◌, if◌then◌else◌, false, List, [],
  ◌∷◌, ◌++◌, map, arith, length, take, All, length-append,
}
use mathlib.Core.Path.{subst}
use mathlib.Core.List
use phpspy.Prelude.Text.{Text, text_eq, decimal}
use phpspy.Prelude.Bytes.{has}
use phpspy.Prelude.Number.{ulong_max}
use phpspy.Prelude.Uthash.{Uthash}
use phpspy.Event.{Frame}
use phpspy.Options.{Options}
use phpspy.Fout.Sys.{Env}
use phpspy.Fout.Buffer.{Udata, strip_delims}
use phpspy.Fout.Events.{sprint_loc, frame_text, fout_records}
use phpspy.Fout.Reassembly.{joined}
use phpspy.Fout.Atomic.{length-decimal}
use phpspy.Fout.Strip.{IsDelims, strip_round-none}
use phpspy.Fout.Records.{IsValid, record_bytes, Kept, fout_records-Kept}
use phpspy.Top.{func_size, buf_size, Top, accept, parse_line, accept_line, handle_line}
use phpspy.Top.Stream.{
  with_buf, feed, feeds, feed-newline, feed-other, append_assoc, read_chunks, AreReads,
  joined_chunks, IsBuffered, read_chunks-feeds,
}
use phpspy.Top.Totals.{sum, IsCounted, handle_line-IsCounted}
use phpspy.Top.Frames.{inclusive, handle_line-frame_text}

-- A frame that top mode can read: its depth is an `unsigned long`, its location fits an entry, and its
-- text is one line.
pub record IsPlain (f : Frame) : Type 0 where
  pub depth_lem : f.depth ≤ ulong_max
  pub short : length (sprint_loc f.loc) < func_size
  pub one_line : has b'\n' (frame_text f) ≡ false

length-frame_text : (f : Frame) → IsPlain f → length (frame_text f) < buf_size
unfolding frame_text
length-frame_text f p = omega (
  arith,
  p.depth_lem,
  p.short,
  length-decimal f.depth (omega (arith, p.depth_lem)),
  length-append (decimal f.depth) (b' ' ∷ sprint_loc f.loc),
)

-- How many frames have the location `k`.
abbrev pub count : Text → List Frame → ℕ
count k [] = 0
count k (f ∷ fs) = (if text_eq (sprint_loc f.loc) k then 1 else 0) + count k fs

-- The lines of a trace, with the empty one at its end.
abbrev trace_lines : List Frame → Text
trace_lines [] = b'\n' ∷ []
trace_lines (f ∷ fs) = frame_text f ++ (b'\n' ∷ trace_lines fs)

strip_delims-none :
    (o : Options) (t : Text)
    → has o.frame_delim t ≡ false
    → has o.trace_delim t ≡ false
    → strip_delims o t ≡ t
unfolding strip_delims
strip_delims-none o t h h' =
    rw (strip_round-none o.frame_delim t h) (rw (strip_round-none o.trace_delim t h') refl)

take_all : {A : Type 0} (xs : List A) (n : ℕ) → length xs ≤ n → take n xs ≡ xs
take_all [] zero h = refl
take_all [] (suc n) h = refl
take_all (x ∷ xs) zero h = absurd (omega arith)
take_all (x ∷ xs) (suc n) h = ap (λ r. x ∷ r) (take_all xs n (omega arith))

joined-trace_lines :
    (o : Options) (fs : List Frame)
    → o.frame_delim ≡ b'\n'
    → o.trace_delim ≡ b'\n'
    → All IsPlain fs
    → joined (map (record_bytes o) (map frame_text fs)) ++ (o.trace_delim ∷ []) ≡ trace_lines fs
joined-trace_lines o [] d d' h = ap (λ c. c ∷ []) d'
joined-trace_lines o (f ∷ fs) d d' (p, h) =
    let text = frame_text f in
    let rest = joined (map (record_bytes o) (map frame_text fs)) in
    let plain : record_bytes o text ≡ text ++ (b'\n' ∷ []) =
      ap (λ t. t ++ (o.frame_delim ∷ []))
        (strip_delims-none o text (rw d p.one_line) (rw d' p.one_line))
      ∙ ap (λ c. text ++ (c ∷ [])) d in
    ap (λ l. (l ++ rest) ++ (o.trace_delim ∷ [])) plain
    ∙ List.append_assoc (text ++ (b'\n' ∷ [])) rest (o.trace_delim ∷ [])
    ∙ List.append_assoc text (b'\n' ∷ []) (rest ++ (o.trace_delim ∷ []))
    ∙ ap (λ r. text ++ (b'\n' ∷ r)) (joined-trace_lines o fs d d' h)

delims : {o : Options} → o.frame_delim ≡ b'\n' → o.trace_delim ≡ b'\n' → IsDelims o
delims d d' = record { frame_ne = ground arith; trace_ne = ground arith }

-- A buffer that is not truncated has kept all texts.
all_texts_lem :
    (o : Options) (u : Udata) (ts : List Text) {u' : Udata}
    → Kept o u ts u'
    → u.buf ≡ []
    → u'.truncated ≡ false
    → u'.buf ≡ joined (map (record_bytes o) ts)
all_texts_lem o u ts r empty whole =
    r.bytes
    ∙ ap (λ b. b ++ joined (map (record_bytes o) (take r.kept ts))) empty
    ∙ ap (λ xs. joined (map (record_bytes o) xs)) (take_all ts r.kept (ground (arith, r.full)))

module _ (hash : Uthash) where
  buffered : (s : Top hash) → s.buf ≡ [] → IsBuffered hash s
  buffered s e = record { one_line = rw e refl; fits = rw e (omega arith) }

  feeds-line :
      (p b t : Text) (s : Top hash)
      → has b'\n' p ≡ false
      → length b + length p < buf_size
      → feeds hash (p ++ b'\n' ∷ t) (with_buf hash b s)
        ≡ feeds hash t
            (with_buf hash [] (handle_line hash ((b ++ p) ++ b'\n' ∷ []) (length (b ++ p)) s))
  unfolding feeds
  feeds-line [] b t s h small =
      subst
        (λ w.
          feeds hash t (feed hash b'\n' (with_buf hash b s))
          ≡ feeds hash t (with_buf hash [] (handle_line hash (w ++ b'\n' ∷ []) (length w) s)))
        (sym (List.append-nil b)) (ap (feeds hash t) (feed-newline hash b s (omega arith)))
  feeds-line (c ∷ p) b t s h small =
      ap (feeds hash (p ++ b'\n' ∷ t)) (feed-other hash c b s (λ e. ground arith) (omega arith))
      ∙ feeds-line p (b ++ c ∷ []) t s (ground arith) (omega (arith, length-append b (c ∷ [])))
      ∙ ap (λ w. feeds hash t (with_buf hash [] (handle_line hash (w ++ b'\n' ∷ []) (length w) s)))
          (append_assoc b p c)

  with_buf-IsCounted :
      (b : Text) (s : Top hash) → IsCounted hash s → IsCounted hash (with_buf hash b s)
  with_buf-IsCounted b s v = record {
    entry_at = v.entry_at;
    found = v.found;
    named = v.named;
    balanced = v.balanced;
    room = v.room;
  }

  empty_line : (s : Top hash) → handle_line hash (b'\n' ∷ []) 0 s ≡ s
  unfolding handle_line parse_line accept_line accept
  empty_line s = refl

  -- The lines of a trace are counted, one by one.
  pub record Counts (k : Text) (n : ℕ) (s s' : Top hash) : Type 0 where
    pub counted : IsCounted hash s'
    pub grown :
        sum (inclusive k) s'.func_list % 2 ^ 64 ≡ (sum (inclusive k) s.func_list + n) % 2 ^ 64

  feeds-Counts :
      (fs : List Frame) (k : Text) (s : Top hash)
      → All IsPlain fs
      → IsCounted hash s
      → Counts k (count k fs) s (feeds hash (trace_lines fs) (with_buf hash [] s))
  unfolding feeds
  feeds-Counts [] k s h v =
      subst (Counts k 0 s)
        (sym (feed-newline hash [] s (omega arith) ∙ ap (with_buf hash []) (empty_line s)))
        (record { counted = with_buf-IsCounted [] s v; grown = omega arith })
  feeds-Counts (f ∷ fs) k s (p, h) v =
      let line = frame_text f ++ b'\n' ∷ [] in
      let t = handle_line hash line (length (frame_text f)) s in
      let w = handle_line-IsCounted hash line (length (frame_text f)) s v in
      let one = handle_line-frame_text hash f (b'\n' ∷ []) k s v p.depth_lem p.short in
      let rest = feeds-Counts fs k t h w in
      subst (Counts k (count k (f ∷ fs)) s)
        (sym (
          feeds-line (frame_text f) [] (trace_lines fs) s p.one_line
            (omega (arith, length-frame_text f p))))
        (record { counted = rest.counted; grown = omega (arith, rest.grown, one) })

  -- The output handler prints the frames of a trace into an empty buffer, with newlines for both
  -- delimiters, and drops none of them; the chunks that top mode reads, none empty and none longer
  -- than asked for, are together what `write_whole` then writes. If each frame is one line with a
  -- location of at most 255 bytes, then the inclusive count of every text grows by the number of
  -- frames with this location, modulo 2^64, however the chunks cut the lines.
  pub read_chunks-fout_records :
      (o : Options) (e : Env) (u : Udata) (fs : List Frame) (cs : List Text) (k : Text)
      (s : Top hash)
      → o.frame_delim ≡ b'\n'
      → o.trace_delim ≡ b'\n'
      → IsValid o u
      → u.buf ≡ []
      → u.truncated ≡ false
      → (fout_records o e u (map frame_text fs)).truncated ≡ false
      → All IsPlain fs
      → IsCounted hash s
      → s.buf ≡ []
      → AreReads hash cs s
      → joined_chunks hash cs ≡ (fout_records o e u (map frame_text fs)).buf ++ (o.trace_delim ∷ [])
      → sum (inclusive k) (read_chunks hash cs s).func_list % 2 ^ 64
        ≡ (sum (inclusive k) s.func_list + count k fs) % 2 ^ 64
  read_chunks-fout_records o e u fs cs k s d d' v empty open_ whole plain counted fresh ok same =
      let printed = fout_records-Kept o e u (map frame_text fs) (delims d d') v open_ in
      let text = joined_chunks hash cs in
      let bytes : text ≡ trace_lines fs =
        same
        ∙ ap (λ b. b ++ (o.trace_delim ∷ []))
            (all_texts_lem o u (map frame_text fs) printed empty whole)
        ∙ joined-trace_lines o fs d d' plain in
      let read = (read_chunks-feeds hash cs s (buffered s fresh) ok).0 in
      let start : with_buf hash [] s ≡ s = ap (λ b. with_buf hash b s) (sym fresh) in
      let total = feeds-Counts fs k s plain counted in
      subst
        (λ (t : Top hash).
          sum (inclusive k) t.func_list % 2 ^ 64
          ≡ (sum (inclusive k) s.func_list + count k fs) % 2 ^ 64)
        (sym (read ∙ ap (λ t. feeds hash t s) bytes ∙ ap (feeds hash (trace_lines fs)) (sym start)))
        total.grown
