-- ===== src/Top/Stream.antt =====
-- How `read_child_out` cuts the child's output into lines, against a reader of single bytes.
use phpspy.Prelude.{
  ℕ, zero, suc, ◌+◌, ◌≤◌, ◌<◌, ◌≡◌, refl, sym, ap, ◌∙◌, ◌==◌, if◌then◌else◌, false, Option, none,
  some, List, [], ◌∷◌, ◌++◌, arith, length, drop, length-append, ℕ_discrete, dec_lt, ◌≢◌,
}
use mathlib.Core.Path.{subst}
use phpspy.Prelude.Text.{Text}
use phpspy.Prelude.Bytes.{memchr, has, has-append}
use phpspy.Prelude.Uthash.{Uthash}
use phpspy.Top.{
  buf_size, parse_line, Top, intern, entry_of, bump_all, count_frame, accept, handle_line,
  next_line, handle_lines, make_room, read_child_out,
}
use phpspy.Top.Lines.{parse_line-cut}

memchr-none : (d : ℕ) (p : Text) → has d p ≡ false → memchr d p ≡ none
unfolding memchr
memchr-none d [] h = refl
memchr-none d (c ∷ p) h = ground (arith, memchr-none d p)

memchr-append : (d : ℕ) (p t : Text) → has d p ≡ false → memchr d (p ++ d ∷ t) ≡ some (length p)
unfolding memchr
memchr-append d [] t h = ground arith
memchr-append d (c ∷ p) t h = ground (arith, memchr-append d p t)

drop_line : (p t : Text) (c : ℕ) → drop (suc (length p)) (p ++ c ∷ t) ≡ t
drop_line [] t c = refl
drop_line (a ∷ p) t c = drop_line p t c

pub append_assoc : (p t : Text) (c : ℕ) → (p ++ (c ∷ [])) ++ t ≡ p ++ c ∷ t
append_assoc [] t c = refl
append_assoc (a ∷ p) t c = ap (λ r. a ∷ r) (append_assoc p t c)

append_nil : (p : Text) → p ++ [] ≡ p
append_nil [] = refl
append_nil (a ∷ p) = ap (λ r. a ∷ r) (append_nil p)

module _ (hash : Uthash) where
  abbrev pub with_buf : Text → Top hash → Top hash
  with_buf b s = record s { buf = b }

  -- One byte of the child's output: a full line buffer is emptied, a newline completes the line.
  unfoldable pub feed : ℕ → Top hash → Top hash
  feed c s =
      let r = make_room hash s in
      if c == b'\n'
      then with_buf [] (handle_line hash (r.buf ++ (b'\n' ∷ [])) (length r.buf) r)
      else with_buf (r.buf ++ (c ∷ [])) r

  unfoldable pub feeds : Text → Top hash → Top hash
  feeds [] s = s
  feeds (c ∷ t) s = feeds t (feed c s)

  -- The reads of a run, one chunk after the other.
  unfoldable pub read_chunks : List Text → Top hash → Top hash
  read_chunks [] s = s
  read_chunks (c ∷ cs) s = read_chunks cs (read_child_out hash (some c) s)

  -- What `read` guarantees: a chunk is not empty, and no longer than what was asked for.
  unfoldable pub AreReads : List Text → Top hash → Type 0
  AreReads [] s = Unit
  AreReads (c ∷ cs) s =
      (0 < length c)
      × (length (make_room hash s).buf + length c ≤ buf_size)
      × AreReads cs (read_child_out hash (some c) s)

  abbrev pub joined_chunks : List Text → Text
  joined_chunks [] = []
  joined_chunks (c ∷ cs) = c ++ joined_chunks cs

  -- Handling a line leaves the buffer alone, and does not depend on it.
  bump_all-buf :
      (n k : ℕ) (func b : Text) (o : Option ℕ) (s : Top hash)
      → let t = bump_all hash n (entry_of hash func o (with_buf b s)) in
        with_buf (drop k t.buf) t ≡ with_buf (drop k b) (bump_all hash n (entry_of hash func o s))
  unfolding bump_all entry_of
  bump_all-buf n k func b none s = refl
  bump_all-buf n k func b (some a) s = refl

  accept-buf :
      (o : Option (ℕ × Text)) (k : ℕ) (b : Text) (s : Top hash)
      → let t = accept hash o (with_buf b s) in
        with_buf (drop k t.buf) t ≡ with_buf (drop k b) (accept hash o s)
  unfolding accept count_frame intern
  accept-buf none k b s = refl
  accept-buf (some (n, func)) k b s = bump_all-buf n k func b (hash.find ℕ func s.func_map) s

  next_line-append :
      (p w : Text) (s : Top hash)
      → next_line hash (length p) (with_buf (p ++ b'\n' ∷ w) s)
        ≡ with_buf w (handle_line hash (p ++ b'\n' ∷ []) (length p) s)
  unfolding next_line handle_line
  next_line-append p w s =
      accept-buf (parse_line (p ++ b'\n' ∷ w) (length p)) (suc (length p)) (p ++ b'\n' ∷ w) s
      ∙ ap (λ b. with_buf b (accept hash (parse_line (p ++ b'\n' ∷ w) (length p)) s))
          (drop_line p w b'\n')
      ∙ ap (λ o. with_buf w (accept hash o s)) (parse_line-cut p w)

  handle_line-with_buf :
      (p b : Text) (s : Top hash)
      → with_buf [] (handle_line hash (p ++ b'\n' ∷ []) (length p) (with_buf b s))
        ≡ with_buf [] (handle_line hash (p ++ b'\n' ∷ []) (length p) s)
  unfolding handle_line
  handle_line-with_buf p b s =
      ap (λ t. with_buf [] t) (accept-buf (parse_line (p ++ b'\n' ∷ []) (length p)) 0 b s)

  make_room-small : (s : Top hash) → length s.buf < buf_size → make_room hash s ≡ s
  unfolding make_room
  make_room-small s h = ground arith

  handle_lines-none :
      (fuel : ℕ) (b : Text) (s : Top hash)
      → has b'\n' b ≡ false
      → handle_lines hash fuel (with_buf b s) ≡ with_buf b s
  unfolding handle_lines
  handle_lines-none zero b s h = refl
  handle_lines-none (suc fuel) b s h = ground (arith, memchr-none b'\n' b h)

  handle_lines-some :
      (fuel : ℕ) (p w : Text) (s : Top hash)
      → has b'\n' p ≡ false
      → handle_lines hash (suc fuel) (with_buf (p ++ b'\n' ∷ w) s)
        ≡ handle_lines hash fuel (next_line hash (length p) (with_buf (p ++ b'\n' ∷ w) s))
  unfolding handle_lines
  handle_lines-some fuel p w s h = ground (arith, memchr-append b'\n' p w h)

  make_room-with_buf :
      (p : Text) (s : Top hash) → length p < buf_size → make_room hash (with_buf p s) ≡ with_buf p s
  unfolding make_room
  make_room-with_buf p s h = ground arith

  pub feed-newline :
      (p : Text) (s : Top hash)
      → length p < buf_size
      → feed b'\n' (with_buf p s) ≡ with_buf [] (handle_line hash (p ++ b'\n' ∷ []) (length p) s)
  unfolding feed
  feed-newline p s h = rw (make_room-with_buf p s h, handle_line-with_buf p p s)

  pub feed-other :
      (c : ℕ) (p : Text) (s : Top hash)
      → c ≢ b'\n'
      → length p < buf_size
      → feed c (with_buf p s) ≡ with_buf (p ++ c ∷ []) s
  unfolding feed make_room
  feed-other c p s ne h = ground arith

  handle_lines-feeds :
      (fuel : ℕ) (w p : Text) (s : Top hash)
      → has b'\n' p ≡ false
      → length p + length w ≤ buf_size
      → length w ≤ fuel
      → handle_lines hash fuel (with_buf (p ++ w) s) ≡ feeds w (with_buf p s)
  unfolding feeds
  handle_lines-feeds fuel [] p s h small enough =
      subst (λ b. handle_lines hash fuel (with_buf b s) ≡ with_buf p s) (sym (append_nil p))
        (handle_lines-none fuel p s h)
  handle_lines-feeds zero (c ∷ w) p s h small enough = absurd (omega arith)
  handle_lines-feeds (suc fuel) (c ∷ w) p s h small enough = elim (ℕ_discrete c b'\n') [
    | yes e ↦
        subst
          (λ c.
            handle_lines hash (suc fuel) (with_buf (p ++ c ∷ w) s)
            ≡ feeds w (feed c (with_buf p s)))
          (sym e)
          (handle_lines-some fuel p w s h
            ∙ ap (handle_lines hash fuel) (next_line-append p w s)
            ∙ handle_lines-feeds fuel w [] (handle_line hash (p ++ b'\n' ∷ []) (length p) s) refl
                (omega arith) (omega arith)
            ∙ ap (feeds w) (sym (feed-newline p s (omega arith))))
    | no ne ↦
        ap (λ b. handle_lines hash (suc fuel) (with_buf b s)) (sym (append_assoc p w c))
        ∙ handle_lines-feeds (suc fuel) w (p ++ c ∷ []) s
            (ground (arith, has-append b'\n' p (c ∷ []))) (omega (arith, length-append p (c ∷ [])))
            (omega arith)
        ∙ ap (feeds w) (sym (feed-other c p s ne (omega arith)))
  ]

  feed-make_room : (c : ℕ) (s : Top hash) → feed c (make_room hash s) ≡ feed c s
  unfolding feed make_room
  feed-make_room c s = ground arith

  read_child_out-feeds :
      (chunk : Text) (s : Top hash)
      → has b'\n' (make_room hash s).buf ≡ false
      → 0 < length chunk
      → length (make_room hash s).buf + length chunk ≤ buf_size
      → read_child_out hash (some chunk) s ≡ feeds chunk s
  unfolding read_child_out feeds
  read_child_out-feeds [] s h nonempty fits = absurd (omega arith)
  read_child_out-feeds (c ∷ t) s h nonempty fits =
      let b = (make_room hash s).buf in
      handle_lines-feeds (length (b ++ c ∷ t)) (c ∷ t) b (make_room hash s) h fits
        (omega (arith, length-append b (c ∷ t)))
      ∙ ap (feeds t) (feed-make_room c s)

  -- The buffer holds the start of one line, and does not overflow.
  pub record IsBuffered (s : Top hash) : Type 0 where
    pub one_line : has b'\n' s.buf ≡ false
    pub fits : length s.buf ≤ buf_size

  make_room-IsBuffered :
      (s : Top hash)
      → IsBuffered s
      → IsBuffered (make_room hash s) × (length (make_room hash s).buf < buf_size)
  unfolding make_room
  make_room-IsBuffered s v = elim (dec_lt (length s.buf) buf_size) [
    | yes room ↦ rw (make_room-small s room) (v, room)
    | no full ↦ (record { one_line = ground arith; fits = ground arith }, ground arith)
  ]

  feed-IsBuffered : (c : ℕ) (s : Top hash) → IsBuffered s → IsBuffered (feed c s)
  unfolding feed
  feed-IsBuffered c s v =
      let (w, room) = make_room-IsBuffered s v in
      elim (ℕ_discrete c b'\n') [
        | yes e ↦ record { one_line = ground arith; fits = ground arith }
        | no ne ↦ record {
          one_line = ground (arith, w.one_line, has-append b'\n' (make_room hash s).buf (c ∷ []));
          fits = ground (arith, length-append (make_room hash s).buf (c ∷ []));
        }
      ]

  feeds-IsBuffered : (t : Text) (s : Top hash) → IsBuffered s → IsBuffered (feeds t s)
  unfolding feeds
  feeds-IsBuffered [] s v = v
  feeds-IsBuffered (c ∷ t) s v = feeds-IsBuffered t (feed c s) (feed-IsBuffered c s v)

  feeds-append : (t u : Text) (s : Top hash) → feeds (t ++ u) s ≡ feeds u (feeds t s)
  unfolding feeds
  feeds-append [] u s = refl
  feeds-append (c ∷ t) u s = feeds-append t u (feed c s)

  -- The chunks that `read` returns, none empty and none longer than asked for, leave the state that
  -- the same bytes leave one by one, whatever the chunks are, and the buffer keeps the start of one
  -- line of at most 512 bytes, if it did before.
  pub read_chunks-feeds :
      (cs : List Text) (s : Top hash)
      → IsBuffered s
      → AreReads cs s
      → (read_chunks cs s ≡ feeds (joined_chunks cs) s) × IsBuffered (read_chunks cs s)
  unfolding read_chunks AreReads feeds
  read_chunks-feeds [] s v ok = (refl, v)
  read_chunks-feeds (c ∷ cs) s v (nonempty, fits, ok) =
      let (w, room) = make_room-IsBuffered s v in
      let e = read_child_out-feeds c s w.one_line nonempty fits in
      let later = subst IsBuffered (sym e) (feeds-IsBuffered c s v) in
      let (all, last) = read_chunks-feeds cs (read_child_out hash (some c) s) later ok in
      (all ∙ ap (feeds (joined_chunks cs)) e ∙ sym (feeds-append c (joined_chunks cs) s), last)
