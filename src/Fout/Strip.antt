-- ===== src/Fout/Strip.antt =====
-- Which delimiters the stripping removes, and that truncation undoes exactly an unfinished record.
use phpspy.Prelude.{
  ℕ, zero, suc, ◌+◌, ◌≤◌, ◌≡◌, ◌≢◌, ◌⊎◌, inl, inr, refl, sym, ap, true, false, [], ◌∷◌, ◌++◌, arith,
  length, take, drop, length-append, length-take, length-drop,
}
use phpspy.Prelude.Text.{Text}
use mathlib.Core.Path.{subst}
use phpspy.Prelude.Bytes.{has, has-append}
use phpspy.Options.{Options}
use phpspy.Fout.Buffer.{strip_round, strip_delims}

-- The two delimiters differ from the byte that replaces them.
pub record IsDelims (o : Options) : Type 0 where
  pub frame_ne : o.frame_delim ≢ b'?'
  pub trace_ne : o.trace_delim ≢ b'?'

length-strip_round : (d : ℕ) (t : Text) → length (strip_round d t).0 ≡ length t
unfolding strip_round
length-strip_round d [] = refl
length-strip_round d (c ∷ cs) = ap suc (length-strip_round d cs)

pub length-strip_delims : (o : Options) (t : Text) → length (strip_delims o t) ≡ length t
unfolding strip_delims
length-strip_delims o t =
    let (t', cur) = strip_round o.frame_delim t in
    omega (
      arith,
      length-append (take cur t') (strip_round o.trace_delim (drop cur t')).0,
      length-strip_round o.trace_delim (drop cur t'),
      length-take cur t',
      length-drop cur t',
      length-strip_round o.frame_delim t,
    )

-- A round leaves none of its delimiter, and brings in nothing but question marks.
has-strip_round : (d : ℕ) (t : Text) → d ≢ b'?' → has d (strip_round d t).0 ≡ false
unfolding strip_round
has-strip_round d [] ne = refl
has-strip_round d (c ∷ cs) ne = ground (arith, has-strip_round d cs)

has-strip_round_other :
    (x d : ℕ) (t : Text) → x ≢ b'?' → has x t ≡ false → has x (strip_round d t).0 ≡ false
unfolding strip_round
has-strip_round_other x d [] ne h = refl
has-strip_round_other x d (c ∷ cs) ne h = ground (arith, has-strip_round_other x d cs)

has-take : (d n : ℕ) (t : Text) → has d t ≡ false → has d (take n t) ≡ false
has-take d zero t h = refl
has-take d (suc n) [] h = refl
has-take d (suc n) (c ∷ cs) h = ground (arith, has-take d n cs)

has-drop : (d n : ℕ) (t : Text) → has d t ≡ false → has d (drop n t) ≡ false
has-drop d zero t h = h
has-drop d (suc n) [] h = refl
has-drop d (suc n) (c ∷ cs) h = has-drop d n cs (ground arith)

pub has_frame-strip_delims :
    (o : Options) (t : Text) → IsDelims o → has o.frame_delim (strip_delims o t) ≡ false
unfolding strip_delims
has_frame-strip_delims o t d =
    let (t', cur) = strip_round o.frame_delim t in
    let clean = has-strip_round o.frame_delim t d.frame_ne in
    ground (
      arith,
      has-append o.frame_delim (take cur t') (strip_round o.trace_delim (drop cur t')).0,
      has-take o.frame_delim cur t' clean,
      has-strip_round_other o.frame_delim o.trace_delim (drop cur t') d.frame_ne
          (has-drop o.frame_delim cur t' clean),
    )

pub strip_round-none : (d : ℕ) (t : Text) → has d t ≡ false → strip_round d t ≡ (t, 0)
unfolding strip_round
strip_round-none d [] h = refl
strip_round-none d (c ∷ cs) h = ground (arith, strip_round-none d cs)

-- Where the text has no frame delimiter, or the two delimiters are one, no trace delimiter is left.
pub has_trace-strip_delims :
    (o : Options) (t : Text)
    → IsDelims o
    → (has o.frame_delim t ≡ false) ⊎ (o.trace_delim ≡ o.frame_delim)
    → has o.trace_delim (strip_delims o t) ≡ false
unfolding strip_delims
has_trace-strip_delims o t d (inl none_in) =
    rw (strip_round-none o.frame_delim t none_in) (has-strip_round o.trace_delim t d.trace_ne)
has_trace-strip_delims o t d (inr same) =
    subst (λ x. has x (strip_delims o t) ≡ false) (sym same) (has_frame-strip_delims o t d)

-- How far the first round goes, and what it spares.
strip_round-cur : (d : ℕ) (p q : Text) → length p + 1 ≤ (strip_round d (p ++ (d ∷ q))).1
unfolding strip_round
strip_round-cur d [] q = ground arith
strip_round-cur d (c ∷ p) q = ground (arith, strip_round-cur d p q)

has-take-strip_round :
    (x d n : ℕ) (p q : Text)
    → x ≢ d
    → length p ≤ n
    → has x p ≡ true
    → has x (take n (strip_round d (p ++ q)).0) ≡ true
unfolding strip_round
has-take-strip_round x d n [] q ne le h = ground arith
has-take-strip_round x d zero (c ∷ p) q ne le h = absurd (omega arith)
has-take-strip_round x d (suc n) (c ∷ p) q ne le h = ground (arith, has-take-strip_round x d n p q)

-- Where the two delimiters differ, as in single-line mode, a trace delimiter in front of a frame
-- delimiter is still there after the stripping: the second round does not go back to the start.
pub trace_delim_survives :
    (o : Options) (p q : Text)
    → o.trace_delim ≢ o.frame_delim
    → has o.trace_delim p ≡ true
    → has o.trace_delim (strip_delims o (p ++ (o.frame_delim ∷ q))) ≡ true
unfolding strip_delims
trace_delim_survives o p q ne h =
    let t = p ++ (o.frame_delim ∷ q) in
    let (t', cur) = strip_round o.frame_delim t in
    ground (
      arith,
      has-append o.trace_delim (take cur t') (strip_round o.trace_delim (drop cur t')).0,
      has-take-strip_round o.trace_delim o.frame_delim cur p (o.frame_delim ∷ q) ne,
      strip_round-cur o.frame_delim p q,
    )
