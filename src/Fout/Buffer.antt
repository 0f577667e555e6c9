-- ===== src/Fout/Buffer.antt =====
-- The record buffer of event_fout.c: its growth, its appends and its truncation.
use phpspy.Prelude.{
  ℕ, zero, suc, ◌+◌, ◌-◌, ◌*◌, ltb, leb, ◌==◌, if◌then◌else◌, Bool, true, Option, none, some, [],
  ◌∷◌, ◌++◌, length, take, drop,
}
use phpspy.Prelude.Text.{Text}
use phpspy.Prelude.Bytes.{memrchr}
use phpspy.Options.{Options}
use phpspy.Fout.Sys.{Env}

-- `event_handler_fout_udata_t`. `buf` holds the first `len` bytes of the C buffer; the byte behind
-- them is its NUL.
pub record Udata : Type 0 where
  pub fd : ℕ
  pub buf : Text
  pub cap : ℕ
  pub use_mutex : Bool
  pub truncated : Bool
  pub trunc_marker : Text
  pub trace_id_tail : Text

-- PHPSPY_FOUT_MAX_BUFFER
abbrev pub max_buffer : ℕ
max_buffer = 4 * 1024 * 1024

-- `while (new_cap < needed_cap) new_cap *= 2`. Doubling a positive number more than `needed` times
-- passes `needed`, so the fuel is not what ends the loop.
unfoldable pub double_until : ℕ → ℕ → ℕ → ℕ
double_until zero new_cap needed = new_cap
double_until (suc f) new_cap needed =
    let more = double_until f (new_cap * 2) needed in if ltb new_cap needed then more else new_cap

-- The new capacity, `none` for PHPSPY_ERR.
unfoldable pub realloc_cap : Env → ℕ → ℕ → Option ℕ
unfolding double_until
realloc_cap e cap needed =
    if ltb max_buffer needed
    then none
    else let grown = double_until needed cap needed in
      let new_cap = if ltb max_buffer grown then max_buffer else grown in
      if e.realloc_ok new_cap then some new_cap else none

unfoldable pub fout_realloc : Env → Udata → ℕ → Option Udata
unfolding realloc_cap
fout_realloc e u needed = elim (realloc_cap e u.cap needed) [
  | none ↦ none
  | some new_cap ↦ some (record u { cap = new_cap })
]

-- `memrchr` over the buffer: what is left is the text up to and with the last frame delimiter.
abbrev pub whole_records : ℕ → Text → Text
whole_records d t = elim (memrchr d t) [ none ↦ [] | some i ↦ take (i + 1) t ]

unfoldable pub fout_truncate : Options → Udata → Udata
fout_truncate o u = record u { truncated = true; buf = whole_records o.frame_delim u.buf }

-- One round of the loop over `delims`: `while (cur < stop)` with `memchr`. The number is how far
-- `cur` has moved: behind the last delimiter, and nowhere if there is none.
unfoldable pub strip_round : ℕ → Text → Text × ℕ
strip_round d [] = ([], 0)
strip_round d (c ∷ cs) =
    let (rest, n) = strip_round d cs in
    ((if c == d then b'?' else c) ∷ rest, if n == 0 then (if c == d then 1 else 0) else n + 1)

-- Both rounds. The second starts where the first has left `cur`.
unfoldable pub strip_delims : Options → Text → Text
unfolding strip_round
strip_delims o t =
    let (t', cur) = strip_round o.frame_delim t in
    take cur t' ++ (strip_round o.trace_delim (drop cur t')).0

-- `event_handler_fout_snprintf`, given what the format expands to (`none` if `vsnprintf` fails).
unfoldable pub fout_snprintf : Options → Env → Udata → Bool → Option Text → Udata
fout_snprintf o e u strip formatted = if u.truncated then u else elim formatted [
  | none ↦ fout_truncate o u
  | some t ↦
      let appended : Text = if strip then strip_delims o t else t in
      if leb (u.cap - length u.buf) (length t)
      then elim (fout_realloc e u (length u.buf + length t + 1)) [
        | none ↦ fout_truncate o u
        | some u' ↦ record u' { buf = u'.buf ++ appended }
      ]
      else record u { buf = u.buf ++ appended }
]
