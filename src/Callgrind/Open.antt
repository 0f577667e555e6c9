-- ===== src/Callgrind/Open.antt =====
-- `callgrind_open`: where the handler writes its file, over the descriptors of Fout/Open.
use phpspy.Prelude.{ℕ, ◌≡◌, ◌≢◌, refl, if◌then◌else◌, Bool, Option, none, some, update, arith}
use phpspy.Prelude.Text.{Text, codes, text_eq}
use phpspy.Fout.Open.{Files, call_open, call_dup}

-- `dup(STDOUT_FILENO)` and `fdopen`, which closes nothing when it fails: the stream is closed then.
unfoldable pub open_stdout : Option ℕ → Bool → Files → Option ℕ × Files
open_stdout answer fdopen f =
    let (tfd, f') = call_dup answer 1 f in
    elim tfd [
      | none ↦ (none, f')
      | some fd ↦
          if fdopen then (some fd, f') else (none, record f' { table = update f'.table fd none })
    ]

-- The descriptor of `*fout`, `none` for a return of 1. `answer` is the new descriptor of `dup` or
-- `fopen`, which opens and truncates as `open` does; `fdopen` says whether `fdopen` finds its memory.
unfoldable pub callgrind_open : Text → Option ℕ → Bool → Files → Option ℕ × Files
unfolding open_stdout
callgrind_open path answer fdopen f =
    if text_eq path (codes "-") then open_stdout answer fdopen f else call_open answer path f

-- Whatever fails, `callgrind_open` changes no descriptor but the one that it returns.
callgrind_open_lem :
    (path : Text) (answer : Option ℕ) (fdopen : Bool) (f : Files) (i : ℕ)
    → ((fd : ℕ) → answer ≡ some fd → f.table fd ≡ none)
    → (callgrind_open path answer fdopen f).0 ≢ some i
    → (callgrind_open path answer fdopen f).1.table i ≡ f.table i
unfolding callgrind_open open_stdout
callgrind_open_lem path none fdopen f i unused other = ground arith
callgrind_open_lem path (some fd) fdopen f i unused other = ground (arith, unused fd refl)
