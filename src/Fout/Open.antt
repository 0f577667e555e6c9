-- ===== src/Fout/Open.antt =====
-- `event_handler_fout_open` and the `close` of DEINIT: the descriptors of the threads, and the one
-- that all of them share. A mutex makes a call of `event_handler_fout_open` one step.
use phpspy.Prelude.{
  ℕ, ◌≡◌, ◌==◌, if◌then◌else◌, Bool, Option, none, some, List, [], ◌∷◌, ◌++◌, length, update,
}
use phpspy.Prelude.Text.{Text, codes, text_eq, has_percent_d}
use phpspy.Options.{Options}

-- Which open file a descriptor refers to, and the paths of the files in the order in which `open`
-- has opened and truncated them. `shared_fd` is `none` while it is negative.
pub record Files : Type 0 where
  pub table : ℕ → Option ℕ
  pub opened : List Text
  pub shared_fd : Option ℕ

-- `answer` is the new descriptor, if there is one left.
abbrev pub call_open : Option ℕ → Text → Files → Option ℕ × Files
call_open none path f = (none, f)
call_open (some fd) path f = (
  some fd,
  record f { table = update f.table fd (some (length f.opened)); opened = f.opened ++ (path ∷ []) },
)

-- `dup` of a descriptor that refers to nothing is EBADF.
abbrev pub call_dup : Option ℕ → ℕ → Files → Option ℕ × Files
call_dup answer from f = elim (f.table from) [
  | none ↦ (none, f)
  | some file ↦ elim answer [
    | none ↦ (none, f)
    | some fd ↦ (some fd, record f { table = update f.table fd (some file) })
  ]
]

-- The descriptor that all threads share: opened by the first one, and again while that fails.
unfoldable pub open_shared : Option ℕ → Text → Files → Option ℕ × Files
open_shared answer path f = elim f.shared_fd [
  | none ↦ let (fd, f') = call_open answer path f in (fd, record f' { shared_fd = fd })
  | some shared ↦ call_dup answer shared f
]

-- `event_handler_fout_open`. `asprintf` puts the id of the thread into a path, `none` without memory.
unfoldable pub fout_open :
    (Text → ℕ → Option Text) → Options → ℕ → Option ℕ → Files → Option ℕ × Files
fout_open asprintf o tid answer f =
    if has_percent_d o.path_output
    then elim (asprintf o.path_output tid) [
      | none ↦ (none, f)
      | some apath ↦ call_open answer apath f
    ]
    else if text_eq o.path_output (codes "-")
    then call_dup answer 1 f
    else open_shared answer o.path_output f

-- The `close` of DEINIT.
unfoldable pub fout_close : ℕ → Files → Files
fout_close fd f =
    let closed = record f { table = update f.table fd none } in
    elim f.shared_fd [ none ↦ closed | some shared ↦ if fd == shared then f else closed ]

-- The threads, each with the descriptor of its udata between INIT and DEINIT.
pub record Handlers : Type 0 where
  pub files : Files
  pub fd : ℕ → Option ℕ

-- `kept` says whether INIT finds the memory of its buffer; if not it leaves the descriptor open.
-- A new descriptor is one that refers to nothing.
pub data Turn (asprintf : Text → ℕ → Option Text) (o : Options) (s : Handlers)
    : Handlers → Type 0 where
  init :
      (tid : ℕ) (answer : Option ℕ) (kept : Bool)
      → ((new : ℕ) → answer ≡ some new → s.files.table new ≡ none)
      → s.fd tid ≡ none
      → Turn asprintf o s (
          let r = fout_open asprintf o tid answer s.files in
          record { files = r.1; fd = update s.fd tid (if kept then r.0 else none) })
  deinit :
      (tid fd : ℕ)
      → s.fd tid ≡ some fd
      → Turn asprintf o s (record { files = fout_close fd s.files; fd = update s.fd tid none })

-- Before the first INIT nothing but `table` is open.
abbrev pub idle : (ℕ → Option ℕ) → Handlers
idle table = record {
  files = record { table = table; opened = []; shared_fd = none };
  fd = λ tid. none;
}

pub data Served (asprintf : Text → ℕ → Option Text) (o : Options) (table : ℕ → Option ℕ)
    : Handlers → Type 0 where
  here : Served asprintf o table (idle table)
  next :
      {s t : Handlers} → Served asprintf o table s → Turn asprintf o s t → Served asprintf o table t
