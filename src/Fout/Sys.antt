-- ===== src/Fout/Sys.antt =====
-- What event_fout.c takes from the C library and the kernel, and the writes that it makes.
use phpspy.Prelude.{ℕ, ◌==◌, if◌then◌else◌, Bool, Option, none, some, List, [], ◌∷◌, ◌++◌, length}
use phpspy.Prelude.Text.{Text}
use phpspy.Status.{Status, ok, err}

-- `realloc_ok size` says whether `realloc` finds `size` bytes, `writev k bytes` how many bytes the
-- call number `k` takes (`none` for -1), `regexec re text` whether the text matches, `open_fd` what
-- `event_handler_fout_open` finds (`none` if it fails), and `timestamp` what `%f` prints of the
-- time of day.
pub record Env : Type 0 where
  pub realloc_ok : ℕ → Bool
  pub writev : ℕ → Text → Option ℕ
  pub regexec : Text → Text → Bool
  pub open_fd : Option ℕ
  pub timestamp : Text

-- One `writev`: where to, the bytes of its iovecs in order, and what it returned.
pub record Write : Type 0 where
  pub fd : ℕ
  pub payload : Text
  pub taken : Option ℕ

-- The process-wide state: every write so far, and `event_handler_fout_trace_id`.
pub record Out : Type 0 where
  pub writes : List Write
  pub trace_id : ℕ

-- `event_handler_fout_writev`, its iovecs joined: an error unless all bytes are taken.
unfoldable pub fout_writev : Env → ℕ → Text → Out → Status × Out
fout_writev e fd payload out =
    let taken : Option ℕ = e.writev (length out.writes) payload in
    (
      elim taken [ none ↦ err | some n ↦ if n == length payload then ok else err ],
      record out {
        writes = out.writes ++ (record { fd = fd; payload = payload; taken = taken } ∷ []);
      },
    )
