-- ===== src/Process/Stdio.antt =====
-- The standard streams of the command that `main_fork` starts.
use phpspy.Prelude.{ℕ, ◌≡◌, ◌⊎◌, ◌==◌, if◌then◌else◌, false, Option, none, some}
use mathlib.Core.Option
use phpspy.Prelude.Text.{Text, codes, text_eq}
use phpspy.Options.{Options}
use phpspy.Process.{File, written, Table, Paths, redir_path}

-- What a stream is, if it was `old`: unchanged for `-`, or the file of the option.
abbrev pub stream : Paths → ℕ → Text → Option File → Option File
stream e pid path old =
    if text_eq path (codes "-") then old else Option.map written (redir_path e pid path)

-- Why a stream cannot be redirected, with the descriptors `t`: no memory for its path, or `fopen`
-- does not open that path.
abbrev pub Fails : Paths → ℕ → Text → Table → Type 0
Fails e pid path t =
    (text_eq path (codes "-") ≡ false)
    × ((redir_path e pid path ≡ none)
        ⊎ ((p : Text) × (redir_path e pid path ≡ some p) × (e.fopen p t ≡ none)))

-- `fopen` hands out a descriptor that is not in use.
abbrev pub IsFresh : Paths → Type 0
IsFresh e = (p : Text) (t : Table) (fd : ℕ) → e.fopen p t ≡ some fd → t fd ≡ none

-- One stream redirected.
abbrev pub Redirected : Paths → ℕ → ℕ → Text → Table → Option Table → Type 0
Redirected e pid proc_fd path t none = Fails e pid path t
Redirected e pid proc_fd path t (some u) =
    (fd : ℕ) → u fd ≡ (if fd == proc_fd then stream e pid path (t proc_fd) else t fd)

-- Both streams. The second one fails with the first one redirected.
abbrev pub HasStdio : Options → Paths → ℕ → Table → Option Table → Type 0
HasStdio o e pid t none =
    Fails e pid o.path_child_out t
    ⊎ ((u : Table) × Redirected e pid 1 o.path_child_out t (some u)
        × Fails e pid o.path_child_err u)
HasStdio o e pid t (some u) =
    (fd : ℕ)
    → u fd ≡ (
        if fd == 1
        then stream e pid o.path_child_out (t 1)
        else if fd == 2
        then stream e pid o.path_child_err (t 2)
        else t fd)
