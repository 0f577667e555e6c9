-- ===== src/Process.antt =====
-- `main` of phpspy.c, and the descriptors of the processes that phpspy starts: the command of
-- `main_fork`, and the phpspy that `main_top` reads from (`fork_child` of top.c).
pub mod Stdio
pub mod Ends
pub mod Modes
pub mod Tests
use phpspy.Prelude.{
  ℕ, zero, suc, ◌==◌, if◌then◌else◌, Bool, true, false, ◌&&◌, not, Option, none, some, update,
}
use phpspy.Prelude.Int.{ℤ, pos, negsuc}
use phpspy.Prelude.Text.{Text, codes, text_eq, has_percent_d}
use phpspy.Options.{Options}

-- What `main` starts: top mode, `main_pid`, `main_pgrep`, `main_fork`, or the usage and exit code 1.
pub data Mode : Type 0 where
  top one_pid pgrep command usage : Mode

-- `opt_pid != -1`
abbrev pub has_pid : ℤ → Bool
has_pid (pos n) = true
has_pid (negsuc zero) = false
has_pid (negsuc (suc n)) = true

abbrev pub is_some {ℓ} : {A : Type ℓ} → Option A → Bool
is_some none = false
is_some (some x) = true

-- `main`; `rest` is `optind < argc`.
unfoldable pub main : Options → Bool → Mode
main o rest =
    if o.top_mode
    then top
    else if has_pid o.pid
    then one_pid
    else if is_some o.pgrep_args
    then pgrep
    else if rest
    then command
    else usage

-- The first test of `main_top`, which exits with the usage.
unfoldable pub refuses_top : Options → Bool → Bool
refuses_top o rest = not (has_pid o.pid) && (not (is_some o.pgrep_args) && not rest)

-- What a descriptor refers to: something that phpspy has been started with, a file that was opened
-- for writing, or an end of a pipe.
pub data File : Type 0 where
  inherited : ℕ → File
  written : Text → File
  reads writes : ℕ → File

abbrev pub Table : Type 0
Table = ℕ → Option File

abbrev pub dup2 : ℕ → ℕ → Table → Table
dup2 from to t = update t to (t from)

abbrev pub close : ℕ → Table → Table
close fd t = update t fd none

-- The path that `redirect_child_stdio` opens: `asprintf` puts the pid in, `strdup` copies; `none` is
-- a lack of memory.
pub record Paths : Type 0 where
  pub asprintf : Text → ℕ → Option Text
  pub strdup : Text → Option Text
  pub fopen : Text → Table → Option ℕ

unfoldable pub redir_path : Paths → ℕ → Text → Option Text
redir_path e pid path = if has_percent_d path then e.asprintf path pid else e.strdup path

-- `redirect_child_stdio`: `none` is exit code 1.
unfoldable pub redirect_child_stdio : Paths → ℕ → ℕ → Text → Table → Option Table
unfolding redir_path
redirect_child_stdio e pid proc_fd path t =
    if text_eq path (codes "-") then some t else elim (redir_path e pid path) [
      | none ↦ none
      | some p ↦ elim (e.fopen p t) [
        | none ↦ none
        | some fd ↦ some (close fd (dup2 fd proc_fd (update t fd (some (written p)))))
      ]
    ]

-- The child of `main_fork` up to `execvp`.
unfoldable pub child_stdio : Options → Paths → ℕ → Table → Option Table
child_stdio o e pid t = elim (redirect_child_stdio e pid 1 o.path_child_out t) [
  | none ↦ none
  | some t' ↦ redirect_child_stdio e pid 2 o.path_child_err t'
]

-- What `pipe` and `fork` answer in `fork_child`: neither pipe, the first pipe only, both pipes and no
-- process, both pipes in the child or in the parent. A pipe is its read end and its write end.
pub data Forking : Type 0 where
  no_pipe : Forking
  one_pipe : ℕ × ℕ → Forking
  no_fork in_child in_parent : ℕ × ℕ → ℕ × ℕ → Forking

-- The child calls `execvp` with its descriptors; the parent returns a code, and goes on with its own.
pub data Started : Type 0 where
  execs : Table → Started
  returns : ℕ → Table → Started

-- `pipe` number `k`.
abbrev pub pipe : ℕ → ℕ × ℕ → Table → Table
pipe k (r, w) t = update (update t r (some (reads k))) w (some (writes k))

-- Both pipes.
abbrev pub pipes : ℕ × ℕ → ℕ × ℕ → Table → Table
pipes out err t = pipe 1 err (pipe 0 out t)

-- One pipe of the child: its write end becomes `stream`.
abbrev pub child_end : ℕ × ℕ → ℕ → Table → Table
child_end (r, w) stream t = close w (dup2 w stream (close r t))

-- `fork_child` of top.c
unfoldable pub fork_child : Forking → Table → Started
fork_child no_pipe t = returns 1 t
fork_child (one_pipe out) t = returns 1 (pipe 0 out t)
fork_child (no_fork out err) t = returns 1 (pipes out err t)
fork_child (in_child out err) t = execs (child_end err 2 (child_end out 1 (pipes out err t)))
fork_child (in_parent out err) t = returns 0 (close err.1 (close out.1 (pipes out err t)))
