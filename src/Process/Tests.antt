-- ===== src/Process/Tests.antt =====
-- A command with its output in a file, the pipes of top mode, and the modes of some command lines.
use phpspy.Prelude.{ℕ, ◌≡◌, refl, true, false, Option, none, some, [], ◌++◌, update, arith}
use phpspy.Prelude.Int.{pos}
use phpspy.Prelude.Text.{codes, decimal}
use phpspy.Options.{Options, defaults}
use phpspy.Process.{
  Mode, main, File, inherited, reads, writes, Table, Paths, in_child, in_parent, execs, returns,
  fork_child,
}
use phpspy.Process.Stdio
use phpspy.Process.Ends.{HasEnds, fork_child-HasEnds}

abbrev terminal : Table
terminal =
    update (update (update (λ fd. none) 0 (some (inherited 0))) 1 (some (inherited 1))) 2
      (some (inherited 2))

-- The descriptor 3, while it is not in use.
abbrev three : Option File → Option ℕ
three none = some 3
three (some f) = none

abbrev paths : Paths
paths = record {
  asprintf = λ path pid. some (codes "phpspy." ++ decimal pid);
  strdup = λ path. some path;
  fopen = λ path t. three (t 3);
}

abbrev to_files : Options
to_files = record defaults { path_child_err = codes "-" }

fork_child-HasEnds_example :
    ((u : Table) × (fork_child (in_child (3, 4) (5, 6)) terminal ≡ execs u)
      × HasEnds 1 2 (writes 0) (writes 1) terminal u)
    × ((u : Table) × (fork_child (in_parent (3, 4) (5, 6)) terminal ≡ returns 0 u)
        × HasEnds 3 5 (reads 0) (reads 1) terminal u)
fork_child-HasEnds_example =
    fork_child-HasEnds (3, 4) (5, 6) terminal
      (record {
        unused = (refl, refl, refl, refl);
        apart = (omega arith, omega arith, omega arith, omega arith, omega arith, omega arith);
        streams = (ground arith, ground arith);
      })

main_test :
    (main (record defaults { top_mode = true; pid = pos 7 }) false ≡ Mode.top)
    × (main (record defaults { pid = pos 7; pgrep_args = some [] }) true ≡ Mode.one_pid)
    × (main defaults true ≡ Mode.command)
    × (main defaults false ≡ Mode.usage)
unfolding main
main_test = (refl, refl, refl, refl)
