-- ===== src/Fout/OpenTests.antt =====
-- Two threads that share an output file, and where a path has a `%d`.
use phpspy.Prelude.{
  ℕ, ◌≤◌, ◌≡◌, refl, true, Option, none, some, [], ◌∷◌, ◌++◌, length, update, arith,
}
use phpspy.Prelude.Text.{Text, codes, text_eq, has_percent_d, decimal}
use phpspy.Options.{Options, defaults}
use phpspy.Fout.Open.{
  open_shared, fout_open, fout_close, Handlers, init, deinit, idle, Served, here, next,
}
use phpspy.Fout.OneFile.{one_output_file}

abbrev to_file : Options
to_file = record defaults { path_output = codes "out" }

abbrev no_format : Text → ℕ → Option Text
no_format path tid = none

abbrev unused : ℕ → Option ℕ
unused fd = none

abbrev shared : Handlers
shared = record {
  files = record {
    table = update (update unused 5 (some 0)) 6 (some 0);
    opened = codes "out" ∷ [];
    shared_fd = some 5;
  };
  fd = update (update (update (λ tid. none) 0 (some 5)) 1 (some 6)) 0 none;
}

-- The first thread ends, and its descriptor stays open.
Served-shared : Served no_format to_file unused shared
unfolding fout_open open_shared fout_close text_eq has_percent_d
Served-shared =
    next
      (next (next here (init 0 (some 5) true (λ new e. refl) refl))
        (init 1 (some 6) true (λ new e. ground arith) refl))
      (deinit 0 5 refl)

one_output_file_example :
    (length shared.files.opened ≤ 1)
    × ((tid fd : ℕ) → shared.fd tid ≡ some fd → shared.files.table fd ≡ some 0)
unfolding text_eq has_percent_d
one_output_file_example = one_output_file no_format to_file refl refl Served-shared

tid_test :
    (fout_open
      (λ path tid. some (codes "out." ++ decimal tid))
      (record defaults { path_output = codes "out.%d" })
      7
      (some 3)
      (idle unused).files).0
    ≡ some 3
unfolding fout_open has_percent_d
tid_test = refl

stdout_test : (fout_open no_format defaults 7 (some 3) (idle unused).files).0 ≡ none
unfolding fout_open has_percent_d text_eq
stdout_test = refl
