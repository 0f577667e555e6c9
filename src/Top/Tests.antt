-- ===== src/Top/Tests.antt =====
-- Top mode on concrete inputs.
use phpspy.Prelude.{◌≡◌, refl, some, none, List, get_or, [], ◌∷◌, ◌++◌, arith}
use phpspy.Prelude.Text.{Text, codes}
use phpspy.Prelude.Int.{ℤ}
use phpspy.Prelude.Bytes.{memchr}
use phpspy.Prelude.Uthash.{assoc_lists}
use phpspy.Top.{
  FuncEntry, Top, key, init, handle_lines, make_room, read_child_out, count_errs, filter_child_args,
}
use phpspy.Top.Stream.{feeds, read_chunks, AreReads, IsBuffered, joined_chunks, read_chunks-feeds}
use phpspy.Top.Totals.{IsCounted, Permutes}
use phpspy.Top.Loop.{Round, ready, top_loop}
use phpspy.Top.Runs.{top_loop-IsCounted}
use phpspy.Top.Child.{IsFiltered, filter_child_args-IsFiltered}

abbrev start : Top assoc_lists
start = init assoc_lists (codes "phpspy -p 1 ")

start-IsCounted : IsCounted assoc_lists start
start-IsCounted = record {
  entry_at = λ a. ground arith;
  found = λ func a e. absurd (ground arith);
  named = λ func a e. refl;
  balanced = refl;
  room = omega arith;
}

start-IsBuffered : IsBuffered assoc_lists start
start-IsBuffered = record { one_line = refl; fits = omega arith }

-- Two reads, the second of which completes a line.
abbrev chunks : List Text
chunks = codes "0 f" ∷ (codes " x:1" ++ (b'\n' ∷ codes "1 g")) ∷ []

chunks-AreReads : AreReads assoc_lists chunks start
unfolding AreReads read_child_out make_room handle_lines memchr
chunks-AreReads = (omega arith, omega arith, (omega arith, omega arith, tt))

read_chunks-feeds_example :
    (read_chunks assoc_lists chunks start
      ≡ feeds assoc_lists (joined_chunks assoc_lists chunks) start)
    × IsBuffered assoc_lists (read_chunks assoc_lists chunks start)
read_chunks-feeds_example =
    read_chunks-feeds assoc_lists chunks start start-IsBuffered chunks-AreReads

-- A sort that leaves the array as it is permutes it.
abbrev keep : (FuncEntry → FuncEntry → ℤ) → List FuncEntry → List FuncEntry
keep compare es = es

keep-Permutes : Permutes keep
keep-Permutes = record { sum_lem = λ compare w es. refl }

abbrev rounds : List Round
rounds =
    record {
      now = record { sec = 5; nsec = 0 };
      height = 24;
      selected = ready (some (some (codes "0 f" ++ (b'\n' ∷ [])))) none (some (key b'p'));
    }
    ∷ []

top_loop-IsCounted_example :
    IsCounted assoc_lists (top_loop assoc_lists keep rounds (record { sec = 0; nsec = 0 }, start))
top_loop-IsCounted_example =
    top_loop-IsCounted assoc_lists keep keep-Permutes rounds (record { sec = 0; nsec = 0 }) start
      start-IsCounted

abbrev child_args : List Text
child_args = codes "phpspy" ∷ codes "-t" ∷ []

filter_child_args-IsFiltered_example :
    IsFiltered (codes "-t") (get_or (filter_child_args child_args) 1 [])
filter_child_args-IsFiltered_example = filter_child_args-IsFiltered child_args 1

-- Three lines on stderr at once are counted as two.
count_errs_test : count_errs 3 (b'\n' ∷ b'\n' ∷ b'\n' ∷ []) 0 3 ≡ 2
unfolding count_errs memchr
count_errs_test = refl
