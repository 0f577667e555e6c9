-- ===== src/Pgrep.antt =====
-- pgrep.c: one producer that reads pids from `pgrep`, and workers that trace one pid each.
-- `Steps` interleaves these operations; `Invariant` and `Exclusion` prove what holds in every order.
-- Pids are the positive numbers that `pgrep` prints, and 0 marks an idle worker.
use phpspy.Prelude.{
  ℕ, zero, suc, ◌+◌, ◌-◌, ◌*◌, ◌/◌, ◌%◌, ◌^◌, ◌≤◌, ◌<◌, ◌≡◌, ◌≢◌, ◌↔◌, ◌⊎◌, inl, inr, refl, sym, ap,
  ◌∙◌, ltb, leb, ◌==◌, if◌then◌else◌, Bool, true, false, not, ◌&&◌, ◌||◌, Option, none, some, List,
  [], ◌∷◌, ◌++◌, map, arith, length, take, drop, get_elem?, set, get_or, replicate, Bool-cases,
  Option-cases, length-append, length-take, length-drop, length-map, length-set, take-append-drop,
  All, All-append, ltb→lt, lt→ltb, leb→le, ==_iff,
}
use phpspy.Prelude.Text.{Text, codes, text_eq, decimal, decimal_ℤ, snprintf}
pub mod Tests
pub mod Scan
pub mod Steps
pub mod Threads
pub mod Mutex
pub mod Refine
pub mod Awake
pub mod Shutdown
pub mod ThreadTests
pub mod Invariant
pub mod Exclusion
pub mod Read

pub data Role : Type 0 where
  producer consumer : Role

-- The test of `wait_for_turn` that breaks its loop, for `avail_pids_count` pids and
-- `opt_num_workers` workers. While it fails the thread waits on its condition variable.
unfoldable pub has_turn : Role → ℕ → ℕ → Bool
has_turn producer num_workers count = if ltb count num_workers then true else ltb 0 count
has_turn consumer num_workers count = ltb 0 count

-- The loop of `is_already_attached` from index `i` on, for `todo` more workers. `avail` holds the
-- first `avail_pids_count` entries of its array.
unfoldable pub attached_from : List ℕ → List ℕ → ℕ → ℕ → ℕ → Bool
attached_from attached avail pid i zero = false
attached_from attached avail pid i (suc todo) =
    let rest = attached_from attached avail pid (i + 1) todo in
    if get_or attached i 0 == pid
    then true
    else if ltb i (length avail) && (get_or avail i 0 == pid)
    then true
    else rest

unfoldable pub is_already_attached : ℕ → List ℕ → List ℕ → ℕ → Bool
unfolding attached_from
is_already_attached num_workers attached avail pid = attached_from attached avail pid 0 num_workers

-- `atoi` of a line of decimal digits, up to the first other byte.
unfoldable pub atoi_from : ℕ → Text → ℕ
atoi_from n [] = n
atoi_from n (c ∷ cs) =
    let more = atoi_from (10 * n + (c - b'0')) cs in if leb b'0' c && leb c b'9' then more else n

abbrev pub is_blank_line : Text → Bool
is_blank_line [] = true
is_blank_line (c ∷ cs) = c == 10

-- The body of the loop over the lines, which `fgets` has read: skip a blank line and a pid that is
-- taken, append any other.
unfoldable pub offer_line : ℕ → List ℕ → List ℕ → Text → List ℕ
offer_line num_workers attached avail line =
    if is_blank_line line
    then avail
    else if is_already_attached num_workers attached avail (atoi_from 0 line)
    then avail
    else avail ++ (atoi_from 0 line ∷ [])

-- The loop itself: it stops at a full array and at the end of the output. The difference of the
-- lengths is `found`.
unfoldable pub read_pids : ℕ → List ℕ → List ℕ → List Text → List ℕ
read_pids num_workers attached avail [] = avail
read_pids num_workers attached avail (line ∷ lines) =
    let more = read_pids num_workers attached (offer_line num_workers attached avail line) lines in
    if ltb (length avail) num_workers then more else avail

-- `avail_pids[--avail_pids_count]`: the last pid and the others, `none` at a count of 0.
unfoldable pub pop_pid : List ℕ → Option (ℕ × List ℕ)
pop_pid [] = none
pop_pid (p ∷ []) = some (p, [])
pop_pid (p ∷ q ∷ ps) = elim (pop_pid (q ∷ ps)) [ none ↦ none | some (l, rest) ↦ some (l, p ∷ rest) ]
