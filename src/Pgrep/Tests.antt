-- ===== src/Pgrep/Tests.antt =====
-- A pool of two workers at work, and the theorems about it.
use phpspy.Prelude.{ℕ, sym, ◌≡◌, refl, true, false, some, [], ◌∷◌, arith, length}
use phpspy.Prelude.Text.{Text, codes}
use mathlib.Core.Path.{subst}
use phpspy.Pgrep.{
  consumer, attached_from, atoi_from, has_turn, offer_line, pop_pid, read_pids, is_already_attached,
}
use phpspy.Prelude.{update}
use phpspy.Pgrep.Steps.{tracing, Pool, start, Reach, here, next, enter, offer, leave, take_pid}
use phpspy.Pgrep.Exclusion.{pid_exclusion}
use phpspy.Pgrep.Read.{HasRead, read_pids-HasRead}

abbrev line : Text
line = codes "42\n"

abbrev entered : Pool
entered = record (start 2) { producing = true }

abbrev offered : Pool
offered = record entered { avail = offer_line 2 (0 ∷ 0 ∷ []) [] line }

abbrev left : Pool
left = record offered { producing = false }

Reach-left : Reach 2 left
unfolding has_turn
Reach-left =
    next (next (next here (enter refl refl refl)) (offer line refl (omega arith))) (leave refl)

-- Worker 0 has taken the pid.
abbrev working : Pool
working = record left { avail = []; attached = 42 ∷ 0 ∷ []; work = update left.work 0 (tracing 42) }

offer_line-first : offer_line 2 (0 ∷ 0 ∷ []) [] line ≡ 42 ∷ []
unfolding offer_line is_already_attached attached_from atoi_from
offer_line-first = refl

pop_pid-left : pop_pid left.avail ≡ some (42, [])
unfolding pop_pid
pop_pid-left = subst (λ a. pop_pid a ≡ some (42, [])) (sym offer_line-first) refl

has_turn-left : has_turn consumer 2 (length left.avail) ≡ true
unfolding has_turn
has_turn-left = subst (λ a. has_turn consumer 2 (length a) ≡ true) (sym offer_line-first) refl

Reach-working : Reach 2 working
Reach-working =
    next Reach-left (take_pid 0 42 [] (omega arith) refl refl refl has_turn-left pop_pid-left)

pid_exclusion_example : ◌≡◌ {A = ℕ} 0 0
pid_exclusion_example = pid_exclusion Reach-working 0 0 42 (omega arith) refl refl

read_pids_run : read_pids 2 (7 ∷ 0 ∷ []) [] (line ∷ codes "7" ∷ line ∷ []) ≡ 42 ∷ []
unfolding read_pids offer_line is_already_attached attached_from atoi_from
read_pids_run = refl

read_pids-HasRead_example :
    HasRead 2
      (7 ∷ 0 ∷ [])
      []
      (line ∷ codes "7" ∷ [])
      (read_pids 2 (7 ∷ 0 ∷ []) [] (line ∷ codes "7" ∷ []))
read_pids-HasRead_example =
    read_pids-HasRead 2 (7 ∷ 0 ∷ []) [] (line ∷ codes "7" ∷ []) refl (omega arith)

is_already_attached-free : is_already_attached 2 (7 ∷ 0 ∷ []) (8 ∷ []) 9 ≡ false
unfolding is_already_attached attached_from
is_already_attached-free = refl
