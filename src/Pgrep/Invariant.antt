-- ===== src/Pgrep/Invariant.antt =====
-- In every order of the steps, no pid is handed out twice.
use phpspy.Prelude.{
  ℕ, zero, suc, ◌+◌, ◌≤◌, ◌<◌, ◌≡◌, ◌≢◌, ◌⊎◌, inl, inr, refl, ◌∙◌, ◌==◌, if◌then◌else◌, false, some,
  List, [], ◌∷◌, ◌++◌, arith, length, set, get_or, replicate, length-replicate, Option-cases,
  length-append, length-set,
}
use phpspy.Prelude.Text.{Text}
use phpspy.Pgrep.{is_already_attached, atoi_from, offer_line, pop_pid}
use phpspy.Pgrep.Scan.{occurs, occurs-append, is_already_attached-false}
use phpspy.Pgrep.Steps.{
  tracing, Pool, Step, enter, offer, leave, take_pid, finish, stop, start, Reach, here, next,
}

pub record IsSound (n : ℕ) (s : Pool) : Type 0 where
  pub slots : length s.attached ≡ n
  pub few : length s.avail ≤ n
  pub once : (p : ℕ) → p ≢ 0 → occurs p s.attached + occurs p s.avail ≤ 1
  pub shown : (i p : ℕ) → s.work i ≡ tracing p → (i < n) × (get_or s.attached i 0 ≡ p)

occurs-set :
    (p : ℕ) (xs : List ℕ) (i v : ℕ)
    → i < length xs
    → occurs p (set xs i v) + (if get_or xs i 0 == p then 1 else 0)
      ≡ occurs p xs + (if v == p then 1 else 0)
unfolding occurs
occurs-set p [] i v h = elim h [ ]
occurs-set p (x ∷ xs) zero v h = omega arith
occurs-set p (x ∷ xs) (suc i) v h = omega (arith, occurs-set p xs i v (omega arith))

pop_pid-occurs :
    (q : ℕ) (ps : List ℕ) {p : ℕ} {rest : List ℕ}
    → pop_pid ps ≡ some (p, rest)
    → (occurs q ps ≡ occurs q rest + (if p == q then 1 else 0)) × (length ps ≡ length rest + 1)
unfolding pop_pid occurs
pop_pid-occurs q [] h = absurd (ground arith)
pop_pid-occurs q (x ∷ []) h = ground arith
pop_pid-occurs q (x ∷ y ∷ ps) h = elim (Option-cases (pop_pid (y ∷ ps))) [
  | inl e ↦ absurd (ground arith)
  | inr ((l, r), e) ↦ ground (arith, pop_pid-occurs q (y ∷ ps) e)
]

-- What a line adds: at most one pid, which nobody has.
pub offer_line-cases :
    (n : ℕ) (attached avail : List ℕ) (line : Text)
    → (offer_line n attached avail line ≡ avail)
      ⊎ ((is_already_attached n attached avail (atoi_from 0 line) ≡ false)
          × (offer_line n attached avail line ≡ avail ++ (atoi_from 0 line ∷ [])))
unfolding offer_line
offer_line-cases n attached avail line = ground arith

get_or-set :
    (xs : List ℕ) (i j v : ℕ)
    → i < length xs
    → get_or (set xs i v) j 0 ≡ (if i == j then v else get_or xs j 0)
get_or-set [] i j v h = elim h [ ]
get_or-set (x ∷ xs) zero zero v h = ground arith
get_or-set (x ∷ xs) zero (suc j) v h = ground arith
get_or-set (x ∷ xs) (suc i) zero v h = ground arith
get_or-set (x ∷ xs) (suc i) (suc j) v h = ground (arith, get_or-set xs i j v)

occurs-replicate : (n p : ℕ) → p ≢ 0 → occurs p (replicate n 0) ≡ 0
unfolding occurs
occurs-replicate zero p ne = refl
occurs-replicate (suc n) p ne = ground (arith, occurs-replicate n p)

occurs-nil : (p : ℕ) → occurs p [] ≡ 0
unfolding occurs
occurs-nil p = refl

occurs-one : (p q : ℕ) → occurs p (q ∷ []) ≡ (if q == p then 1 else 0)
unfolding occurs
occurs-one p q = omega arith

-- One more pid keeps every pid to one place, if nobody has it.
pub once-append :
    (p q : ℕ) (attached avail : List ℕ)
    → occurs q attached ≡ 0
    → occurs q avail ≡ 0
    → occurs p attached + occurs p avail ≤ 1
    → occurs p attached + occurs p (avail ++ (q ∷ [])) ≤ 1
once-append p q attached avail a b h =
    ground (arith, occurs-append p avail (q ∷ []), occurs-one p q)

start-IsSound : (n : ℕ) → IsSound n (start n)
start-IsSound n = record {
  slots = length-replicate n 0;
  few = omega arith;
  once = λ p ne. omega (arith, occurs-replicate n p ne, occurs-nil p);
  shown = λ i p h. absurd (ground arith);
}

Step-IsSound : {n : ℕ} {s t : Pool} → Step n s t → IsSound n s → IsSound n t
Step-IsSound (enter d m h) v = record {
  slots = v.slots;
  few = v.few;
  once = v.once;
  shown = v.shown;
}
Step-IsSound (leave m) v = record { slots = v.slots; few = v.few; once = v.once; shown = v.shown }
Step-IsSound stop v = record { slots = v.slots; few = v.few; once = v.once; shown = v.shown }
Step-IsSound {n} {s} (offer line m room) v = elim (offer_line-cases n s.attached s.avail line) [
  | inl same ↦ record {
    slots = v.slots;
    few = rw same v.few;
    once = λ p ne. rw same (v.once p ne);
    shown = v.shown;
  }
  | inr (new, grown) ↦
      let (a, b) =
        is_already_attached-false n s.attached s.avail (atoi_from 0 line) v.slots v.few new in
      record {
        slots = v.slots;
        few = rw grown (omega (arith, room, length-append s.avail (atoi_from 0 line ∷ [])));
        once = λ p ne.
            rw grown (once-append p (atoi_from 0 line) s.attached s.avail a b (v.once p ne));
        shown = v.shown;
      }
]
Step-IsSound {n} {s} (take_pid i p rest lt d m w t e) v = record {
  slots = length-set s.attached i p ∙ v.slots;
  few = omega (arith, v.few, (pop_pid-occurs 0 s.avail e).1);
  once = λ q ne. omega (
    arith,
    v.once q ne,
    occurs-set q s.attached i p (omega (arith, v.slots)),
    (pop_pid-occurs q s.avail e).0,
  );
  shown = λ j q h. ground (arith, v.shown j q, v.slots, get_or-set s.attached i j p);
}
Step-IsSound {n} {s} (finish i p lt w) v = record {
  slots = length-set s.attached i 0 ∙ v.slots;
  few = v.few;
  once = λ q ne. ground (arith, v.once q ne, occurs-set q s.attached i 0, v.slots);
  shown = λ j q h. ground (arith, v.shown j q, v.slots, get_or-set s.attached i j 0);
}

pub Reach-IsSound : {n : ℕ} {s : Pool} → Reach n s → IsSound n s
Reach-IsSound {n} here = start-IsSound n
Reach-IsSound (next r st) = Step-IsSound st (Reach-IsSound r)
