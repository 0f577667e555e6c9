-- ===== src/Pgrep/Exclusion.antt =====
-- What the invariant of the pool means for the traced processes.
use phpspy.Prelude.{
  ℕ, zero, suc, ◌≤◌, ◌<◌, ◌≡◌, ◌≢◌, true, List, dec_lt, [], ◌∷◌, arith, length, get_or,
}
use phpspy.Pgrep.{producer, has_turn}
use phpspy.Pgrep.Scan.{occurs, occurs_of_get}
use phpspy.Pgrep.Steps.{tracing, Pool, Reach}
use phpspy.Pgrep.Invariant.{Reach-IsSound}

occurs_twice :
    (p : ℕ) (xs : List ℕ) (i j : ℕ)
    → i < j
    → j < length xs
    → get_or xs i 0 ≡ p
    → get_or xs j 0 ≡ p
    → 2 ≤ occurs p xs
unfolding occurs
occurs_twice p [] i j lt h e e' = elim h [ ]
occurs_twice p (x ∷ xs) i zero lt h e e' = elim lt [ ]
occurs_twice p (x ∷ xs) zero (suc j) lt h e e' = ground (arith, occurs_of_get p xs j)
occurs_twice p (x ∷ xs) (suc i) (suc j) lt h e e' =
    omega (arith, occurs_twice p xs i j (omega arith) (omega arith) e e')

-- In every state that the threads can reach, two workers never trace the same process at once.
pub pid_exclusion :
    {n : ℕ} {s : Pool}
    → Reach n s
    → (i j p : ℕ) → p ≢ 0
    → s.work i ≡ tracing p
    → s.work j ≡ tracing p
    → i ≡ j
pid_exclusion {s} r i j p ne wi wj =
    let v = Reach-IsSound r in
    let (lti, gi) = v.shown i p wi in
    let (ltj, gj) = v.shown j p wj in
    elim (dec_lt i j) [
      | yes below ↦ absurd (
          omega (
            arith,
            v.once p ne,
            occurs_twice p s.attached i j below (omega (arith, v.slots)) gi gj,
          ))
      | no ij ↦ elim (dec_lt j i) [
        | yes above ↦ absurd (
            omega (
              arith,
              v.once p ne,
              occurs_twice p s.attached j i above (omega (arith, v.slots)) gj gi,
            ))
        | no ji ↦ omega arith
      ]
    ]

-- In every state that the threads can reach, the array of waiting pids holds at most one pid for
-- each worker, its size.
pub avail_bounded : {n : ℕ} {s : Pool} → Reach n s → length s.avail ≤ n
avail_bounded r = (Reach-IsSound r).few

-- In every state that the threads can reach, a process that is traced does not wait.
waiting_untraced :
    {n : ℕ} {s : Pool} → Reach n s → (i p : ℕ) → p ≢ 0 → s.work i ≡ tracing p → occurs p s.avail ≡ 0
waiting_untraced {s} r i p ne w =
    let v = Reach-IsSound r in
    let (lt, g) = v.shown i p w in
    omega (arith, v.once p ne, occurs_of_get p s.attached i (omega (arith, v.slots)) g)

-- With at least one worker the producer's test in `wait_for_turn` never fails, full array or not:
-- the producer never waits there for room.
has_turn-producer : (n count : ℕ) → 1 ≤ n → has_turn producer n count ≡ true
unfolding has_turn
has_turn-producer n count h = ground arith
