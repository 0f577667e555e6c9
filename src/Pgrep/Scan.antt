-- ===== src/Pgrep/Scan.antt =====
-- What `is_already_attached` sees, and what reading the output of `pgrep` adds.
use phpspy.Prelude.{
  ℕ, zero, suc, ◌+◌, ◌≤◌, ◌<◌, ◌≡◌, refl, ltb, ◌==◌, if◌then◌else◌, false, ◌&&◌, List, ℕ_discrete,
  [], ◌∷◌, ◌++◌, arith, length, get_or,
}
use mathlib.Core.Path.{subst}
use phpspy.Pgrep.{attached_from, is_already_attached}

-- How often a pid stands in a list.
unfoldable pub occurs : ℕ → List ℕ → ℕ
occurs p [] = 0
occurs p (q ∷ qs) = (if q == p then 1 else 0) + occurs p qs

pub occurs-append : (p : ℕ) (xs ys : List ℕ) → occurs p (xs ++ ys) ≡ occurs p xs + occurs p ys
unfolding occurs
occurs-append p [] ys = omega arith
occurs-append p (x ∷ xs) ys = omega (arith, occurs-append p xs ys)

-- A pid that an index shows occurs.
pub occurs_of_get :
    (p : ℕ) (xs : List ℕ) (i : ℕ) → i < length xs → get_or xs i 0 ≡ p → 1 ≤ occurs p xs
unfolding occurs
occurs_of_get p [] i h e = elim h [ ]
occurs_of_get p (x ∷ xs) zero h e = ground arith
occurs_of_get p (x ∷ xs) (suc i) h e = omega (arith, occurs_of_get p xs i (omega arith) e)

-- A pid that no index of a range shows does not occur there.
occurs_of_none :
    (p : ℕ) (xs : List ℕ)
    → ((i : ℕ) → i < length xs → (get_or xs i 0 == p) ≡ false)
    → occurs p xs ≡ 0
unfolding occurs
occurs_of_none p [] h = refl
occurs_of_none p (x ∷ xs) h =
    ground (arith, h 0 (omega arith), occurs_of_none p xs (λ i lt. h (suc i) (omega arith)))

attached_from-false :
    (attached avail : List ℕ) (pid i todo : ℕ)
    → attached_from attached avail pid i todo ≡ false
    → (j : ℕ) → i ≤ j
    → j < i + todo
    → ((get_or attached j 0 == pid) ≡ false)
      × ((ltb j (length avail) && (get_or avail j 0 == pid)) ≡ false)
unfolding attached_from
attached_from-false attached avail pid i zero h j lo hi = absurd (omega arith)
attached_from-false attached avail pid i (suc todo) h j lo hi = elim (ℕ_discrete i j) [
  | yes here ↦
      subst
        (λ k.
          ((get_or attached k 0 == pid) ≡ false)
          × ((ltb k (length avail) && (get_or avail k 0 == pid)) ≡ false))
        here (ground arith)
  | no later ↦
      attached_from-false attached avail pid (i + 1) todo (ground arith) j (omega arith)
        (omega arith)
]

-- With one slot for each worker and no more pids than workers, `is_already_attached` says no only
-- to a pid that neither is attached nor waits.
pub is_already_attached-false :
    (num_workers : ℕ) (attached avail : List ℕ) (pid : ℕ)
    → length attached ≡ num_workers
    → length avail ≤ num_workers
    → is_already_attached num_workers attached avail pid ≡ false
    → (occurs pid attached ≡ 0) × (occurs pid avail ≡ 0)
unfolding is_already_attached
is_already_attached-false n attached avail pid slots few h = (
  occurs_of_none pid attached
      (λ i lt. (attached_from-false attached avail pid 0 n h i (omega arith) (omega arith)).0),
  occurs_of_none pid avail (λ i lt.
      (let seen = (attached_from-false attached avail pid 0 n h i (omega arith) (omega arith)).1 in
        ground arith)),
)
