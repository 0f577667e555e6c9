-- ===== src/Pgrep/Read.antt =====
-- What one run of `pgrep` adds to the waiting pids.
use phpspy.Prelude.{
  ℕ_discrete, ℕ, zero, suc, ◌+◌, ◌≤◌, ◌<◌, ◌≡◌, ◌⊎◌, inl, inr, sym, ap, ◌∙◌, ltb, true, List, [],
  ◌∷◌, ◌++◌, arith, length, Bool-cases, length-append, All, ltb→lt,
}
use phpspy.Prelude.Text.{Text}
use mathlib.Core.Path.{subst}
use mathlib.Core.List.{append_assoc, append-nil}
use phpspy.Pgrep.{
  attached_from, is_already_attached, atoi_from, is_blank_line, offer_line, read_pids,
}
use phpspy.Pgrep.Scan.{occurs, occurs-append, occurs_of_get, is_already_attached-false}
use phpspy.Pgrep.Invariant.{offer_line-cases}

attached_from-true :
    (attached avail : List ℕ) (pid i todo : ℕ)
    → i + todo ≤ length attached
    → attached_from attached avail pid i todo ≡ true
    → 1 ≤ occurs pid attached + occurs pid avail
unfolding attached_from
attached_from-true attached avail pid i zero le h = absurd (ground arith)
attached_from-true attached avail pid i (suc todo) le h = ground (
  arith,
  occurs_of_get pid attached i,
  occurs_of_get pid avail i,
  attached_from-true attached avail pid (i + 1) todo,
)

-- A line is done with: it is blank, or its pid is attached or waits.
abbrev pub Served : List ℕ → List ℕ → Text → Type 0
Served attached avail line =
    (is_blank_line line ≡ true)
    ⊎ (1 ≤ occurs (atoi_from 0 line) attached + occurs (atoi_from 0 line) avail)

-- What reading some lines has made of `avail`.
pub record HasRead (n : ℕ) (attached avail : List ℕ) (lines : List Text) (out : List ℕ)
    : Type 0 where
  pub new : List ℕ
  pub appended : out ≡ avail ++ new
  pub few : length out ≤ n
  pub once : (p : ℕ) → (occurs p new ≡ 0) ⊎ (occurs p attached + occurs p out ≡ 1)
  pub complete : (length out ≡ n) ⊎ All (Served attached out) lines

offer_line-Served :
    (n : ℕ) (attached avail : List ℕ) (line : Text)
    → length attached ≡ n
    → Served attached (offer_line n attached avail line) line
unfolding offer_line is_already_attached occurs
offer_line-Served n attached avail line slots = elim (Bool-cases (is_blank_line line)) [
  | inl blank ↦ inl blank
  | inr text ↦ inr (
      ground (
        arith,
        attached_from-true attached avail (atoi_from 0 line) 0 n,
        occurs-append (atoi_from 0 line) avail (atoi_from 0 line ∷ []),
      ))
]

Served-append :
    (attached avail new : List ℕ) (line : Text)
    → Served attached avail line
    → Served attached (avail ++ new) line
Served-append attached avail new line (inl blank) = inl blank
Served-append attached avail new line (inr h) =
    inr (omega (arith, occurs-append (atoi_from 0 line) avail new))

appended-once :
    (p q : ℕ) (attached avail : List ℕ)
    → occurs q attached ≡ 0
    → occurs q avail ≡ 0
    → (occurs p (avail ++ (q ∷ [])) ≡ occurs p avail)
      ⊎ (occurs p attached + occurs p (avail ++ (q ∷ [])) ≡ 1)
unfolding occurs
appended-once p q attached avail a b = elim (ℕ_discrete q p) [
  | yes e ↦
      let a' : occurs p attached ≡ 0 = subst (λ x. occurs x attached ≡ 0) e a in
      let b' : occurs p avail ≡ 0 = subst (λ x. occurs x avail ≡ 0) e b in
      inr (ground (arith, occurs-append p avail (q ∷ [])))
  | no ne ↦ inl (ground (arith, occurs-append p avail (q ∷ [])))
]

-- Once a pid is in neither array, a round either leaves it out or adds it once.
offer_line-once :
    (n : ℕ) (attached avail : List ℕ) (line : Text) (p : ℕ)
    → length attached ≡ n
    → length avail ≤ n
    → (occurs p (offer_line n attached avail line) ≡ occurs p avail)
      ⊎ (occurs p attached + occurs p (offer_line n attached avail line) ≡ 1)
unfolding occurs
offer_line-once n attached avail line p slots few = elim (offer_line-cases n attached avail line) [
  | inl same ↦ inl (ap (occurs p) same)
  | inr (new, grown) ↦
      let (a, b) = is_already_attached-false n attached avail (atoi_from 0 line) slots few new in
      rw grown (appended-once p (atoi_from 0 line) attached avail a b)
]

offer_line-few :
    (n : ℕ) (attached avail : List ℕ) (line : Text)
    → length avail < n
    → length (offer_line n attached avail line) ≤ n
offer_line-few n attached avail line room = elim (offer_line-cases n attached avail line) [
  | inl same ↦ rw same (omega arith)
  | inr (fresh, grown) ↦ rw grown (omega (arith, length-append avail (atoi_from 0 line ∷ [])))
]

-- A round adds a list of at most one pid.
offer_line-new :
    (n : ℕ) (attached avail : List ℕ) (line : Text)
    → (new : List ℕ) × (offer_line n attached avail line ≡ avail ++ new) × (length new ≤ 1)
offer_line-new n attached avail line = elim (offer_line-cases n attached avail line) [
  | inl same ↦ ([], same ∙ sym (append-nil avail), omega arith)
  | inr (fresh, grown) ↦ (atoi_from 0 line ∷ [], grown, omega arith)
]

once-next :
    (p : ℕ) (attached avail offered first new out : List ℕ)
    → offered ≡ avail ++ first
    → out ≡ offered ++ new
    → (occurs p offered ≡ occurs p avail) ⊎ (occurs p attached + occurs p offered ≡ 1)
    → (occurs p new ≡ 0) ⊎ (occurs p attached + occurs p out ≡ 1)
    → (occurs p (first ++ new) ≡ 0) ⊎ (occurs p attached + occurs p out ≡ 1)
once-next p attached avail offered first new out grown appended h (inr one) = inr one
once-next p attached avail offered first new out grown appended (inl same) (inl none_new) =
    inl (omega (arith, ap (occurs p) grown, occurs-append p avail first, occurs-append p first new))
once-next p attached avail offered first new out grown appended (inr one) (inl none_new) =
    inr (omega (arith, ap (occurs p) appended, occurs-append p offered new))

HasRead-next :
    (n : ℕ) (attached avail : List ℕ) (line : Text) (lines : List Text) {out : List ℕ}
    → length attached ≡ n
    → length avail < n
    → HasRead n attached (offer_line n attached avail line) lines out
    → HasRead n attached avail (line ∷ lines) out
HasRead-next n attached avail line lines {out} slots room r =
    let (first, grown, small) = offer_line-new n attached avail line in
    record {
      new = first ++ r.new;
      appended = r.appended ∙ (ap (λ a. a ++ r.new) grown ∙ append_assoc avail first r.new);
      few = r.few;
      once = λ p.
          once-next p attached avail (offer_line n attached avail line) first r.new out grown
            r.appended (offer_line-once n attached avail line p slots (omega arith)) (r.once p);
      complete = served r.complete;
    }
  where
    served :
        (length out ≡ n) ⊎ All (Served attached out) lines
        → (length out ≡ n) ⊎ All (Served attached out) (line ∷ lines)
    served (inl full) = inl full
    served (inr rest) = inr (
      subst (λ a. Served attached a line) (sym r.appended)
          (Served-append attached _ r.new line (offer_line-Served n attached avail line slots)),
      rest,
    )

-- With one slot for each worker and no more waiting pids than workers, reading the lines of
-- `pgrep` keeps the pids that wait and appends new ones, within the array. A pid that it appends
-- stands in one place among the attached and the waiting. Unless the array is full at the
-- end, every line has been served: it is blank, or its pid is attached or waits.
pub read_pids-HasRead :
    (n : ℕ) (attached avail : List ℕ) (lines : List Text)
    → length attached ≡ n
    → length avail ≤ n
    → HasRead n attached avail lines (read_pids n attached avail lines)
unfolding read_pids occurs
read_pids-HasRead n attached avail [] slots few = record {
  new = [];
  appended = sym (append-nil avail);
  few = few;
  once = λ p. inl (ground arith);
  complete = inr tt;
}
read_pids-HasRead n attached avail (line ∷ lines) slots few =
    elim (Bool-cases (ltb (length avail) n)) [
      | inl room ↦ rw room (
          HasRead-next n attached avail line lines slots (ltb→lt _ _ room) (
            read_pids-HasRead n attached (offer_line n attached avail line) lines slots
              (offer_line-few n attached avail line (ltb→lt _ _ room))))
      | inr full ↦ rw full (record {
        new = [];
        appended = sym (append-nil avail);
        few = few;
        once = λ p. inl (ground arith);
        complete = inl (ground arith);
      })
    ]
