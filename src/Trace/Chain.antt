-- ===== src/Trace/Chain.antt =====
-- The chain of frames that `stack_collect` reads.
use phpspy.Prelude.{
  ℕ, zero, suc, ◌+◌, ◌≤◌, ◌≡◌, ◌≢◌, ◌⊎◌, inl, inr, refl, ap, ◌∙◌, ◌==◌, sym, if◌then◌else◌, Bool,
  true, false, List, [], ◌∷◌, ◌++◌, arith, length, Bool-cases,
}
use mathlib.Core.Path.{subst}
use mathlib.Core.List.{append-nil, append_assoc}
use phpspy.Prelude.Text.{Text}
use phpspy.Status.{Status, err, err_dead}
use phpspy.Zend.Remote.{
  Outcome, done, fail, stuck, Answer, bytes, esrch, refused, copy_proc_mem, at_offset, field,
}
use phpspy.Trace.{Env, Context, ◌>>=◌, return, read}
use phpspy.Trace.Stack.{stack_collect}

-- The pointers are the chain of frames from `remote` on, as it is read from the read number `k` on,
-- up to its end or to `todo` frames.
abbrev pub IsChain : Env → ℕ → ℕ → ℕ → List ℕ → Type 0
IsChain e k zero remote ptrs = ptrs ≡ []
IsChain e k (suc todo) remote [] = remote ≡ 0
IsChain e k (suc todo) remote (p ∷ ps) =
    (remote ≢ 0)
    × (p ≡ remote)
    × (copy : Text) × (k' : ℕ) × (copy_proc_mem e.target
          (at_offset remote e.target.layout.frame_prev) 8 k
        ≡ (done copy, k'))
    × IsChain e k' todo (field 0 8 copy) ps

-- The chain breaks: the process does not answer a read of it.
abbrev pub IsBroken : Env → ℕ → ℕ → ℕ → Status → Type 0
IsBroken e k zero remote rv = ⊥
IsBroken e k (suc todo) remote rv =
    (remote ≢ 0)
    × (((k' : ℕ) × (copy_proc_mem e.target (at_offset remote e.target.layout.frame_prev) 8 k
            ≡ (fail rv, k')))
        ⊎ ((copy : Text) × (k' : ℕ) × (copy_proc_mem e.target
                (at_offset remote e.target.layout.frame_prev) 8 k
              ≡ (done copy, k'))
            × IsBroken e k' todo (field 0 8 copy) rv))

-- What `stack_collect` leaves, with `ptrs` in front.
abbrev pub IsCollected : Env → ℕ → ℕ → List ℕ → Context → Outcome (List ℕ) × Context → Type 0
IsCollected e todo remote ptrs s r =
    ((rv : Status) × (k : ℕ) × IsBroken e s.reads todo remote rv
      × (r ≡ (fail rv, record s { reads = k })))
    ⊎ ((ps : List ℕ) × (k : ℕ) × IsChain e s.reads todo remote ps
        × (r ≡ (done (ptrs ++ ps), record s { reads = k })))

-- A read comes to an error or to a copy.
abbrev Answers : Outcome Text → Type 0
Answers (done b) = Unit
Answers (fail rv) = Unit
Answers stuck = ⊥

copy_proc_mem-Answers :
    (e : Env) (raddr size k : ℕ) → Answers (copy_proc_mem e.target raddr size k).0
unfolding copy_proc_mem
copy_proc_mem-Answers e raddr size k = null (raddr == 0)
  where
    sized : (b : Text) (fits : Bool) → Answers (if fits then done b else fail err)
    sized b true = tt
    sized b false = tt

    answered :
        (a : Answer)
        → Answers (elim a [
          | bytes b ↦ if length b == size then done b else fail err
          | esrch ↦ fail err_dead
          | refused ↦ fail err
        ])
    answered (bytes b) = sized b (length b == size)
    answered esrch = tt
    answered refused = tt

    null :
        (b : Bool)
        → (let r : Outcome Text × ℕ = if b then (fail err, k) else (
          elim (e.target.vm_readv k raddr size) [
            | bytes c ↦ if length c == size then done c else fail err
            | esrch ↦ fail err_dead
            | refused ↦ fail err
          ],
          k + 1,
        ) in
            Answers r.0)
    null true = tt
    null false = answered (e.target.vm_readv k raddr size)

Outcome-cases :
    (r : Outcome Text × ℕ)
    → Answers r.0
    → ((rv : Status) × (k : ℕ) × (r ≡ (fail rv, k))) ⊎ ((b : Text) × (k : ℕ) × (r ≡ (done b, k)))
Outcome-cases (done b, k) h = inr (b, k, refl)
Outcome-cases (fail rv, k) h = inl (rv, k, refl)
Outcome-cases (stuck, k) h = elim h [ ]

-- A frame in front of what is collected behind it.
IsCollected-next :
    (e : Env) (todo remote : ℕ) (ptrs : List ℕ) (s : Context) (copy : Text) (k : ℕ)
    (r : Outcome (List ℕ) × Context)
    → remote ≢ 0
    → copy_proc_mem e.target (at_offset remote e.target.layout.frame_prev) 8 s.reads
      ≡ (done copy, k)
    → IsCollected e todo (field 0 8 copy) (ptrs ++ (remote ∷ [])) (record s { reads = k }) r
    → IsCollected e (suc todo) remote ptrs s r
IsCollected-next e todo remote ptrs s copy k r some_frame at (inl (rv, k', broken, h)) =
    inl (rv, k', (some_frame, inr (copy, k, at, broken)), h)
IsCollected-next e todo remote ptrs s copy k r some_frame at (inr (ps, k', chain, h)) = inr (
  remote ∷ ps,
  k',
  (some_frame, refl, copy, k, at, chain),
  h ∙ ap (λ l. (done l, record s { reads = k' })) (append_assoc ptrs (remote ∷ []) ps),
)

-- What follows the read of a frame.
after_read : Env → ℕ → ℕ → List ℕ → Context → Outcome Text × ℕ → Outcome (List ℕ) × Context
after_read e todo remote ptrs s (done copy, k) =
    stack_collect e todo (field 0 8 copy) (ptrs ++ (remote ∷ [])) (record s { reads = k })
after_read e todo remote ptrs s (fail rv, k) = (fail rv, record s { reads = k })
after_read e todo remote ptrs s (stuck, k) = (stuck, record s { reads = k })

stack_collect-after_read :
    (e : Env) (todo remote : ℕ) (ptrs : List ℕ) (s : Context)
    → (remote == 0) ≡ false
    → stack_collect e (suc todo) remote ptrs s
      ≡ after_read e todo remote ptrs s
          (copy_proc_mem e.target (at_offset remote e.target.layout.frame_prev) 8 s.reads)
unfolding stack_collect ◌>>=◌ read after_read
stack_collect-after_read e todo remote ptrs s more =
    rw more (go (copy_proc_mem e.target (at_offset remote e.target.layout.frame_prev) 8 s.reads))
  where
    go :
        (r : Outcome Text × ℕ)
        → ((λ c. (r.0, record s { reads = r.1 }))
              >>= (λ next. stack_collect e todo (field 0 8 next) (ptrs ++ (remote ∷ []))))
            s
          ≡ after_read e todo remote ptrs s r
    go (done copy, k) = refl
    go (fail rv, k) = refl
    go (stuck, k) = refl

stack_collect-null :
    (e : Env) (todo remote : ℕ) (ptrs : List ℕ) (s : Context)
    → (remote == 0) ≡ true
    → stack_collect e (suc todo) remote ptrs s ≡ (done ptrs, s)
unfolding stack_collect return
stack_collect-null e todo remote ptrs s null = rw null refl

none_more :
    (ptrs : List ℕ) (s : Context)
    → ◌≡◌ {A = Outcome (List ℕ) × Context} (done ptrs, s) (done (ptrs ++ []), s)
none_more ptrs s = ap (λ l. (done l, s)) (sym (append-nil ptrs))

pub stack_collect-IsCollected :
    (e : Env) (todo remote : ℕ) (ptrs : List ℕ) (s : Context)
    → IsCollected e todo remote ptrs s (stack_collect e todo remote ptrs s)
unfolding stack_collect return after_read
stack_collect-IsCollected e zero remote ptrs s = inr ([], s.reads, refl, none_more ptrs s)
stack_collect-IsCollected e (suc todo) remote ptrs s = elim (Bool-cases (remote == 0)) [
  | inl null ↦
      inr
        ([], s.reads, ground arith, stack_collect-null e todo remote ptrs s null ∙ none_more ptrs s)
  | inr more ↦
      let step = stack_collect-after_read e todo remote ptrs s more in
      elim (Outcome-cases
        (copy_proc_mem e.target (at_offset remote e.target.layout.frame_prev) 8 s.reads)
        (copy_proc_mem-Answers e _ 8 s.reads)) [
          | inl (rv, k, at) ↦
              inl
                (rv, k, (ground arith, inl (k, at)), step ∙ ap (after_read e todo remote ptrs s) at)
          | inr (copy, k, at) ↦
              subst (IsCollected e (suc todo) remote ptrs s)
                (sym (step ∙ ap (after_read e todo remote ptrs s) at))
                (IsCollected-next e todo remote ptrs s copy k _ (ground arith) at (
                  stack_collect-IsCollected e todo (field 0 8 copy) (ptrs ++ (remote ∷ []))
                    (record s { reads = k })))
        ]
]

pub IsChain-length :
    (e : Env) (k todo remote : ℕ) (ptrs : List ℕ)
    → IsChain e k todo remote ptrs
    → length ptrs ≤ todo
IsChain-length e k zero remote ptrs chain = rw chain (omega arith)
IsChain-length e k (suc todo) remote [] chain = omega arith
IsChain-length e k (suc todo) remote (p ∷ ps) (some_frame, same, copy, k', at, chain) =
    omega (arith, IsChain-length e k' todo (field 0 8 copy) ps chain)
