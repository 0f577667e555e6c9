-- ===== src/Zend/Always.antt =====
-- What holds of every value that a function of the remote memory returns.
use phpspy.Prelude.{
  ℕ, ◌≡◌, inl, inr, refl, ◌==◌, if◌then◌else◌, Bool, true, false, arith, length, Bool-cases,
}
use phpspy.Prelude.Text.{Text}
use phpspy.Status.{Status, err, err_dead}
use phpspy.Zend.Remote.{
  Target, Answer, bytes, esrch, refused, Outcome, done, fail, stuck, Read, ◌>>=◌, return, raise,
  copy_proc_mem,
}

-- What holds of the value of a function that returns one.
abbrev pub Post : {A : Type 0} → (A → Type 0) → Outcome A → Type 0
Post P (done a) = P a
Post P (fail rv) = Unit
Post P stuck = Unit

pub record Always {A : Type 0} (P : A → Type 0) (m : Read A) : Type 0 where
  pub always : (k : ℕ) → Post P (m k).0

Post-any : {A : Type 0} (r : Outcome A) → Post (λ a. Unit) r
Post-any (done a) = tt
Post-any (fail rv) = tt
Post-any stuck = tt

pub Always-any : {A : Type 0} (m : Read A) → Always (λ a. Unit) m
Always-any m = record { always = λ k. Post-any (m k).0 }

pub Always-return : {A : Type 0} (P : A → Type 0) (a : A) → P a → Always P (return a)
unfolding return
Always-return P a h = record { always = λ k. h }

Post-bind :
    {A B : Type 0} (P : A → Type 0) (Q : B → Type 0) (r : Outcome A) (k : ℕ) (f : A → Read B)
    → Post P r
    → ((a : A) → P a → Always Q (f a))
    → Post Q (((λ i. (r, k)) >>= f) k).0
unfolding ◌>>=◌
Post-bind P Q (done a) k f h h' = (h' a h).always k
Post-bind P Q (fail rv) k f h h' = tt
Post-bind P Q stuck k f h h' = tt

pub Always-bind :
    {A B : Type 0} (P : A → Type 0) (Q : B → Type 0) (m : Read A) (f : A → Read B)
    → Always P m
    → ((a : A) → P a → Always Q (f a))
    → Always Q (m >>= f)
unfolding ◌>>=◌
Always-bind P Q m f h h' = record { always = λ k. Post-bind P Q (m k).0 (m k).1 f (h.always k) h' }

pub Always-if :
    {A : Type 0} (P : A → Type 0) (b : Bool) (m n : Read A)
    → (b ≡ true → Always P m)
    → (b ≡ false → Always P n)
    → Always P (if b then m else n)
Always-if P true m n h h' = h refl
Always-if P false m n h h' = h' refl

Post-weaken :
    {A : Type 0} (P Q : A → Type 0) (r : Outcome A) → ((a : A) → P a → Q a) → Post P r → Post Q r
Post-weaken P Q (done a) h p = h a p
Post-weaken P Q (fail rv) h p = tt
Post-weaken P Q stuck h p = tt

pub Always-weaken :
    {A : Type 0} (P Q : A → Type 0) (m : Read A) → ((a : A) → P a → Q a) → Always P m → Always Q m
Always-weaken P Q m h p = record { always = λ k. Post-weaken P Q (m k).0 h (p.always k) }

pub Always-raise : {A : Type 0} (P : A → Type 0) (rv : Status) → Always P (raise {A = A} rv)
unfolding raise
Always-raise P rv = record { always = λ k. tt }

answered :
    (size : ℕ) (a : Answer)
    → Post {A = Text}
        (λ b. length b ≡ size)
        (elim a [
          | bytes b ↦ if length b == size then done b else fail err
          | esrch ↦ fail err_dead
          | refused ↦ fail err
        ])
answered size (bytes b) = elim (Bool-cases (length b == size)) [
  | inl whole ↦ rw (whole, Post) (ground arith)
  | inr partial ↦ rw (partial, Post) tt
]
answered size esrch = tt
answered size refused = tt

pub copied :
    (t : Target) (raddr size : ℕ) → Always (λ b. length b ≡ size) (copy_proc_mem t raddr size)
unfolding copy_proc_mem
copied t raddr size = record {
  always = λ k. (elim (Bool-cases (raddr == 0)) [
    | inl null ↦ rw (null, Post) tt
    | inr some_addr ↦ rw (some_addr, Post) (answered size (t.vm_readv k raddr size))
  ]);
}
