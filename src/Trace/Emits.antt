-- ===== src/Trace/Emits.antt =====
-- Which frames an action sends: the calculus of `Emits`.
use phpspy.Prelude.{
  ℕ, zero, suc, ◌≡◌, refl, sym, ap, ◌∙◌, if◌then◌else◌, Bool, true, false, List, [], ◌∷◌, ◌++◌,
  length, take,
}
use mathlib.Core.List.{append-nil, append_assoc}
use phpspy.Status.{Status, is_ok}
use phpspy.Event.{Event, frame}
use phpspy.Zend.Remote.{Outcome, done, fail, stuck, Read}
use phpspy.Trace.{Env, Context, Action, ◌>>=◌, return, raise, read, ignore, send}

-- The depths of the frames among some events.
abbrev pub depth_of : Event → List ℕ
depth_of (frame f) = f.depth ∷ []
depth_of ev = []

unfoldable pub frame_depths : List Event → List ℕ
frame_depths [] = []
frame_depths (ev ∷ evs) = depth_of ev ++ frame_depths evs

pub frame_depths-append :
    (xs ys : List Event) → frame_depths (xs ++ ys) ≡ frame_depths xs ++ frame_depths ys
unfolding frame_depths
frame_depths-append [] ys = refl
frame_depths-append (x ∷ xs) ys =
    ap (λ d. depth_of x ++ d) (frame_depths-append xs ys)
    ∙ sym (append_assoc (depth_of x) (frame_depths xs) (frame_depths ys))

-- From the depths `old` to `new`: all of `plan` has been added by an action that is done, and a
-- first part of it by one that is not.
abbrev pub Shown : {A : Type 0} → List ℕ → List ℕ → Outcome A → List ℕ → Type 0
Shown old plan (done a) new = new ≡ old ++ plan
Shown old plan (fail rv) new = (n : ℕ) × (new ≡ old ++ take n plan)
Shown old plan stuck new = (n : ℕ) × (new ≡ old ++ take n plan)

-- The action sends frames at the depths of `plan`, in this order, and no others.
pub record Emits {A : Type 0} (m : Action A) (plan : List ℕ) : Type 0 where
  pub shown :
      (s : Context) → Shown (frame_depths s.events) plan (m s).0 (frame_depths (m s).1.events)

pub Emits-return : {A : Type 0} (a : A) → Emits (return a) []
unfolding return
Emits-return a = record { shown = λ s. sym (append-nil (frame_depths s.events)) }

pub Emits-if :
    {A : Type 0} (b : Bool) {m n : Action A} {p : List ℕ}
    → Emits m p
    → Emits n p
    → Emits (if b then m else n) p
Emits-if true h h' = h
Emits-if false h h' = h'

still : {A : Type 0} (r : Outcome A) (old : List ℕ) → Shown old [] r old
still (done a) old = sym (append-nil old)
still (fail rv) old = (0, sym (append-nil old))
still stuck old = (0, sym (append-nil old))

pub Emits-read : {A : Type 0} (m : Read A) → Emits (read m) []
unfolding read
Emits-read m = record { shown = λ s. still (m s.reads).0 (frame_depths s.events) }

pub Emits-raise : (A : Type 0) (rv : Status) → Emits (raise {A = A} rv) []
unfolding raise
Emits-raise A rv = record { shown = λ s. still {A = A} (fail rv) (frame_depths s.events) }

take_all : (p : List ℕ) → take (length p) p ≡ p
take_all [] = refl
take_all (x ∷ p) = ap (λ q. x ∷ q) (take_all p)

take_within : (n : ℕ) (p q : List ℕ) → (m : ℕ) × (take n p ≡ take m (p ++ q))
take_within zero p q = (0, refl)
take_within (suc n) [] q = (0, refl)
take_within (suc n) (x ∷ p) q = let (m, e) = take_within n p q in (suc m, ap (λ r. x ∷ r) e)

take_beyond : (n : ℕ) (p q : List ℕ) → (m : ℕ) × (p ++ take n q ≡ take m (p ++ q))
take_beyond n [] q = (n, refl)
take_beyond n (x ∷ p) q = let (m, e) = take_beyond n p q in (suc m, ap (λ r. x ∷ r) e)

pub Emits-send : (e : Env) (ev : Event) → Emits (send e ev) (depth_of ev)
unfolding send frame_depths
Emits-send e ev = record {
  shown =
      λ s. sent s (if is_ok (e.handler s.events ev) then done tt else fail (e.handler s.events ev));
}
  where
    added :
        (s : Context) → frame_depths (s.events ++ (ev ∷ [])) ≡ frame_depths s.events ++ depth_of ev
    added s =
        frame_depths-append s.events (ev ∷ [])
        ∙ ap (λ d. frame_depths s.events ++ d) (append-nil (depth_of ev))

    all :
        (s : Context)
        → frame_depths (s.events ++ (ev ∷ []))
          ≡ frame_depths s.events ++ take (length (depth_of ev)) (depth_of ev)
    all s = added s ∙ ap (λ d. frame_depths s.events ++ d) (sym (take_all (depth_of ev)))

    sent :
        (s : Context) (r : Outcome (Unit {0}))
        → Shown (frame_depths s.events) (depth_of ev) r (frame_depths (s.events ++ (ev ∷ [])))
    sent s (done a) = added s
    sent s (fail rv) = (length (depth_of ev), all s)
    sent s stuck = (length (depth_of ev), all s)

-- A part of a plan, when the first part of it has been shown.
Shown-after :
    {A : Type 0} (r : Outcome A) (old mid new p q : List ℕ)
    → mid ≡ old ++ p
    → Shown mid q r new
    → Shown old (p ++ q) r new
Shown-after (done a) old mid new p q e h = h ∙ (ap (λ l. l ++ q) e ∙ append_assoc old p q)
Shown-after (fail rv) old mid new p q e (n, h) =
    let (m, t) = take_beyond n p q in
    (m, h ∙ (ap (λ l. l ++ take n q) e ∙ (append_assoc old p (take n q) ∙ ap (λ l. old ++ l) t)))
Shown-after stuck old mid new p q e (n, h) =
    let (m, t) = take_beyond n p q in
    (m, h ∙ (ap (λ l. l ++ take n q) e ∙ (append_assoc old p (take n q) ∙ ap (λ l. old ++ l) t)))

Shown-bind :
    {A B : Type 0} (f : A → Action B) (old p q : List ℕ) (r : Outcome A) (s' : Context)
    → ((a : A) → Emits (f a) q)
    → Shown old p r (frame_depths s'.events)
    → Shown old
        (p ++ q)
        (((λ s. (r, s')) >>= f) s').0
        (frame_depths (((λ s. (r, s')) >>= f) s').1.events)
unfolding ◌>>=◌
Shown-bind f old p q (done a) s' h' e =
    Shown-after (f a s').0 old (frame_depths s'.events) (frame_depths (f a s').1.events) p q e
      ((h' a).shown s')
Shown-bind f old p q (fail rv) s' h' (n, e) =
    let (m, t) = take_within n p q in (m, e ∙ ap (λ l. old ++ l) t)
Shown-bind f old p q stuck s' h' (n, e) =
    let (m, t) = take_within n p q in (m, e ∙ ap (λ l. old ++ l) t)

pub Emits-bind :
    {A B : Type 0} {m : Action A} {f : A → Action B} (p q : List ℕ)
    → Emits m p
    → ((a : A) → Emits (f a) q)
    → Emits (m >>= f) (p ++ q)
unfolding ◌>>=◌
Emits-bind {m} {f} p q h h' = record {
  shown = λ s. Shown-bind f (frame_depths s.events) p q (m s).0 (m s).1 h' (h.shown s);
}

quietly :
    {A : Type 0} (r : Outcome A) (s' : Context) (old : List ℕ)
    → Shown old [] r (frame_depths s'.events)
    → Shown old [] (ignore (λ s. (r, s')) s').0 (frame_depths (ignore (λ s. (r, s')) s').1.events)
unfolding ignore
quietly (done a) s' old h = h
quietly (fail rv) s' old (zero, h) = h
quietly (fail rv) s' old (suc n, h) = h
quietly stuck s' old h = h

-- What sends no frames.
pub quiet :
    {A B : Type 0} {m : Action A} {f : A → Action B}
    → Emits m []
    → ((a : A) → Emits (f a) [])
    → Emits (m >>= f) []
quiet h h' = Emits-bind [] [] h h'

pub Emits-ignore : {A : Type 0} {m : Action A} → Emits m [] → Emits (ignore m) []
unfolding ignore
Emits-ignore {m} h = record {
  shown = λ s. quietly (m s).0 (m s).1 (frame_depths s.events) (h.shown s);
}
