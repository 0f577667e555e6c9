-- ===== src/Pgrep/Mutex.antt =====
-- What the mutex of pgrep.c keeps true between any two moves of the threads.
use phpspy.Prelude.{
  ℕ, zero, suc, ◌≤◌, ◌≡◌, ◌∙◌, sym, refl, Bool, true, false, ◌||◌, Option, none, some, length,
  arith,
}
use phpspy.Pgrep.{Role, producer, consumer, has_turn}
use phpspy.Prelude.{update}
use phpspy.Pgrep.Steps.{Work}
use phpspy.Pgrep.Threads.{
  Pc, looping, locking, testing, waiting, chosen, producing, resting, returning, tracing, Threads,
  role, woken, wake_workers, Move, loop_on, loop_end, lock, wait, wake, choose, quit, produce,
  offer, announce, hold_off, return, take_pid, finish, write, open_pipe, read_pipe, set_done,
  broadcast, launch, Runs, here, next,
}

-- Which threads own the mutex, are among the lines of `pgrep`, are the producer or a worker for sure.
abbrev pub holds : Pc → Bool
holds testing = true
holds chosen = true
holds (producing found) = true
holds looping = false
holds locking = false
holds waiting = false
holds resting = false
holds returning = false
holds (tracing p) = false
holds Pc.ended = false

abbrev pub is_producing : Pc → Bool
is_producing (producing found) = true
is_producing testing = false
is_producing chosen = false
is_producing looping = false
is_producing locking = false
is_producing waiting = false
is_producing resting = false
is_producing returning = false
is_producing (tracing p) = false
is_producing Pc.ended = false

abbrev pub fits : Role → Pc → Bool
fits consumer (producing found) = false
fits consumer resting = false
fits consumer returning = false
fits producer (tracing p) = false
fits r testing = true
fits r chosen = true
fits r looping = true
fits r locking = true
fits r waiting = true
fits r Pc.ended = true
fits producer (producing found) = true
fits producer resting = true
fits producer returning = true
fits consumer (tracing p) = true

abbrev pub work_of : Pc → Work
work_of (tracing p) = Work.tracing p
work_of (producing found) = Work.looping
work_of testing = Work.looping
work_of chosen = Work.looping
work_of looping = Work.looping
work_of locking = Work.looping
work_of waiting = Work.looping
work_of resting = Work.looping
work_of returning = Work.looping
work_of Pc.ended = Work.looping

-- A thread owns the mutex if and only if it stands where it holds it.
pub record Owned (n : ℕ) (m : Option ℕ) (pc : ℕ → Pc) : Type 0 where
  pub holder : (t : ℕ) → holds (pc t) ≡ true → m ≡ some t
  pub held : (t : ℕ) → m ≡ some t → (holds (pc t) ≡ true) × (t ≤ n)

pub record IsGuarded (n : ℕ) (s : Threads) : Type 0 where
  pub owned : Owned n s.mutex s.pc
  pub turn :
      (t : ℕ) → s.pc t ≡ chosen → (s.pool.done || has_turn (role t) n (length s.pool.avail)) ≡ true
  pub works : (i : ℕ) → s.pool.work i ≡ work_of (s.pc (suc i))
  pub produces : s.pool.producing ≡ is_producing (s.pc 0)
  pub roles : (t : ℕ) → fits (role t) (s.pc t) ≡ true

module _ {n : ℕ} {m : Option ℕ} {pc : ℕ → Pc} (o : Owned n m pc) where
  Owned-same : (pc' : ℕ → Pc) → ((u : ℕ) → holds (pc' u) ≡ holds (pc u)) → Owned n m pc'
  Owned-same pc' e = record {
    holder = λ u h. o.holder u (ground (arith, e u));
    held = λ u h. ground (arith, e u, o.held u h);
  }

  Owned-keep : (t : ℕ) (c : Pc) → holds c ≡ holds (pc t) → Owned n m (update pc t c)
  Owned-keep t c e = Owned-same (update pc t c) (λ u. ground arith)

  Owned-take :
      (t : ℕ) (c : Pc) → m ≡ none → t ≤ n → holds c ≡ true → Owned n (some t) (update pc t c)
  Owned-take t c free le on = record {
    holder = λ u h. ground (arith, o.holder u);
    held = λ u h. ground (arith, o.held u);
  }

  Owned-free :
      (t : ℕ) (c : Pc) → holds (pc t) ≡ true → holds c ≡ false → Owned n none (update pc t c)
  Owned-free t c h e = record {
    holder = λ u h'. ground (arith, o.holder u, o.holder t);
    held = λ u h'. absurd (ground arith);
  }

holds-woken : (c : Pc) → holds (woken c) ≡ holds c
holds-woken c = ground arith

is_producing-woken : (c : Pc) → is_producing (woken c) ≡ is_producing c
is_producing-woken c = ground arith

work_of-woken : (c : Pc) → work_of (woken c) ≡ work_of c
work_of-woken c = ground arith

fits-woken : (r : Role) (c : Pc) → fits r c ≡ true → fits r (woken c) ≡ true
fits-woken r c h = ground arith

woken-chosen : (c : Pc) → woken c ≡ chosen → c ≡ chosen
woken-chosen c h = ground arith

wake_workers-holds : (pc : ℕ → Pc) (u : ℕ) → holds (wake_workers pc u) ≡ holds (pc u)
wake_workers-holds pc zero = refl
wake_workers-holds pc (suc i) = holds-woken (pc (suc i))

wake_workers-fits :
    (pc : ℕ → Pc) (u : ℕ) → fits (role u) (pc u) ≡ true → fits (role u) (wake_workers pc u) ≡ true
wake_workers-fits pc zero h = h
wake_workers-fits pc (suc i) h = fits-woken consumer (pc (suc i)) h

wake_workers-chosen : (pc : ℕ → Pc) (u : ℕ) → wake_workers pc u ≡ chosen → pc u ≡ chosen
wake_workers-chosen pc zero h = h
wake_workers-chosen pc (suc i) h = woken-chosen (pc (suc i)) h

-- One thread goes on to `c`, with the pool as it is.
module _ {n : ℕ} {s : Threads} (v : IsGuarded n s) where
  goes_on :
      (m : Option ℕ) (t : ℕ) (c : Pc)
      → Owned n m (update s.pc t c)
      → (c ≡ chosen → (s.pool.done || has_turn (role t) n (length s.pool.avail)) ≡ true)
      → work_of c ≡ work_of (s.pc t)
      → is_producing c ≡ is_producing (s.pc t)
      → fits (role t) c ≡ true
      → IsGuarded n (record s { mutex = m; pc = update s.pc t c })
  goes_on m t c o turn work same fit = record {
    owned = o;
    turn = λ u h. ground (arith, v.turn u, turn);
    works = λ i. ground (arith, v.works i);
    produces = ground (arith, v.produces);
    roles = λ u. ground (arith, v.roles u);
  }

Move-IsGuarded : {n : ℕ} {s s' : Threads} → Move n s s' → IsGuarded n s → IsGuarded n s'
Move-IsGuarded {s = s} (loop_on t le at go) v =
    goes_on v s.mutex t locking (Owned-keep v.owned t locking (ground arith)) (ground arith)
      (ground arith) (ground arith) (ground arith)
Move-IsGuarded {s = s} (loop_end t le at stop) v =
    goes_on v s.mutex t Pc.ended (Owned-keep v.owned t Pc.ended (ground arith)) (ground arith)
      (ground arith) (ground arith) (ground arith)
Move-IsGuarded {s = s} (lock t le at free) v =
    goes_on v (some t) t testing (Owned-take v.owned t testing free le refl) (ground arith)
      (ground arith) (ground arith) (ground arith)
Move-IsGuarded {s = s} (wait t le at go no_turn) v =
    goes_on v none t waiting (Owned-free v.owned t waiting (ground arith) refl) (ground arith)
      (ground arith) (ground arith) (ground arith)
Move-IsGuarded {s = s} (wake t le at) v =
    goes_on v s.mutex t (woken (s.pc t))
      (Owned-keep v.owned t (woken (s.pc t)) (holds-woken (s.pc t))) (ground arith)
      (work_of-woken (s.pc t)) (is_producing-woken (s.pc t))
      (fits-woken (role t) (s.pc t) (v.roles t))
Move-IsGuarded {s = s} (choose t le at h) v =
    goes_on v s.mutex t chosen (Owned-keep v.owned t chosen (ground arith)) (λ e. h) (ground arith)
      (ground arith) (ground arith)
Move-IsGuarded {s = s} (quit t le at stop) v =
    goes_on v none t Pc.ended (Owned-free v.owned t Pc.ended (ground arith) refl) (ground arith)
      (ground arith) (ground arith) (ground arith)
Move-IsGuarded {s = s} (return at free) v =
    goes_on v s.mutex 0 looping (Owned-keep v.owned 0 looping (ground arith)) (ground arith)
      (ground arith) (ground arith) (ground arith)
Move-IsGuarded {n} {s} (produce at go) v = record {
  owned = Owned-keep v.owned 0 (producing false) (ground arith);
  turn = λ u h. ground (arith, v.turn u);
  works = λ i. ground (arith, v.works i);
  produces = refl;
  roles = λ u. ground (arith, v.roles u);
}
Move-IsGuarded {n} {s} (offer found line at room) v = record {
  owned = Owned-keep v.owned 0 (producing _) (ground arith);
  turn = λ u h. ground (arith, v.owned.holder u, v.owned.holder 0);
  works = λ i. ground (arith, v.works i);
  produces = ground (arith, v.produces);
  roles = λ u. ground (arith, v.roles u);
}
Move-IsGuarded {n} {s} (announce at) v = record {
  owned =
      Owned-free (Owned-same v.owned (wake_workers s.pc) (wake_workers-holds s.pc)) 0 looping
        (ground arith) refl;
  turn = λ u h. ground (arith, v.turn u, wake_workers-chosen s.pc u);
  works = λ i. ground (arith, v.works i, work_of-woken (s.pc (suc i)));
  produces = refl;
  roles = λ u. ground (arith, wake_workers-fits s.pc u (v.roles u));
}
Move-IsGuarded {n} {s} (hold_off at) v = record {
  owned = Owned-free v.owned 0 resting (ground arith) refl;
  turn = λ u h. ground (arith, v.turn u);
  works = λ i. ground (arith, v.works i);
  produces = refl;
  roles = λ u. ground (arith, v.roles u);
}
Move-IsGuarded {n} {s} (take_pid i p others lt at go got) v = record {
  owned =
      Owned-free (Owned-keep v.owned 0 (woken (s.pc 0)) (holds-woken (s.pc 0))) (suc i) (tracing p)
        (ground arith) refl;
  turn = λ u h. ground (arith, v.owned.holder u, v.owned.holder (suc i), woken-chosen (s.pc 0));
  works = λ j. ground (arith, v.works j);
  produces = ground (arith, v.produces, is_producing-woken (s.pc 0));
  roles = λ u. ground (arith, v.roles u, fits-woken (role u) (s.pc u) (v.roles u));
}
Move-IsGuarded {n} {s} (finish i p lt at) v = record {
  owned = Owned-keep v.owned (suc i) looping (ground arith);
  turn = λ u h. ground (arith, v.turn u);
  works = λ j. ground (arith, v.works j);
  produces = ground (arith, v.produces);
  roles = λ u. ground (arith, v.roles u);
}
Move-IsGuarded write v = record {
  owned = v.owned;
  turn = v.turn;
  works = v.works;
  produces = v.produces;
  roles = v.roles;
}
Move-IsGuarded (open_pipe at) v = record {
  owned = v.owned;
  turn = v.turn;
  works = v.works;
  produces = v.produces;
  roles = v.roles;
}
Move-IsGuarded (read_pipe k at full) v = record {
  owned = v.owned;
  turn = v.turn;
  works = v.works;
  produces = v.produces;
  roles = v.roles;
}
Move-IsGuarded (set_done at) v = record {
  owned = v.owned;
  turn = λ u h. refl;
  works = v.works;
  produces = v.produces;
  roles = v.roles;
}
Move-IsGuarded {n} {s} (broadcast at free) v = record {
  owned = Owned-same v.owned (λ u. woken (s.pc u)) (λ u. holds-woken (s.pc u));
  turn = λ u h. v.turn u (woken-chosen (s.pc u) h);
  works = λ i. v.works i ∙ sym (work_of-woken (s.pc (suc i)));
  produces = v.produces ∙ sym (is_producing-woken (s.pc 0));
  roles = λ u. fits-woken (role u) (s.pc u) (v.roles u);
}

launch-IsGuarded : (n : ℕ) → IsGuarded n (launch n)
launch-IsGuarded n = record {
  owned = record { holder = λ t h. cc; held = λ t h. cc };
  turn = λ t h. cc;
  works = λ i. refl;
  produces = refl;
  roles = λ t. ground arith;
}

pub Runs-IsGuarded : {n : ℕ} {s : Threads} → Runs n s → IsGuarded n s
Runs-IsGuarded {n} here = launch-IsGuarded n
Runs-IsGuarded (next r m) = Move-IsGuarded m (Runs-IsGuarded r)
