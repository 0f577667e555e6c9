-- ===== src/Spy/Ends.antt =====
-- When the loop of `main_pid` ends.
use phpspy.Prelude.{
  ℕ, zero, suc, ◌+◌, ◌<◌, ◌≡◌, ◌≢◌, ◌⊎◌, inl, inr, refl, Bool, true, false, Option, none, some,
  arith, Bool-cases,
}
use mathlib.Core.Path.{subst}
use phpspy.Prelude.Int.{pos, ltb_ℤ}
use phpspy.Options.{Options}
use phpspy.Status.{Status}
use phpspy.Clock.{Timespec, clock_diff}
use phpspy.Zend.Remote.{Outcome, done, fail, stuck}
use phpspy.Trace.{Context, Action}
use phpspy.Spy.{World, Spy, Left, has_left}
use phpspy.Spy.Loop.{round_status, finish_round, after_trace, spy_round, spy_loop, go_on}

-- The loop is left in the round `k` at the latest: `done` is set, or the time is over.
abbrev pub IsLast : World → Option Timespec → ℕ → Type 0
IsLast w none k = w.done k ≡ true
IsLast w (some t) k = (w.done k ≡ true) ⊎ (ltb_ℤ (pos 0) (clock_diff (w.start_time k) t) ≡ true)

abbrev leaves : Option Left → Bool
leaves none = false
leaves (some l) = has_left l

abbrev is_sound : Option Left → Bool
is_sound none = true
is_sound (some l) = has_left l

go_on-leaves :
    (next : Spy → Left × Spy) (r : Option Left × Spy)
    → leaves r.0 ≡ true
    → has_left (go_on next r).0 ≡ true
go_on-leaves next (none, s) h = absurd (ground arith)
go_on-leaves next (some l, s) h = h

pub go_on-some :
    (next : Spy → Left × Spy) (r : Option Left × Spy) (l : Left)
    → r.0 ≡ some l
    → go_on next r ≡ (l, r.1)
go_on-some next (none, s) l e = absurd (ground arith)
go_on-some next (some k, s) l e = ground (arith, e)

pub go_on-none :
    (next : Spy → Left × Spy) (r : Option Left × Spy) → r.0 ≡ none → go_on next r ≡ next r.1
go_on-none next (none, s) e = refl
go_on-none next (some k, s) e = absurd (ground arith)

go_on_sound :
    (next : Spy → Left × Spy) (r : Option Left × Spy)
    → is_sound r.0 ≡ true
    → ((s : Spy) → has_left (next s).0 ≡ true)
    → has_left (go_on next r).0 ≡ true
go_on_sound next (none, s) h n = n s
go_on_sound next (some l, s) h n = h

module _ (o : Options) (w : World) (trace : Action Status) where
  finish_round_sound :
      (stop : Option Timespec) (k : ℕ) (rv : Status) (s : Spy)
      → is_sound (finish_round o w stop k rv s).0 ≡ true
  unfolding finish_round
  finish_round_sound stop k rv s = ground arith

  after_trace_sound :
      (stop : Option Timespec) (k : ℕ) (r : Outcome Status) (s : Spy)
      → r ≢ stuck
      → is_sound (after_trace o w stop k r s).0 ≡ true
  unfolding after_trace
  after_trace_sound stop k (done rv) s back = finish_round_sound stop k (round_status o w k rv) s
  after_trace_sound stop k (fail rv) s back = finish_round_sound stop k (round_status o w k rv) s
  after_trace_sound stop k stuck s back = absurd (back refl)

  -- A late round is the last one.
  finish_round-late :
      (t : Timespec) (k : ℕ) (rv : Status) (s : Spy)
      → ltb_ℤ (pos 0) (clock_diff (w.start_time k) t) ≡ true
      → leaves (finish_round o w (some t) k rv s).0 ≡ true
  unfolding finish_round
  finish_round-late t k rv s late = ground arith

  after_trace-late :
      (t : Timespec) (k : ℕ) (r : Outcome Status) (s : Spy)
      → r ≢ stuck
      → ltb_ℤ (pos 0) (clock_diff (w.start_time k) t) ≡ true
      → leaves (after_trace o w (some t) k r s).0 ≡ true
  unfolding after_trace
  after_trace-late t k (done rv) s back late = finish_round-late t k (round_status o w k rv) s late
  after_trace-late t k (fail rv) s back late = finish_round-late t k (round_status o w k rv) s late
  after_trace-late t k stuck s back late = absurd (back refl)

  spy_round-last :
      (stop : Option Timespec) (k : ℕ) (s : Spy)
      → (trace s.context).0 ≢ stuck
      → IsLast w stop k
      → w.done k ≡ false
      → leaves (spy_round o w trace stop k s).0 ≡ true
  unfolding spy_round
  spy_round-last none k s back over on = absurd (ground arith)
  spy_round-last (some t) k s back (inl over) on = absurd (ground arith)
  spy_round-last (some t) k s back (inr late) on =
      after_trace-late t k (trace s.context).0 _ back late

  spy_round_sound :
      (stop : Option Timespec) (k : ℕ) (s : Spy)
      → (trace s.context).0 ≢ stuck
      → is_sound (spy_round o w trace stop k s).0 ≡ true
  unfolding spy_round
  spy_round_sound stop k s back = after_trace_sound stop k (trace s.context).0 _ back

  -- If each trace returns, with whatever status, and `done` is set at the test of some round, or some
  -- round starts later than the stop time, then the loop is left within as many rounds.
  pub spy_loop-ends :
      (stop : Option Timespec) (fuel k j : ℕ) (s : Spy)
      → j < fuel
      → IsLast w stop (k + j)
      → ((c : Context) → (trace c).0 ≢ stuck)
      → has_left (spy_loop o w trace stop fuel k s).0 ≡ true
  unfolding spy_loop
  spy_loop-ends stop zero k j s small last back = absurd (omega arith)
  spy_loop-ends stop (suc fuel) k zero s small last back = elim (Bool-cases (w.done k)) [
    | inl over ↦ rw over refl
    | inr on ↦ rw on (
        go_on-leaves (spy_loop o w trace stop fuel (suc k)) (spy_round o w trace stop k s)
          (spy_round-last stop k s (back s.context) (subst (IsLast w stop) (omega arith) last) on))
  ]
  spy_loop-ends stop (suc fuel) k (suc j) s small last back = elim (Bool-cases (w.done k)) [
    | inl over ↦ rw over refl
    | inr on ↦ rw on (
        go_on_sound (spy_loop o w trace stop fuel (suc k)) (spy_round o w trace stop k s)
          (spy_round_sound stop k s (back s.context))
          (λ t.
            spy_loop-ends stop fuel (suc k) j t (omega arith)
              (subst (IsLast w stop) (omega arith) last) back))
  ]
