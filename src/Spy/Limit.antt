-- ===== src/Spy/Limit.antt =====
-- When the trace limit ends the loop of `main_pid`.
use phpspy.Prelude.{
  ℕ, zero, suc, ◌+◌, ◌^◌, ◌<◌, ◌≡◌, ◌==◌, ltb, if◌then◌else◌, Bool, true, false, none, some, arith,
  Bool-cases, inl, inr, ap, ◌∙◌,
}
use Prim.Native.Nat.{min}
use phpspy.Options.{Options}
use phpspy.Status.{Status, is_ok}
use phpspy.Zend.Remote.{Outcome, done, fail, stuck}
use phpspy.Trace.{Context, Action}
use phpspy.Spy.{World, Spy, attached, trace_limit, running}
use phpspy.Spy.Loop.{
  pause_pid, unpause_pid, round_status, is_counted, seen_count, finish_round, after_trace,
  spy_round, spy_loop,
}
use phpspy.Spy.Ends.{go_on-some, go_on-none}

-- A trace that ends with PHPSPY_OK or PHPSPY_ERR_TRUNCATED.
unfoldable pub is_good : Outcome Status → Bool
is_good (done rv) = is_ok (record rv { truncated = false })
is_good (fail rv) = false
is_good stuck = false

-- How many of the next `m` traces do.
unfoldable pub good_traces : Action Status → ℕ → Context → ℕ
unfolding is_good
good_traces trace zero c = 0
good_traces trace (suc m) c =
    (if is_good (trace c).0 then 1 else 0) + good_traces trace m (trace c).1

module _ (o : Options) (w : World) (trace : Action Status) (positive : 0 < o.trace_limit)
    (small : o.trace_limit < 2 ^ 64) (alone : w.in_pgrep_mode ≡ false) where
  round_status_lem :
      (k : ℕ) (rv : Status)
      → (w.attach k ≡ attached) × (w.waited k ≡ true) × (w.detach k ≡ attached)
      → round_status o w k rv ≡ rv
  unfolding round_status pause_pid unpause_pid
  round_status_lem k rv works = ground arith

  finish_round-counts :
      (k : ℕ) (rv : Status) (s : Spy)
      → s.trace_count < o.trace_limit
      → rv.pid_dead ≡ false
      → let r = finish_round o w none k rv s in
        let n = s.trace_count + (if is_good (done rv) then 1 else 0) in
        (r.1.trace_count ≡ n)
        × (r.0 ≡ (if n == o.trace_limit then some trace_limit else none))
        × (r.1.context ≡ s.context)
  unfolding finish_round is_counted seen_count is_good
  finish_round-counts k rv s below alive = ground (arith, positive, small, alone)

  -- What a round comes to.
  spy_round-counts :
      (k : ℕ) (rv : Status) (s : Spy)
      → s.trace_count < o.trace_limit
      → (trace s.context).0 ≡ done rv
      → rv.pid_dead ≡ false
      → (w.attach k ≡ attached) × (w.waited k ≡ true) × (w.detach k ≡ attached)
      → let r = spy_round o w trace none k s in
        let n = s.trace_count + (if is_good (trace s.context).0 then 1 else 0) in
        (r.1.trace_count ≡ n)
        × (r.0 ≡ (if n == o.trace_limit then some trace_limit else none))
        × (r.1.context ≡ (trace s.context).1)
  unfolding spy_round after_trace
  spy_round-counts k rv s below e alive works =
      rw (e, round_status_lem k rv works)
        (finish_round-counts k rv (record s { context = (trace s.context).1 }) below alive)

  -- Outside of pgrep mode, without a time limit and without a signal, where the process can be stopped
  -- and started in each round and each trace returns a status without PHPSPY_ERR_PID_DEAD: with a
  -- trace limit that is not reached yet, the loop counts exactly the traces that end with PHPSPY_OK
  -- or PHPSPY_ERR_TRUNCATED, and is left in the round in which their number reaches the limit.
  pub spy_loop-limit :
      (m k : ℕ) (s : Spy)
      → s.trace_count < o.trace_limit
      → ((k : ℕ) → w.done k ≡ false)
      → ((k : ℕ) → (w.attach k ≡ attached) × (w.waited k ≡ true) × (w.detach k ≡ attached))
      → ((c : Context) → (rv : Status) × ((trace c).0 ≡ done rv) × (rv.pid_dead ≡ false))
      → let r = spy_loop o w trace none m k s in
        let n = s.trace_count + good_traces trace m s.context in
        (r.1.trace_count ≡ min n o.trace_limit)
        × (r.0 ≡ (if ltb n o.trace_limit then running else trace_limit))
  unfolding spy_loop good_traces
  spy_loop-limit zero k s below on works returns = (omega arith, ground arith)
  spy_loop-limit (suc m) k s below on works returns =
      let (rv, e, alive) = returns s.context in
      let (up, left, same) = spy_round-counts k rv s below e alive (works k) in
      let n = s.trace_count + (if is_good (trace s.context).0 then 1 else 0) in
      let t = (spy_round o w trace none k s).1 in
      rw (on k) (elim (Bool-cases (n == o.trace_limit)) [
        | inl full ↦
            rw
              (go_on-some (spy_loop o w trace none m (suc k)) (spy_round o w trace none k s)
                trace_limit (ground (arith, left, full)))
              (ground (arith, up, full), ground (arith, full))
        | inr short ↦
            let (count, last) =
              spy_loop-limit m (suc k) t (ground (arith, up, short)) on works returns in
            let total : t.trace_count + good_traces trace m t.context
                ≡ s.trace_count + good_traces trace (suc m) s.context =
              omega (arith, up, ap (good_traces trace m) same) in
            rw
              (go_on-none (spy_loop o w trace none m (suc k)) (spy_round o w trace none k s)
                (ground (arith, left, short)))
              (
                count ∙ ap (λ x. min x o.trace_limit) total,
                last ∙ ap (λ x. if ltb x o.trace_limit then running else trace_limit) total,
              )
      ])
