-- ===== src/Top/Runs.antt =====
-- The loop of `main_top` keeps the counters in step.
use phpspy.Prelude.{
  ℕ, zero, suc, ◌==◌, if◌then◌else◌, Bool, true, false, Option, none, some, List, [], ◌∷◌, ◌++◌,
}
use phpspy.Prelude.Text.{Text}
use phpspy.Prelude.Int.{ℤ}
use phpspy.Prelude.Bytes.{memchr}
use phpspy.Prelude.Uthash.{Uthash}
use phpspy.Clock.{Timespec}
use phpspy.Top.{
  FuncEntry, TbEvent, key, other, Top, make_room, handle_line, next_line, handle_lines,
  read_child_out, read_child_err, handle_event, display,
}
use phpspy.Top.Loop.{interrupted, failed, ready, Round, when_some, refresh, serve, top_loop}
use phpspy.Top.Totals.{IsCounted, Permutes, handle_line-IsCounted, display-IsCounted}

module _ (hash : Uthash) where
  -- The counters stand apart from the line buffer, the flags and the count of errors.
  IsCounted-other :
      (s : Top hash) (b : Text) (errs : ℕ) (paused over : Bool)
      → IsCounted hash s
      → IsCounted hash
          (record s { buf = b; total_err_count = errs; is_paused = paused; done = over })
  IsCounted-other s b errs paused over v = record {
    entry_at = v.entry_at;
    found = v.found;
    named = v.named;
    balanced = v.balanced;
    room = v.room;
  }

  if-IsCounted :
      (b : Bool) (s t : Top hash)
      → IsCounted hash s
      → IsCounted hash t
      → IsCounted hash (if b then s else t)
  if-IsCounted true s t v w = v
  if-IsCounted false s t v w = w

  next_line-IsCounted :
      (n : ℕ) (s : Top hash) → IsCounted hash s → IsCounted hash (next_line hash n s)
  unfolding next_line
  next_line-IsCounted n s v =
      let t = handle_line hash s.buf n s in
      IsCounted-other t _ t.total_err_count t.is_paused t.done
        (handle_line-IsCounted hash s.buf n s v)

  handle_lines-IsCounted :
      (fuel : ℕ) (s : Top hash) → IsCounted hash s → IsCounted hash (handle_lines hash fuel s)
  unfolding handle_lines
  handle_lines-IsCounted zero s v = v
  handle_lines-IsCounted (suc fuel) s v =
      elim (memchr b'\n' s.buf)
        as (λ o.
          IsCounted hash
            (elim o [ none ↦ s | some n ↦ handle_lines hash fuel (next_line hash n s) ])) [
              | none ↦ v
              | some n ↦
                  handle_lines-IsCounted fuel (next_line hash n s) (next_line-IsCounted n s v)
            ]

  make_room-IsCounted : (s : Top hash) → IsCounted hash s → IsCounted hash (make_room hash s)
  unfolding make_room
  make_room-IsCounted s v =
      if-IsCounted _ _ s (IsCounted-other s [] s.total_err_count s.is_paused s.done v) v

  read_child_out-IsCounted :
      (r : Option Text) (s : Top hash) → IsCounted hash s → IsCounted hash (read_child_out hash r s)
  unfolding read_child_out
  read_child_out-IsCounted none s v = make_room-IsCounted s v
  read_child_out-IsCounted (some []) s v =
      let t = make_room hash s in
      IsCounted-other t t.buf t.total_err_count t.is_paused true (make_room-IsCounted s v)
  read_child_out-IsCounted (some (c ∷ bytes)) s v =
      let t = make_room hash s in
      handle_lines-IsCounted _ _ (
        IsCounted-other t (t.buf ++ (c ∷ bytes)) t.total_err_count t.is_paused t.done
          (make_room-IsCounted s v))

  read_child_err-IsCounted :
      (r : Option Text) (s : Top hash) → IsCounted hash s → IsCounted hash (read_child_err hash r s)
  unfolding read_child_err
  read_child_err-IsCounted none s v = v
  read_child_err-IsCounted (some []) s v =
      IsCounted-other s s.buf s.total_err_count s.is_paused true v
  read_child_err-IsCounted (some (c ∷ bytes)) s v = IsCounted-other s s.buf _ s.is_paused s.done v

  handle_event-IsCounted :
      (e : TbEvent) (s : Top hash) → IsCounted hash s → IsCounted hash (handle_event hash e s)
  unfolding handle_event
  handle_event-IsCounted other s v = v
  handle_event-IsCounted (key ch) s v =
      if-IsCounted (ch == b'q') _ _ (IsCounted-other s s.buf s.total_err_count s.is_paused true v)
        (if-IsCounted (ch == b'p') _ _ (IsCounted-other s s.buf s.total_err_count _ s.done v) v)

  when_some-IsCounted :
      {A : Type 0} (f : A → Top hash → Top hash)
      → ((a : A) (s : Top hash) → IsCounted hash s → IsCounted hash (f a s))
      → (o : Option A) (s : Top hash) → IsCounted hash s
      → IsCounted hash (when_some f o s)
  when_some-IsCounted f h none s v = v
  when_some-IsCounted f h (some a) s v = h a s v

  serve-IsCounted :
      (out err : Option (Option Text)) (tty : Option TbEvent) (s : Top hash)
      → IsCounted hash s
      → IsCounted hash (serve hash out err tty s)
  unfolding serve
  serve-IsCounted out err tty s v =
      when_some-IsCounted (handle_event hash) handle_event-IsCounted tty _ (
        when_some-IsCounted (read_child_err hash) read_child_err-IsCounted err _
          (when_some-IsCounted (read_child_out hash) read_child_out-IsCounted out s v))

  module _ (qsort : (FuncEntry → FuncEntry → ℤ) → List FuncEntry → List FuncEntry)
      (p : Permutes qsort) where
    refresh-IsCounted :
        (r : Round) (l : Timespec) (s : Top hash)
        → IsCounted hash s
        → IsCounted hash (refresh hash qsort r (l, s)).1
    unfolding refresh
    refresh-IsCounted r l s v =
        if-IsCounted _ (display hash qsort r.height s).1 s
          (display-IsCounted hash qsort p r.height s v) v

    -- If `qsort` permutes, then however the loop of `main_top` runs on a state where each entry of
    -- `func_list` has an address of its own that the map agrees with, the list fits its array, and
    -- the samples of the entries add up to those of the header modulo 2^64, it ends in such a state.
    pub top_loop-IsCounted :
        (rs : List Round) (l : Timespec) (s : Top hash)
        → IsCounted hash s
        → IsCounted hash (top_loop hash qsort rs (l, s))
    unfolding top_loop
    top_loop-IsCounted [] l s v = v
    top_loop-IsCounted (r ∷ rs) l s v =
        let (shown, t) = refresh hash qsort r (l, s) in
        let w = refresh-IsCounted r l s v in
        if-IsCounted s.done s _ v
          (elim r.selected
            as (λ o. IsCounted hash (elim o [
              | interrupted ↦ top_loop hash qsort rs (record shown { sec = 0 }, t)
              | failed ↦ t
              | ready out err tty ↦ top_loop hash qsort rs (shown, serve hash out err tty t)
            ])) [
              | interrupted ↦ top_loop-IsCounted rs (record shown { sec = 0 }) t w
              | failed ↦ w
              | ready out err tty ↦
                  top_loop-IsCounted rs shown (serve hash out err tty t)
                    (serve-IsCounted out err tty t w)
            ])
