-- ===== src/Top/Loop.antt =====
-- The loop of `main_top`: what `clock_gettime`, `select`, `read` and termbox return in a round is
-- an argument.
use phpspy.Prelude.{◌-◌, leb, ◌==◌, if◌then◌else◌, ℕ, ◌||◌, Option, none, some, List, [], ◌∷◌}
use phpspy.Prelude.Text.{Text}
use phpspy.Prelude.Int.{ℤ}
use phpspy.Prelude.Uthash.{Uthash}
use phpspy.Clock.{Timespec}
use phpspy.Top.{FuncEntry, TbEvent, Top, read_child_out, read_child_err, handle_event, display}

-- `select` was interrupted, has failed, or says which descriptors are ready, with what is read.
pub data Selected : Type 0 where
  interrupted failed : Selected
  ready : (out err : Option (Option Text)) (tty : Option TbEvent) → Selected

pub record Round : Type 0 where
  pub now : Timespec
  pub height : ℕ
  pub selected : Selected

abbrev pub when_some {ℓ κ} : {A : Type ℓ} {B : Type κ} → (A → B → B) → Option A → B → B
when_some f none b = b
when_some f (some a) b = f a b

module _ (hash : Uthash) where
  -- The descriptors, in the order of the source.
  unfoldable pub serve :
      Option (Option Text) → Option (Option Text) → Option TbEvent → Top hash → Top hash
  serve out err tty s =
      when_some (handle_event hash) tty
        (when_some (read_child_err hash) err (when_some (read_child_out hash) out s))

module _ (hash : Uthash)
    (qsort : (FuncEntry → FuncEntry → ℤ) → List FuncEntry → List FuncEntry) where
  -- `display`, when a second has gone by.
  unfoldable pub refresh : Round → Timespec × Top hash → Timespec × Top hash
  refresh r (last_display, s) =
      let due = (last_display.sec == 0) || leb 1 (r.now.sec - last_display.sec) in
      (if due then r.now else last_display, if due then (display hash qsort r.height s).1 else s)

  -- The state when the loop is left, or when the rounds given are over.
  unfoldable pub top_loop : List Round → Timespec × Top hash → Top hash
  top_loop [] (last_display, s) = s
  top_loop (r ∷ rs) (last_display, s) =
      let (shown, t) = refresh r (last_display, s) in
      let again = top_loop rs (record shown { sec = 0 }, t) in
      if s.done then s else elim r.selected [
        | interrupted ↦ again
        | failed ↦ t
        | ready out err tty ↦ top_loop rs (shown, serve hash out err tty t)
      ]
