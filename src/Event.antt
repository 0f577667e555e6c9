-- ===== src/Event.antt =====
-- What a trace hands to an event handler: the `event` part of `trace_context` in phpspy.h and the
-- PHPSPY_TRACE_EVENT_* codes. A buffer with its length is a text.
use phpspy.Prelude.{ℕ}
use phpspy.Prelude.Int.{ℤ}
use phpspy.Prelude.Text.{Text}

pub record Loc : Type 0 where
  pub func : Text
  pub class : Text
  pub file : Text
  pub lineno : ℤ

pub record Frame : Type 0 where
  pub loc : Loc
  pub depth : ℕ

-- `ts` is a double; it is kept as the text that `%f` makes of it.
pub record Request : Type 0 where
  pub uri : Text
  pub path : Text
  pub qstring : Text
  pub cookie : Text
  pub ts : Text

pub record Mem : Type 0 where
  pub size : ℕ
  pub peak : ℕ

-- `var->name`, `entry->filename_lineno` and the printed value.
pub record Varpeek : Type 0 where
  pub name : Text
  pub filename_lineno : Text
  pub zval_str : Text

pub record Glopeek : Type 0 where
  pub key : Text
  pub zval_str : Text

-- PHPSPY_TRACE_EVENT_ERROR is never sent.
pub data Event : Type 0 where
  init stack_begin stack_end deinit : Event
  frame : Frame → Event
  varpeek : Varpeek → Event
  glopeek : Glopeek → Event
  request : Request → Event
  mem : Mem → Event
