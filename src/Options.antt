-- ===== src/Options.antt =====
-- The option variables of phpspy.c (`opt_*`), with the defaults that they are initialised with.
-- A regular expression is kept as its pattern, an event handler as its name.
use phpspy.Prelude.{ℕ, Bool, false, Option, none}
use phpspy.Prelude.Int.{ℤ, negsuc}
use phpspy.Prelude.Text.{Text, codes}

pub data Handler : Type 0 where
  fout callgrind : Handler

pub record Options : Type 0 where
  pub pid : ℤ
  pub pgrep_args : Option Text
  pub num_workers : ℕ
  pub frame_delim : ℕ
  pub trace_delim : ℕ
  pub time_limit_ms : ℕ
  pub path_output : Text
  pub filter_re : Option Text
  pub filter_negate : Bool
  pub verbose_fields_pid : Bool
  pub verbose_fields_ts : Bool
  pub fout_buffer_size : ℕ
  pub libname_awk_patt : Text
  pub quiet : ℕ
  pub peek_pdo : Bool
  pub top_mode : Bool
  pub sleep_ns : ℕ
  pub executor_globals_addr : ℕ
  pub sapi_globals_addr : ℕ
  pub capture_req : Bool
  pub capture_req_qstring : Bool
  pub capture_req_cookie : Bool
  pub capture_req_uri : Bool
  pub capture_req_path : Bool
  pub capture_mem : Bool
  pub max_stack_depth_from_leaf : ℤ
  pub max_stack_depth_from_root : ℤ
  pub trace_limit : ℕ
  pub path_child_out : Text
  pub path_child_err : Text
  pub phpv : Text
  pub pause : Bool
  pub event_handler : Handler
  pub event_handler_opts : Option Text
  pub continue_on_error : Bool

-- `PIPE_BUF` is 4096 on Linux, as the usage text says.
abbrev pub defaults : Options
defaults = record {
  pid = negsuc 0;
  pgrep_args = none;
  num_workers = 16;
  frame_delim = 10;
  trace_delim = 10;
  time_limit_ms = 0;
  path_output = codes "-";
  filter_re = none;
  filter_negate = false;
  verbose_fields_pid = false;
  verbose_fields_ts = false;
  fout_buffer_size = 4096;
  libname_awk_patt = codes "libphp[78]?";
  quiet = 0;
  peek_pdo = false;
  top_mode = false;
  sleep_ns = 10101010;
  executor_globals_addr = 0;
  sapi_globals_addr = 0;
  capture_req = false;
  capture_req_qstring = false;
  capture_req_cookie = false;
  capture_req_uri = false;
  capture_req_path = false;
  capture_mem = false;
  max_stack_depth_from_leaf = negsuc 0;
  max_stack_depth_from_root = negsuc 0;
  trace_limit = 0;
  path_child_out = codes "phpspy.%d.out";
  path_child_err = codes "phpspy.%d.err";
  phpv = codes "auto";
  pause = false;
  event_handler = fout;
  event_handler_opts = none;
  continue_on_error = false;
}
