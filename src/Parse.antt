-- ===== src/Parse.antt =====
-- `parse_opts` of phpspy.c behind `getopt_long`: what each option does to the option variables.
pub mod Numbers
pub mod Sane
pub mod Tests
use phpspy.Prelude.{
  ℕ, zero, suc, ◌+◌, ◌-◌, ◌/◌, ◌%◌, ◌^◌, ltb, leb, ◌==◌, if◌then◌else◌, Bool, true, false, ◌||◌,
  ◌&&◌, Option, none, some, List, [], ◌∷◌, length,
}
use phpspy.Prelude.Text.{Text, codes, text_eq}
use phpspy.Prelude.Int.{ℤ, pos, negsuc, pos_part, ltb_ℤ}
use phpspy.Prelude.Number.{strtol, strtoull, strtoull_16}
use phpspy.Options.{Options, Handler, fout, callgrind}
use phpspy.Trace.{VarpeekEntry, GlopeekEntry}
use phpspy.Peeks.{usage, endless, peeks, varpeek_add, glopeek_add}

-- What `getopt_long` returns, with `optarg`; a long option that has a letter is that letter.
pub data Opt : Type 0 where
  letter : ℕ → Text → Opt
  addr_executor_globals addr_sapi_globals event_handler event_handler_opts libname_awk_patt :
      Text → Opt

pub record Parsed : Type 0 where
  pub options : Options
  pub varpeek_map : List VarpeekEntry
  pub glopeek_map : List GlopeekEntry

-- The options go on, phpspy exits with a code, or a loop does not end.
pub data Parsing : Type 0 where
  parsed : Parsed → Parsing
  exits : ℕ → Parsing
  hangs : Parsing

-- `strtol_with_min_or_exit`
unfoldable pub strtol_with_min : Text → ℤ → Option ℤ
strtol_with_min str min =
    let r = strtol str in
    if (r.1 == 0) || ltb r.1 (length str) then none else if ltb_ℤ r.0 min then none else some r.0

-- `atoi_with_min_or_exit`
unfoldable pub atoi_with_min : Text → ℤ → Option ℤ
atoi_with_min str min = elim (strtol_with_min str min) [
  | none ↦ none
  | some result ↦ if ltb_ℤ (pos (2 ^ 31 - 1)) result then none else some result
]

-- The letters of -r, in order: a small letter turns a field on, a capital one turns it off.
unfoldable pub capture_letter : ℕ → Options → Options
capture_letter c o =
    if c == b'q'
    then record o { capture_req_qstring = true }
    else if c == b'c'
    then record o { capture_req_cookie = true }
    else if c == b'u'
    then record o { capture_req_uri = true }
    else if c == b'p'
    then record o { capture_req_path = true }
    else if c == b'Q'
    then record o { capture_req_qstring = false }
    else if c == b'C'
    then record o { capture_req_cookie = false }
    else if c == b'U'
    then record o { capture_req_uri = false }
    else if c == b'P'
    then record o { capture_req_path = false }
    else o

unfoldable pub capture_letters : Text → Options → Options
capture_letters [] o = o
capture_letters (c ∷ cs) o = capture_letters cs (capture_letter c o)

unfoldable pub parse_capture : Text → Options → Options
parse_capture optarg o =
    let r = capture_letters optarg o in
    record r {
      capture_req =
          r.capture_req_qstring
          || (r.capture_req_cookie || (r.capture_req_uri || r.capture_req_path));
    }

-- The letters of -d.
unfoldable pub verbose_letter : ℕ → Options → Options
verbose_letter c o =
    if c == b'p'
    then record o { verbose_fields_pid = true }
    else if c == b't'
    then record o { verbose_fields_ts = true }
    else if c == b'P'
    then record o { verbose_fields_pid = false }
    else if c == b'T'
    then record o { verbose_fields_ts = false }
    else o

unfoldable pub verbose_letters : Text → Options → Options
verbose_letters [] o = o
verbose_letters (c ∷ cs) o = verbose_letters cs (verbose_letter c o)

abbrev pub with_options : Parsed → Options → Parsing
with_options p o = parsed (record p { options = o })

-- A number that is not accepted ends phpspy.
abbrev pub with_number : Parsed → Option ℤ → (ℤ → Options) → Parsing
with_number p none set = exits 1
with_number p (some n) set = with_options p (set n)

abbrev pub set_handler : Text → Options → Option Options
set_handler optarg o =
    if text_eq optarg (codes "fout")
    then some (record o { event_handler = fout })
    else if text_eq optarg (codes "callgrind")
    then some (record o { event_handler = callgrind })
    else none

-- The options that set a flag.
unfoldable pub parse_flag : ℕ → Options → Options
parse_flag c o =
    if c == b'm'
    then record o { capture_mem = true }
    else if c == b'1'
    then record o { frame_delim = 9; trace_delim = 10 }
    else if c == b'c'
    then record o { continue_on_error = true }
    else if c == b'q'
    then record o { quiet = 1 }
    else if c == b'S'
    then record o { pause = true }
    else if c == b't'
    then record o { top_mode = true }
    else if c == b'D'
    then record o { peek_pdo = true }
    else o

-- The options that keep a text, and those of a number without a test.
unfoldable pub parse_text : ℕ → Text → Options → Options
parse_text c optarg o =
    if c == b'P'
    then record o { pgrep_args = some optarg }
    else if c == b'V'
    then record o { phpv = optarg }
    else if c == b'l'
    then record o { trace_limit = (strtoull optarg).0 }
    else if c == b'r'
    then parse_capture optarg o
    else if c == b'o'
    then record o { path_output = optarg }
    else if c == b'O'
    then record o { path_child_out = optarg }
    else if c == b'E'
    then record o { path_child_err = optarg }
    else if c == b'd'
    then verbose_letters optarg o
    else parse_flag c o

-- `regcomp` says whether a pattern compiles, `fuel` bounds the lines of -e.
module _ (regcomp : Text → Bool) (fuel : ℕ) where
  unfoldable pub parse_letter : ℕ → Text → Parsed → Parsing
  parse_letter c optarg p =
      let o = p.options in
      if c == b'h'
      then exits 0
      else if c == b'v'
      then exits 0
      else if c == b'p'
      then with_number p (atoi_with_min optarg (pos 1)) (λ n. record o { pid = n })
      else if c == b'T'
      then with_number p (atoi_with_min optarg (pos 1)) (λ n. record o { num_workers = pos_part n })
      else if c == b's'
      then with_number p (strtol_with_min optarg (pos 1)) (λ n. record o { sleep_ns = pos_part n })
      else if c == b'H'
      then with_number p (strtol_with_min optarg (pos 1))
          (λ n. record o { sleep_ns = 1000000000 / pos_part n })
      else if c == b'i'
      then with_number p (strtol_with_min optarg (pos 0))
          (λ n. record o { time_limit_ms = pos_part n })
      else if c == b'n'
      then with_number p (atoi_with_min optarg (negsuc 0))
          (λ n. record o { max_stack_depth_from_leaf = n })
      else if c == b'N'
      then with_number p (atoi_with_min optarg (pos 0))
          (λ n. record o { max_stack_depth_from_root = n })
      else if c == b'b'
      then with_number p (atoi_with_min optarg (pos 1))
          (λ n. record o { fout_buffer_size = pos_part n })
      else if (c == b'f') || (c == b'F')
      then (if regcomp optarg
          then with_options p (record o { filter_re = some optarg; filter_negate = c == b'F' })
          else exits 1)
      else if c == b'e'
      then elim (varpeek_add fuel optarg p.varpeek_map) [
        | usage ↦ exits 1
        | endless ↦ hangs
        | peeks m ↦ parsed (record p { varpeek_map = m })
      ]
      else if c == b'g'
      then elim (glopeek_add optarg p.glopeek_map) [
        | none ↦ exits 1
        | some m ↦ parsed (record p { glopeek_map = m })
      ]
      else with_options p (parse_text c optarg o)

  unfoldable pub parse_opt : Opt → Parsed → Parsing
  parse_opt (letter c optarg) p = parse_letter c optarg p
  parse_opt (addr_executor_globals optarg) p =
      with_options p (record p.options { executor_globals_addr = strtoull_16 optarg })
  parse_opt (addr_sapi_globals optarg) p =
      with_options p (record p.options { sapi_globals_addr = strtoull_16 optarg })
  parse_opt (event_handler optarg) p = elim (set_handler optarg p.options) [
    | none ↦ exits 1
    | some o ↦ with_options p o
  ]
  parse_opt (event_handler_opts optarg) p =
      with_options p (record p.options { event_handler_opts = some optarg })
  parse_opt (libname_awk_patt optarg) p =
      with_options p (record p.options { libname_awk_patt = optarg })

  unfoldable pub parse_opts : List Opt → Parsed → Parsing
  parse_opts [] p = parsed p
  parse_opts (a ∷ args) p = elim (parse_opt a p) [
    | exits code ↦ exits code
    | hangs ↦ hangs
    | parsed q ↦ parse_opts args q
  ]
