-- ===== src/Parse/Sane.antt =====
-- The option variables that `parse_opts` leaves.
use phpspy.Peeks.Lines.{last_line, varpeek_add-ends}
use phpspy.Prelude.{
  ℕ, ◌<◌, ◌-◌, ◌^◌, ltb, ◌==◌, not, true, All, ◌≡◌, ◌∙◌, refl, Bool, false, ◌||◌, List, [], ◌∷◌,
  arith,
}
use phpspy.Prelude.Text.{Text}
use phpspy.Prelude.Int.{ℤ, negsuc, ltb_ℤ}
use phpspy.Options.{Options}
use phpspy.Parse.{
  Opt, letter, addr_executor_globals, addr_sapi_globals, event_handler, event_handler_opts,
  libname_awk_patt, Parsed, Parsing, parsed, exits, hangs, capture_letter, capture_letters,
  parse_capture, verbose_letter, verbose_letters, parse_flag, parse_text, parse_letter, parse_opt,
  parse_opts, strtol_with_min, atoi_with_min,
}

-- The request is read if one of its parts is printed.
abbrev request : Options → Bool
request o =
    o.capture_req_qstring || (o.capture_req_cookie || (o.capture_req_uri || o.capture_req_path))

abbrev IsConsistent : Options → Type 0
IsConsistent o = o.capture_req ≡ request o

-- There is a worker, the output buffer has room for a byte, and the depths are -1 or more.
pub record IsSane (o : Options) : Type 0 where
  pub workers : 0 < o.num_workers
  pub room : 0 < o.fout_buffer_size
  pub leaf : ltb_ℤ o.max_stack_depth_from_leaf (negsuc 0) ≡ false
  pub root : ltb_ℤ o.max_stack_depth_from_root (negsuc 0) ≡ false
  pub request_lem : IsConsistent o

-- What `IsSane` reads, but for the request.
abbrev sizes : Options → ℕ × ℕ × ℤ × ℤ
sizes o =
    (o.num_workers, o.fout_buffer_size, o.max_stack_depth_from_leaf, o.max_stack_depth_from_root)

capture_letter-sizes : (c : ℕ) (o : Options) → sizes (capture_letter c o) ≡ sizes o
unfolding capture_letter
capture_letter-sizes c o = ground arith

capture_letters-sizes : (cs : Text) (o : Options) → sizes (capture_letters cs o) ≡ sizes o
unfolding capture_letters
capture_letters-sizes [] o = refl
capture_letters-sizes (c ∷ cs) o =
    capture_letters-sizes cs (capture_letter c o) ∙ capture_letter-sizes c o

verbose_letter-sizes : (c : ℕ) (o : Options) → sizes (verbose_letter c o) ≡ sizes o
unfolding verbose_letter
verbose_letter-sizes c o = ground arith

verbose_letters-sizes : (cs : Text) (o : Options) → sizes (verbose_letters cs o) ≡ sizes o
unfolding verbose_letters
verbose_letters-sizes [] o = refl
verbose_letters-sizes (c ∷ cs) o =
    verbose_letters-sizes cs (verbose_letter c o) ∙ verbose_letter-sizes c o

parse_flag-sizes : (c : ℕ) (o : Options) → sizes (parse_flag c o) ≡ sizes o
unfolding parse_flag
parse_flag-sizes c o = ground arith

parse_capture-sizes : (t : Text) (o : Options) → sizes (parse_capture t o) ≡ sizes o
unfolding parse_capture
parse_capture-sizes t o = capture_letters-sizes t o

parse_text-sizes : (c : ℕ) (t : Text) (o : Options) → sizes (parse_text c t o) ≡ sizes o
unfolding parse_text
parse_text-sizes c t o =
    let capture = parse_capture-sizes t o in
    let verbose = verbose_letters-sizes t o in let flag = parse_flag-sizes c o in ground arith

verbose_letter-IsConsistent :
    (c : ℕ) (o : Options) → IsConsistent o → IsConsistent (verbose_letter c o)
unfolding verbose_letter
verbose_letter-IsConsistent c o h = ground arith

parse_flag-IsConsistent : (c : ℕ) (o : Options) → IsConsistent o → IsConsistent (parse_flag c o)
unfolding parse_flag
parse_flag-IsConsistent c o h = ground arith

verbose_letters-IsConsistent :
    (cs : Text) (o : Options) → IsConsistent o → IsConsistent (verbose_letters cs o)
unfolding verbose_letters
verbose_letters-IsConsistent [] o h = h
verbose_letters-IsConsistent (c ∷ cs) o h =
    verbose_letters-IsConsistent cs (verbose_letter c o) (verbose_letter-IsConsistent c o h)

parse_text-IsConsistent :
    (c : ℕ) (t : Text) (o : Options) → IsConsistent o → IsConsistent (parse_text c t o)
unfolding parse_text parse_capture
parse_text-IsConsistent c t o h =
    let verbose = verbose_letters-IsConsistent t o h in
    let flag = parse_flag-IsConsistent c o h in ground arith

-- The options go on and are sane, or the exit code is 0 or 1; no loop goes on forever.
unfoldable pub IsSaneParsing : Parsing → Type 0
IsSaneParsing (parsed p) = IsSane p.options
IsSaneParsing (exits code) = code < 2
IsSaneParsing hangs = ⊥

-- No -e goes on to the line 2^32 - 1.
abbrev pub ends : Opt → Bool
ends (letter c t) = not (c == b'e') || ltb (last_line t) (2 ^ 32 - 1)
ends a = true

sizes-IsSane : {a b : Options} → sizes b ≡ sizes a → IsConsistent b → IsSane a → IsSane b
sizes-IsSane e consistent h = record {
  workers = ground arith;
  room = ground arith;
  leaf = ground arith;
  root = ground arith;
  request_lem = consistent;
}

parse_text-IsSane : (c : ℕ) (t : Text) (o : Options) → IsSane o → IsSane (parse_text c t o)
parse_text-IsSane c t o h =
    sizes-IsSane (parse_text-sizes c t o) (parse_text-IsConsistent c t o h.request_lem) h

then-IsSane :
    (r : Parsing) (next : Parsed → Parsing)
    → IsSaneParsing r
    → ((q : Parsed) → IsSane q.options → IsSaneParsing (next q))
    → IsSaneParsing (elim r [ exits code ↦ exits code | hangs ↦ hangs | parsed q ↦ next q ])
unfolding IsSaneParsing
then-IsSane (exits code) next h step = h
then-IsSane hangs next h step = h
then-IsSane (parsed q) next h step = step q h

module _ (regcomp : Text → Bool) (fuel : ℕ) (enough : 2 ^ 32 < fuel) where
  parse_letter-IsSane :
      (c : ℕ) (t : Text) (p : Parsed)
      → IsSane p.options
      → ends (letter c t) ≡ true
      → IsSaneParsing (parse_letter regcomp fuel c t p)
  unfolding parse_letter atoi_with_min strtol_with_min IsSaneParsing
  parse_letter-IsSane c t p h end =
      let text = parse_text-IsSane c t p.options h in
      let peeked = varpeek_add-ends fuel t p.varpeek_map enough in ground arith

  set_handler-IsSane :
      (t : Text) (p : Parsed)
      → IsSane p.options
      → IsSaneParsing (parse_opt regcomp fuel (event_handler t) p)
  unfolding parse_opt IsSaneParsing
  set_handler-IsSane t p h = ground arith

  parse_opt-IsSane :
      (a : Opt) (p : Parsed)
      → IsSane p.options
      → ends a ≡ true
      → IsSaneParsing (parse_opt regcomp fuel a p)
  unfolding parse_opt IsSaneParsing
  parse_opt-IsSane (letter c t) p h end = parse_letter-IsSane c t p h end
  parse_opt-IsSane (addr_executor_globals t) p h end = sizes-IsSane refl h.request_lem h
  parse_opt-IsSane (addr_sapi_globals t) p h end = sizes-IsSane refl h.request_lem h
  parse_opt-IsSane (event_handler t) p h end = set_handler-IsSane t p h
  parse_opt-IsSane (event_handler_opts t) p h end = sizes-IsSane refl h.request_lem h
  parse_opt-IsSane (libname_awk_patt t) p h end = sizes-IsSane refl h.request_lem h

  -- Whatever the command line, if no -e goes on to the line 2^32 - 1 and the options are sane at first:
  -- `parse_opts` ends, phpspy exits with code 0 or 1, or it goes on with sane options. There is a worker, the output buffer has room for a byte, neither
  -- depth is below -1, and the request is read if and only if one of its parts is printed.
  pub parse_opts-IsSane :
      (args : List Opt) (p : Parsed)
      → IsSane p.options
      → All (λ a. ends a ≡ true) args
      → IsSaneParsing (parse_opts regcomp fuel args p)
  unfolding parse_opts IsSaneParsing
  parse_opts-IsSane [] p h all = h
  parse_opts-IsSane (a ∷ args) p h (end, all) =
      then-IsSane (parse_opt regcomp fuel a p) (parse_opts regcomp fuel args)
        (parse_opt-IsSane a p h end) (λ q sane. parse_opts-IsSane args q sane all)
