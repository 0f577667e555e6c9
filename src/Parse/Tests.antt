-- ===== src/Parse/Tests.antt =====
-- Some command lines.
use phpspy.Prelude.{◌≡◌, ◌+◌, ◌^◌, refl, true, none, some, [], ◌∷◌, arith}
use phpspy.Prelude.Text.{codes}
use phpspy.Prelude.Int.{pos, negsuc}
use phpspy.Prelude.Number.{strtol, scan_number, scan_signed, scan, spaces}
use phpspy.Options.{defaults}
use phpspy.Parse.Sane.{IsSane, IsSaneParsing, parse_opts-IsSane}
use phpspy.Parse.{
  Parsed, parsed, exits, letter, strtol_with_min, atoi_with_min, parse_letter, parse_opt,
  parse_opts, parse_text, parse_flag,
}

abbrev nothing : Parsed
nothing = record { options = defaults; varpeek_map = []; glopeek_map = [] }

atoi_test : atoi_with_min (codes " -1") (negsuc 0) ≡ some (negsuc 0)
unfolding atoi_with_min strtol_with_min strtol scan_number scan_signed scan spaces
atoi_test = refl

suffix_test : atoi_with_min (codes "50x") (pos 1) ≡ none
unfolding atoi_with_min strtol_with_min strtol scan_number scan_signed scan spaces
suffix_test = refl

-- -H 0 is refused, behind an option that is taken.
rate_test :
    parse_opts (λ re. true) 0 (letter b'D' [] ∷ letter b'H' (codes "0") ∷ []) nothing ≡ exits 1
unfolding parse_opts parse_opt parse_letter parse_text parse_flag strtol_with_min strtol scan_number
    scan_signed scan spaces
rate_test = refl

pause_test :
    parse_opts (λ re. true) 0 (letter b'S' [] ∷ []) nothing
    ≡ parsed (record nothing { options = record defaults { pause = true } })
unfolding parse_opts parse_opt parse_letter parse_text parse_flag
pause_test = refl

abbrev nothing-IsSane : IsSane nothing.options
nothing-IsSane = record {
  workers = omega arith;
  room = omega arith;
  leaf = refl;
  root = refl;
  request_lem = refl;
}

-- `-T 4 -r qU`
parse_opts-IsSane_example : IsSaneParsing (
    parse_opts
      (λ re. true)
      (2 ^ 32 + 1)
      (letter b'T' (codes "4") ∷ letter b'r' (codes "qU") ∷ [])
      nothing)
parse_opts-IsSane_example =
    parse_opts-IsSane (λ re. true) (2 ^ 32 + 1) (omega arith)
      (letter b'T' (codes "4") ∷ letter b'r' (codes "qU") ∷ []) nothing nothing-IsSane
      (refl, (refl, tt))
