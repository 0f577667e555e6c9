-- ===== src/Peeks.antt =====
-- The variables to peek at: `varpeek_add` and `glopeek_add` of phpspy.c. `none` is `usage`, which
-- exits.
pub mod Lines
pub mod Tests
use phpspy.Prelude.{
  ℕ, zero, suc, ◌+◌, ◌-◌, ◌%◌, ◌^◌, ltb, leb, ◌==◌, if◌then◌else◌, Bool, true, false, ◌||◌, Option,
  none, some, List, [], ◌∷◌, ◌++◌, take, drop, length,
}
use phpspy.Prelude.Text.{Text, codes, text_eq, decimal, decimal_ℤ, snprintf}
use phpspy.Prelude.Int.{ℤ, pos, negsuc}
use phpspy.Prelude.Bytes.{memchr, memrchr}
use phpspy.Prelude.Number.{strtoull}
use phpspy.Trace.{VarpeekEntry, GlopeekEntry}

-- PHPSPY_STR_SIZE
abbrev pub str_size : ℕ
str_size = 256

-- `%d` of a `uint32_t`.
abbrev pub as_int : ℕ → ℤ
as_int n = if ltb n (2 ^ 31) then pos n else negsuc (2 ^ 32 - n - 1)

unfoldable pub varpeek_key : Text → ℕ → Text
varpeek_key file lineno = snprintf str_size (file ++ (b':' ∷ decimal_ℤ (as_int lineno)))

-- The variable is added to the entry of the key, which is made if there is none.
unfoldable pub add_var : Text → Text → List VarpeekEntry → List VarpeekEntry
add_var key name [] = record { filename_lineno = key; varmap = name ∷ [] } ∷ []
add_var key name (e ∷ es) =
    if text_eq e.filename_lineno key
    then record e { varmap = e.varmap ++ (name ∷ []) } ∷ es
    else e ∷ add_var key name es

-- `none` if no test ends the loop in `fuel` of them.
-- `for (lineno = line_start; lineno <= line_end; lineno++)` over a `uint32_t`.
unfoldable pub add_lines : Text → Text → ℕ → ℕ → ℕ → List VarpeekEntry → Option (List VarpeekEntry)
add_lines file name zero lineno line_end m = none
add_lines file name (suc fuel) lineno line_end m =
    let rest =
      add_lines file name fuel ((lineno + 1) % 2 ^ 32) line_end
        (add_var (varpeek_key file lineno) name m) in
    if leb lineno line_end then rest else some m

-- What `varpeek_add` comes to: `usage`, which exits, a loop that does not end in the rounds that it is
-- given, or the variables.
pub data Peeking : Type 0 where
  usage endless : Peeking
  peeks : List VarpeekEntry → Peeking

-- `strtoul`, kept in 32 bits.
abbrev pub to_uint32 : Text → ℕ
to_uint32 t = (strtoull t).0 % 2 ^ 32

-- The last line: the number behind the dash, or the first line.
unfoldable pub line_end_of : Text → ℕ
line_end_of behind = elim (memrchr b'-' behind) [
  | none ↦ to_uint32 (drop 1 behind)
  | some dash ↦ to_uint32 (drop (dash + 1) behind)
]

-- A negative precision prints the whole rest.
abbrev pub file_part : Text → ℕ → ℕ → Text
file_part varspec at_sign colon =
    if ltb at_sign colon
    then take (colon - at_sign - 1) (drop (at_sign + 1) varspec)
    else drop (at_sign + 1) varspec

-- `var@/path/file.php:line` or `var@/path/file.php:start-end`. The fuel is more than the lines that
-- a `uint32_t` counts.
unfoldable pub varpeek_add : ℕ → Text → List VarpeekEntry → Peeking
unfolding add_lines line_end_of
varpeek_add fuel varspec m = elim (memchr b'@' varspec) [
  | none ↦ usage
  | some at_sign ↦ elim (memrchr b':' varspec) [
    | none ↦ usage
    | some colon ↦
        let behind = drop colon varspec in
        let line_start = to_uint32 (drop 1 behind) in
        elim (add_lines (file_part varspec at_sign colon) (snprintf str_size (take at_sign varspec))
          fuel line_start (line_end_of behind) m) [ none ↦ endless | some r ↦ peeks r ]
  ]
]

-- `strncmp (full, glospec, n) == 0`, where `glospec` has a dot at `n`.
unfoldable pub agrees : ℕ → Text → Text → Bool
unfolding text_eq
agrees n full glospec = text_eq (take n full) (take n glospec)

-- The name of the array, in the order of the tests.
unfoldable pub gloname_of : Text → ℕ → Option Text
unfolding agrees
gloname_of glospec dot =
    if agrees dot (codes "post.") glospec
    then some (codes "_POST")
    else if agrees dot (codes "get.") glospec
    then some (codes "_GET")
    else if agrees dot (codes "cookie.") glospec
    then some (codes "_COOKIE")
    else if agrees dot (codes "server.") glospec
    then some (codes "_SERVER")
    else if agrees dot (codes "files.") glospec
    then some (codes "_FILES")
    else if agrees dot (codes "globals.") glospec
    then some []
    else none

-- HASH_FIND_STR
unfoldable pub has_glopeek : Text → List GlopeekEntry → Bool
has_glopeek key [] = false
has_glopeek key (e ∷ es) = text_eq e.key key || has_glopeek key es

unfoldable pub glopeek_add : Text → List GlopeekEntry → Option (List GlopeekEntry)
glopeek_add glospec m = elim (memchr b'.' glospec) [
  | none ↦ none
  | some dot ↦ if has_glopeek glospec m then some m else elim (gloname_of glospec dot) [
    | none ↦ none
    | some gloname ↦ some (
        m
        ++ (record {
          key = snprintf str_size glospec;
          gloname = snprintf str_size gloname;
          varname = snprintf str_size (drop (dot + 1) glospec);
        }
            ∷ []))
  ]
]
