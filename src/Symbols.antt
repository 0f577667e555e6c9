-- ===== src/Symbols.antt =====
-- addr_objdump.c: where a symbol of PHP stands in the memory of a process. The commands are run by
-- `popen`; what they print is a parameter, their texts are the model's.
use phpspy.Prelude.{
  ℕ, zero, suc, ◌+◌, ◌-◌, ◌*◌, ◌%◌, ◌^◌, ltb, leb, ◌==◌, if◌then◌else◌, Bool, true, false, ◌&&◌,
  ◌||◌, Option, none, some, List, [], ◌∷◌, ◌++◌, length, take,
}
use phpspy.Prelude.Text.{Text, codes, c_str, decimal_ℤ, snprintf}
use phpspy.Prelude.Int.{ℤ}
use phpspy.Prelude.Number.{strtoull_16}
use phpspy.Options.{Options}
use phpspy.Shell.{shell_escape}
pub mod Commands
pub mod Memo
pub mod Tests

-- PHPSPY_STR_SIZE
abbrev pub str_size : ℕ
str_size = 256

-- What `popen` and `fgets` leave: no pipe, no line, or the bytes up to a newline, as many as `fgets`
-- has been asked for; and whether `access` finds a path.
pub record Shells : Type 0 where
  pub popen : ℕ → Text → Option (Option Text)
  pub access : Text → Bool

-- `addr_memo`, which starts as zeros.
pub record AddrMemo : Type 0 where
  pub php_bin_path_root : Text
  pub php_bin_path : Text
  pub php_base_addr : ℕ

abbrev pub no_memo : AddrMemo
no_memo = record { php_bin_path_root = []; php_bin_path = []; php_base_addr = 0 }

-- The memo, and the commands that have been run, the oldest first.
pub record Lookup : Type 0 where
  pub memo : AddrMemo
  pub commands : List Text

-- `none` is a return value other than 0.
abbrev pub Looks : Type 0 → Type 0
Looks A = Lookup → Option A × Lookup

-- What follows a result, if there is one.
abbrev pub after : {A B : Type 0} → (A → Looks B) → Option A → Looks B
after f none s = (none, s)
after f (some a) s = f a s

infixl 5 ◌>>=◌
unfoldable pub ◌>>=◌ : {A B : Type 0} → Looks A → (A → Looks B) → Looks B
(m >>= f) s = after f (m s).0 (m s).1

unfoldable pub return : {A : Type 0} → A → Looks A
return a s = (some a, s)

-- `if (f(...) != 0) return 1`
unfoldable pub given : {A : Type 0} → Option A → Looks A
given o s = (o, s)

unfoldable pub run : Shells → Text → Looks Text
run sh cmd s = (
  elim (sh.popen (length s.commands) cmd) [
    | none ↦ none
    | some none ↦ none
    | some (some line) ↦ some line
  ],
  record s { commands = s.commands ++ (cmd ∷ []) },
)

-- A newline that nothing follows is cut off.
abbrev pub strip_one : ℕ → Text → Text
strip_one c [] = if c == b'\n' then [] else c ∷ []
strip_one c (d ∷ ds) = c ∷ d ∷ ds

-- The trailing newlines of a line are cut off.
unfoldable pub strip_newlines : Text → Text
strip_newlines [] = []
strip_newlines (c ∷ cs) = strip_one c (strip_newlines cs)

-- `snprintf` into an array of `size` bytes, if all of it fits.
unfoldable pub fits : ℕ → Text → Option Text
fits size t = if leb size (length t) then none else some t

unfoldable pub quieted : Options → Text → Option Text
unfolding fits
quieted o cmd =
    if ltb 0 o.quiet
    then fits str_size (codes "{ " ++ (cmd ++ codes "; } 2>/dev/null"))
    else some cmd

unfoldable pub nonempty : Text → Option Text
nonempty [] = none
nonempty (c ∷ cs) = some (c ∷ cs)

unfoldable pub popen_read_line : Options → Shells → Text → Looks Text
popen_read_line o sh cmd = do
  whole ← given (fits str_size cmd)
  actual ← given (quieted o whole)
  line ← run sh actual
  given (nonempty (strip_newlines (c_str (snprintf (str_size - 1) line))))

abbrev pub bin_path_command : Text → ℤ → Text
bin_path_command libname pid =
    codes "awk -ve=1 -vp="
    ++ (libname
        ++ (codes " '$0~p{print $NF; e=0; exit} END{exit e}' /proc/"
            ++ (decimal_ℤ pid
                ++ (codes "/maps || readlink /proc/" ++ (decimal_ℤ pid ++ codes "/exe")))))

abbrev pub root_path : ℤ → Text → Text
root_path pid buf = codes "/proc/" ++ (decimal_ℤ pid ++ (codes "/root/" ++ buf))

abbrev pub exe_path : ℤ → Text
exe_path pid = codes "/proc/" ++ (decimal_ℤ pid ++ codes "/exe")

-- The path below /proc, if `snprintf` can write it, and the path as the process sees it.
unfoldable pub store_paths : Options → Shells → ℤ → Text → Looks Text
store_paths o sh pid buf s =
    let path_root = snprintf str_size (root_path pid buf) in
    if leb str_size (length (root_path pid buf))
    then (none, record s { memo = record s.memo { php_bin_path_root = path_root } })
    else (
      some buf,
      record s {
        memo = record s.memo {
          php_bin_path_root = if sh.access path_root then path_root else exe_path pid;
          php_bin_path = buf;
        };
      },
    )

unfoldable pub get_php_bin_path : Options → Shells → ℤ → Looks Text
unfolding shell_escape
get_php_bin_path o sh pid = do
  libname ← given (shell_escape o.libname_awk_patt str_size)
  buf ← popen_read_line o sh (bin_path_command libname pid)
  store_paths o sh pid buf

abbrev pub start_command : Text → ℤ → Text
start_command path pid =
    codes "awk -vp="
    ++ (path
        ++ (codes " '$NF==p{if(index($2,\"x\")){print $1;exit}}' /proc/"
            ++ (decimal_ℤ pid ++ codes "/maps")))

abbrev pub vaddr_command : Text → Text
vaddr_command path_root =
    codes "objdump -p "
    ++ (path_root
        ++ codes
            " | awk -va=0 '$1==\"LOAD\"{a=$5} $5==\"flags\"{if(index($6,\"x\")){print a;exit}}'")

abbrev pub symbol_command : Text → Text → Text
symbol_command path_root symbol =
    codes "objdump -Tt "
    ++ (path_root ++ (codes " | awk '/ " ++ (symbol ++ codes "$/{print $1; exit}'")))

-- start_addr - virt_addr, in 64 bits.
unfoldable pub base_addr : Text → Text → ℕ
base_addr start virt = (strtoull_16 start + 2 ^ 64 - strtoull_16 virt) % 2 ^ 64

unfoldable pub get_php_base_addr : Options → Shells → ℤ → Looks ℕ
unfolding shell_escape
get_php_base_addr o sh pid s =
    (given (shell_escape s.memo.php_bin_path str_size) >>= λ path.
    popen_read_line o sh (start_command path pid) >>= λ start.
    given (shell_escape s.memo.php_bin_path_root str_size) >>= λ path_root.
    popen_read_line o sh (vaddr_command path_root) >>= λ virt. λ s'. (
      some (base_addr start virt),
      record s' { memo = record s'.memo { php_base_addr = base_addr start virt } },
    ))
      s

unfoldable pub get_symbol_offset : Options → Shells → Text → Looks ℕ
unfolding shell_escape
get_symbol_offset o sh symbol s =
    (given (shell_escape s.memo.php_bin_path_root str_size) >>= λ path_root.
    popen_read_line o sh (symbol_command path_root symbol) >>= λ line. return (strtoull_16 line))
      s

-- `*php_bin_path == '\0'`
abbrev pub is_unset : Text → Bool
is_unset [] = true
is_unset (c ∷ cs) = c == 0

-- What is in the memo is not looked up again.
unfoldable pub find_bin_path : Options → Shells → ℤ → Looks Text
find_bin_path o sh pid s =
    if is_unset s.memo.php_bin_path
    then get_php_bin_path o sh pid s
    else (some s.memo.php_bin_path, s)

unfoldable pub find_base_addr : Options → Shells → ℤ → Looks ℕ
find_base_addr o sh pid s =
    if s.memo.php_base_addr == 0
    then get_php_base_addr o sh pid s
    else (some s.memo.php_base_addr, s)

unfoldable pub get_symbol_addr : Options → Shells → ℤ → Text → Looks ℕ
get_symbol_addr o sh pid symbol = do
  path ← find_bin_path o sh pid
  base ← find_base_addr o sh pid
  offset ← get_symbol_offset o sh symbol
  return ((base + offset) % 2 ^ 64)
