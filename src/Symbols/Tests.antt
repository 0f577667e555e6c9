-- ===== src/Symbols/Tests.antt =====
-- Two symbols of a process whose binary and addresses are known.
use phpspy.Prelude.{ℕ, suc, ◌≤◌, ◌≡◌, refl, ◌==◌, if◌then◌else◌, true, false, some, [], length}
use phpspy.Prelude.Text.{Text, codes, decimal, digits_onto, decimal_ℤ, c_str, snprintf}
use phpspy.Prelude.Int.{pos}
use phpspy.Options.{defaults}
use phpspy.Symbols.{
  Shells, Lookup, no_memo, get_symbol_addr, find_bin_path, get_php_bin_path, given, popen_read_line,
  fits, quieted, run, nonempty, strip_newlines, store_paths, find_base_addr, get_php_base_addr,
  get_symbol_offset, base_addr, return, ◌>>=◌,
}
use phpspy.Prelude.Number.{scan_16, skip_0x, spaces, strtoull_16, unsigned_16}
use phpspy.Shell.{shell_escape}
use phpspy.Symbols.Commands.{Runs, get_symbol_addr-Runs}
use phpspy.Symbols.Memo.{get_symbol_addr-again}

-- The path, the start of the mapping, the address in the file, and then the offset.
abbrev answers : ℕ → Text
answers n =
    if n == 0
    then codes "/usr/bin/php"
    else if n == 1
    then codes "5000"
    else if n == 2
    then codes "1000"
    else codes "2a"

abbrev pub shells : Shells
shells = record { popen = λ n cmd. some (some (answers n)); access = λ path. true }

abbrev fresh : Lookup
fresh = record { memo = no_memo; commands = [] }

get_symbol_addr_test :
    (get_symbol_addr defaults shells (pos 7) (codes "executor_globals") fresh).0 ≡ some 16426
unfolding get_symbol_addr find_bin_path get_php_bin_path given popen_read_line fits decimal_ℤ
    quieted run nonempty strip_newlines c_str snprintf store_paths find_base_addr get_php_base_addr
    get_symbol_offset scan_16 skip_0x spaces strtoull_16 unsigned_16 decimal digits_onto
    shell_escape base_addr return ◌>>=◌
get_symbol_addr_test = refl

get_symbol_addr-Runs_example :
    Runs 4 (get_symbol_addr defaults shells (pos 7) (codes "executor_globals"))
get_symbol_addr-Runs_example =
    get_symbol_addr-Runs defaults shells (pos 7) (codes "executor_globals")

get_symbol_addr_base :
    ((get_symbol_addr defaults shells (pos 7) (codes "executor_globals") fresh).1.memo.php_base_addr
      == 0)
    ≡ false
unfolding get_symbol_addr find_bin_path get_php_bin_path given popen_read_line fits decimal_ℤ
    quieted run nonempty strip_newlines c_str snprintf store_paths find_base_addr get_php_base_addr
    get_symbol_offset scan_16 skip_0x spaces strtoull_16 unsigned_16 decimal digits_onto
    shell_escape base_addr return ◌>>=◌
get_symbol_addr_base = refl

get_symbol_addr-again_example :
    let t = (get_symbol_addr defaults shells (pos 7) (codes "executor_globals") fresh).1 in
    let u = (get_symbol_addr defaults shells (pos 7) (codes "sapi_globals") t).1 in
    (u.memo ≡ t.memo) × (length u.commands ≤ suc (length t.commands))
get_symbol_addr-again_example =
    get_symbol_addr-again defaults shells (pos 7) (codes "executor_globals") (codes "sapi_globals")
      fresh 16426 get_symbol_addr_test get_symbol_addr_base
