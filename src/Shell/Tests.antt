-- ===== src/Shell/Tests.antt =====
-- Runs of `shell_escape`, and its theorems at them.
use phpspy.Prelude.{◌≡◌, some, none, [], ◌++◌, arith}
use phpspy.Prelude.Text.{Text, codes}
use phpspy.Shell.{shell_escape}
use phpspy.Shell.Word.{bare, read_word, read_word-shell_escape}
use phpspy.Shell.Bounds.{IsEscaped, shell_escape_fits}

abbrev path : Text
path = codes "/it's"

abbrev escaped : Text
escaped = codes "'/it'\\''s'"

abbrev rest_of_line : Text
rest_of_line = codes " | awk"

shell_escape_path : (shell_escape path 10 ≡ none) × (shell_escape path 11 ≡ some escaped)
unfolding shell_escape
shell_escape_path = (ground arith, ground arith)

read_word-shell_escape_example :
    read_word bare [] (escaped ++ rest_of_line) ≡ some (path, rest_of_line)
read_word-shell_escape_example =
    read_word-shell_escape path 11 rest_of_line (ground arith) shell_escape_path.1

shell_escape_fits_example : IsEscaped path 11 (shell_escape path 11)
shell_escape_fits_example = shell_escape_fits path 11 (omega arith)
