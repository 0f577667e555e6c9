-- ===== src/Peeks/Tests.antt =====
-- Variables to peek at, as given on a command line.
use phpspy.Prelude.{◌≡◌, refl, ◌&&◌, ◌||◌, some, List, [], arith}
use phpspy.Prelude.Text.{Text, codes, text_eq}
use phpspy.Trace.{VarpeekEntry}
use phpspy.Peeks.{add_lines, agrees, gloname_of}
use phpspy.Peeks.Lines.{watched, in_lines, add_lines-watched}

add_lines-watched_example :
    (r : List VarpeekEntry) × (add_lines (codes "a.php") (codes "x") 4 7 9 [] ≡ some r)
    × ((k v : Text)
        → watched k v r
          ≡ (watched k v [] || (in_lines (codes "a.php") k 7 3 && text_eq (codes "x") v)))
add_lines-watched_example =
    add_lines-watched (codes "a.php") (codes "x") 3 7 9 [] refl (omega arith)

-- `p.x` is taken for `post.x`.
gloname_of_test : gloname_of (codes "p.x") 1 ≡ some (codes "_POST")
unfolding gloname_of agrees text_eq
gloname_of_test = refl
