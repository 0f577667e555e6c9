-- ===== src/Shell.antt =====
-- `shell_escape` of addr_objdump.c, which quotes an argument for `sh -c`.
pub mod Tests
pub mod Word
pub mod Bounds
use phpspy.Prelude.{ℕ, ◌-◌, Option, none, some, [], ◌∷◌, ltb, ◌==◌, if◌then◌else◌}
use phpspy.Prelude.Text.{Text}
use mathlib.Core.Option

abbrev pub quote : ℕ
quote = 39

abbrev pub backslash : ℕ
backslash = 92

-- The loop over `arg` and the closing quote. `room` is `buf_end - buf`; the result is what is
-- written from `buf` on, without the NUL, and `none` is the jump to `shell_escape_end` with rv 1.
escape_from : Text → ℕ → Option Text
escape_from [] room = if ltb room 2 then none else some (quote ∷ [])
escape_from (c ∷ cs) room =
    let closed =
      Option.map (λ out. quote ∷ backslash ∷ quote ∷ quote ∷ out) (escape_from cs (room - 4)) in
    let plain = Option.map (λ out. c ∷ out) (escape_from cs (room - 1)) in
    if c == quote
    then (if ltb room 4 then none else closed)
    else (if ltb room 1 then none else plain)

-- The caller's `assert(buf_size >= 1)` makes the first write safe.
unfoldable pub shell_escape : Text → ℕ → Option Text
unfolding escape_from
shell_escape arg buf_size = Option.map (λ out. quote ∷ out) (escape_from arg (buf_size - 1))
