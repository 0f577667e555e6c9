-- ===== src/Zend/Remote.antt =====
-- The memory of the traced process, and how phpspy copies it (`copy_proc_mem` of phpspy.c) and
-- reads numbers and strings out of the copies (`sprint_zstring` of phpspy_trace.c).
use phpspy.Prelude.{
  ℕ, ◌+◌, ◌-◌, ◌*◌, ◌%◌, ◌^◌, ltb, ◌==◌, if◌then◌else◌, Bool, Option, none, some, [], ◌∷◌, length,
  take, drop,
}
use phpspy.Prelude.Text.{Text}
use Prim.Native.Nat.{min}
use phpspy.Prelude.Int.{ℤ, pos, negsuc}
use phpspy.Status.{Status, err, err_dead}
use phpspy.Zend.Layout.{Layout}

-- What `process_vm_readv` answers: the bytes that it has read, ESRCH, or another error.
pub data Answer : Type 0 where
  bytes : Text → Answer
  esrch refused : Answer

-- A traced process: the layout of its PHP version, `vm_readv k raddr size` as the answer to the
-- read number `k`, `print_double` as what `%f` makes of eight bytes, `leftover` as the bytes
-- that a local buffer holds before it is written, whether `char` is signed, and the addresses of
-- `trace_target`.
pub record Target : Type 0 where
  pub layout : Layout
  pub vm_readv : ℕ → ℕ → ℕ → Answer
  pub print_double : Text → Text
  pub leftover : ℕ → ℕ
  pub char_signed : Bool
  pub executor_globals_addr : ℕ
  pub sapi_globals_addr : ℕ
  pub alloc_globals_addr : ℕ

-- What a function leaves: a value, a status that is not PHPSPY_OK, or nothing, where the program
-- crashes or loops.
pub data Outcome {ℓ} (A : Type ℓ) : Type ℓ where
  done : A → Outcome A
  fail : Status → Outcome A
  stuck : Outcome A

-- A function that reads the process and does nothing else. The number counts the reads, so that
-- the memory may change between two of them.
abbrev pub Read : Type 0 → Type 0
Read A = ℕ → Outcome A × ℕ

-- `try`
infixl 5 ◌>>=◌
unfoldable pub ◌>>=◌ : {A B : Type 0} → Read A → (A → Read B) → Read B
(m >>= f) k =
    let (r, k') = m k in elim r [ done a ↦ f a k' | fail rv ↦ (fail rv, k') | stuck ↦ (stuck, k') ]

unfoldable pub return : {A : Type 0} → A → Read A
return a k = (done a, k)

unfoldable pub raise : {A : Type 0} → Status → Read A
raise rv k = (fail rv, k)

-- Where no status is an error: `none` for a failure.
unfoldable pub attempt : {A : Type 0} → Read A → Read (Option A)
attempt m k =
    let (r, k') = m k in
    elim r [ done a ↦ (done (some a), k') | fail rv ↦ (done none, k') | stuck ↦ (stuck, k') ]

unfoldable pub copy_proc_mem : Target → ℕ → ℕ → Read Text
copy_proc_mem t raddr size k = if raddr == 0 then (fail err, k) else (
  elim (t.vm_readv k raddr size) [
    | bytes b ↦ if length b == size then done b else fail err
    | esrch ↦ fail err_dead
    | refused ↦ fail err
  ],
  k + 1,
)

-- Pointer arithmetic.
abbrev pub at_offset : ℕ → ℕ → ℕ
at_offset raddr n = (raddr + n) % 2 ^ 64

-- The machines are little-endian.
unfoldable pub little_endian : Text → ℕ
little_endian [] = 0
little_endian (c ∷ cs) = c + 256 * little_endian cs

-- The member of `size` bytes at `offset` of a local copy, and its number.
abbrev pub member : ℕ → ℕ → Text → Text
member offset size copy = take size (drop offset copy)

unfoldable pub field : ℕ → ℕ → Text → ℕ
unfolding little_endian
field offset size copy = little_endian (member offset size copy)

-- A number of `w` bytes as a signed one.
abbrev pub signed : ℕ → ℕ → ℤ
signed w n = if ltb n (2 ^ (8 * w - 1)) then pos n else negsuc (2 ^ (8 * w) - n - 1)

-- `sprint_zstring`: the text that it leaves in a buffer of `buf_size` bytes, `*buf_len` bytes of it.
unfoldable pub sprint_zstring : Target → ℕ → ℕ → Read Text
unfolding copy_proc_mem field
sprint_zstring t rzstring buf_size = do
  let l = t.layout
  header ← copy_proc_mem t rzstring l.string_size
  copy_proc_mem t (at_offset rzstring l.string_val)
      (min (field l.string_len 8 header) (buf_size - 1))
