-- ===== src/Top.antt =====
-- top.c: the aggregation of a child phpspy's output into the rows of `--top`. The termbox library,
-- the descriptors and `fork` are outside; what `read` returned is an argument.
use phpspy.Prelude.{
  ℕ, zero, suc, ◌+◌, ◌-◌, ◌*◌, ◌%◌, ◌^◌, ltb, leb, ◌==◌, if◌then◌else◌, Bool, true, false, not,
  ◌&&◌, ◌||◌, Option, none, some, List, [], ◌∷◌, ◌++◌, map, length, take, drop, get_or,
}
use phpspy.Prelude.Text.{Text, codes, text_eq, c_str, snprintf}
use phpspy.Prelude.Int.{ℤ, pos, negsuc, sub_ℕ}
use phpspy.Prelude.Bytes.{memchr}
use phpspy.Prelude.Number.{strtoull}
use phpspy.Prelude.Uthash.{Uthash}
pub mod Child
pub mod Errors
pub mod Frames
pub mod Lines
pub mod Loop
pub mod Order
pub mod Runs
pub mod Tests
pub mod Totals
pub mod Stream
pub mod Traces
pub mod TraceTests

abbrev pub func_size : ℕ
func_size = 256

abbrev pub buf_size : ℕ
buf_size = 512

-- `percent_excl` is kept as the quotient that the source computes in `float`: 100 * num / den, or
-- 0 if den is 0.
pub record Percent : Type 0 where
  pub num : ℕ
  pub den : ℕ

-- `addr` stands for the address that `calloc` returned. Every entry is in `func_list`, so the
-- list is also the store that `func_map` points into.
pub record FuncEntry : Type 0 where
  pub addr : ℕ
  pub func : Text
  pub count_excl : ℕ
  pub count_incl : ℕ
  pub total_count_excl : ℕ
  pub total_count_incl : ℕ
  pub percent_excl : Percent

-- An `unsigned long` counter.
abbrev pub add_u64 : ℕ → ℕ → ℕ
add_u64 a b = (a + b) % 2 ^ 64

-- What `handle_line` does behind `strtoull`, which has returned `n.0` and read `n.1` bytes. A
-- negative `func_len` is, as a `size_t`, above func_size.
unfoldable pub accept_line : Text → ℕ → ℕ × ℕ → Option (ℕ × Text)
accept_line line line_len n =
    if ltb line_len 3
    then none
    else if get_or line 0 0 == b'#'
    then none
    else if (n.0 == 0) && not (get_or line 0 0 == b'0')
    then none
    else if not (get_or line n.1 0 == b' ')
    then none
    else elim (sub_ℕ line_len (suc n.1)) [
      | negsuc _ ↦ none
      | pos func_len ↦
          if ltb func_len 1 || leb func_size func_len
          then none
          else some (n.0, take func_len (drop (suc n.1) line))
    ]

-- The frame number and the function of a line of `line_len` bytes at the front of `line`, if it is
-- a frame.
unfoldable pub parse_line : Text → ℕ → Option (ℕ × Text)
parse_line line line_len = accept_line line line_len (strtoull line)

abbrev pub new_entry : ℕ → Text → FuncEntry
new_entry addr func = record {
  addr = addr;
  func = c_str (snprintf func_size func);
  count_excl = 0;
  count_incl = 0;
  total_count_excl = 0;
  total_count_incl = 0;
  percent_excl = record { num = 0; den = 0 };
}

-- `func_el->count_excl += 1` for the innermost frame, and `func_el->count_incl += 1`.
unfoldable pub bump : ℕ → ℕ → FuncEntry → FuncEntry
bump frame_num addr e =
    if e.addr == addr
    then record e {
      count_excl = if frame_num == 0 then add_u64 e.count_excl 1 else e.count_excl;
      count_incl = add_u64 e.count_incl 1;
    }
    else e

-- `return`, -1, 0 or 1: the larger counts come first.
unfoldable pub func_list_compare : FuncEntry → FuncEntry → ℤ
func_list_compare fa fb =
    if fb.count_excl == fa.count_excl
    then (if fb.count_incl == fa.count_incl
        then (if fb.total_count_excl == fa.total_count_excl
            then (if fb.total_count_incl == fa.total_count_incl
                then pos 0
                else (if ltb fa.total_count_incl fb.total_count_incl then pos 1 else negsuc 0))
            else (if ltb fa.total_count_excl fb.total_count_excl then pos 1 else negsuc 0))
        else (if ltb fa.count_incl fb.count_incl then pos 1 else negsuc 0))
    else (if ltb fa.count_excl fb.count_excl then pos 1 else negsuc 0)

-- The totals and the percentage of an entry.
unfoldable pub settle : ℕ → FuncEntry → FuncEntry
settle samp_count e = record e {
  total_count_excl = add_u64 e.total_count_excl e.count_excl;
  total_count_incl = add_u64 e.total_count_incl e.count_incl;
  percent_excl = record { num = if ltb samp_count 1 then 0 else e.count_excl; den = samp_count };
}

-- What `display` does before it draws. `qsort` is the C library's.
unfoldable pub settle_all :
    ((FuncEntry → FuncEntry → ℤ) → List FuncEntry → List FuncEntry)
    → ℕ
    → List FuncEntry
    → List FuncEntry
settle_all qsort samp_count [] = []
settle_all qsort samp_count (e ∷ es) = map (settle samp_count) (qsort func_list_compare (e ∷ es))

abbrev pub reset : FuncEntry → FuncEntry
reset e = record e { count_excl = 0; count_incl = 0 }

-- A line of the screen.
pub data Row : Type 0 where
  args : Text → Row
  counts : (samp_count err_count func_count : ℕ) → Row
  columns : Row
  entry : FuncEntry → Row

-- The entries that are drawn at the lines `y`, `y + 1`, ... below `h`.
unfoldable pub draw : ℕ → ℕ → List FuncEntry → List (ℕ × Row)
draw h y [] = []
draw h y (e ∷ es) = let rest = draw h (suc y) es in if ltb y h then (y, entry e) ∷ rest else []

pub data TbEvent : Type 0 where
  key : (ch : ℕ) → TbEvent
  other : TbEvent

-- `strncmp (arg, prefix, length prefix) == 0`
unfoldable pub starts_with : Text → Text → Bool
starts_with [] arg = true
starts_with (c ∷ prefix) [] = false
starts_with (c ∷ prefix) (d ∷ arg) = (c == d) && starts_with prefix arg

-- The options that redirect the output.
unfoldable pub is_output : Text → Bool
unfolding starts_with
is_output arg = starts_with (codes "-o") arg || starts_with (codes "--output") arg

-- The options that choose another form of output.
unfoldable pub is_mode : Text → Bool
unfolding starts_with
is_mode arg =
    starts_with (codes "-1") arg
    || starts_with (codes "--single-line") arg
    || starts_with (codes "-t") arg
    || starts_with (codes "--top") arg

-- `arg[1] = c; arg[2] = 0`
abbrev pub disable : ℕ → Text → Text
disable c arg = take 1 arg ++ (c ∷ [])

unfoldable pub filter_child_arg : Text → Text
filter_child_arg arg =
    let arg = if is_output arg then disable b'#' arg else arg in
    if is_mode arg then disable b'@' arg else arg

unfoldable pub filter_child_args : List Text → List Text
filter_child_args argv = map filter_child_arg argv

-- The loop of `read_child_err`: how many newlines it counts among the `read_rv` bytes that follow
-- `buf_pos`. The position of a newline is counted from the front of `buf`, as in the source.
unfoldable pub count_errs : ℕ → Text → ℕ → ℕ → ℕ
count_errs zero buf buf_pos read_rv = 0
count_errs (suc fuel) buf buf_pos read_rv = elim (memchr b'\n' (take read_rv (drop buf_pos buf))) [
  | none ↦ 0
  | some i ↦
      let nl = buf_pos + i in suc (count_errs fuel buf (buf_pos + (nl + 1)) (read_rv - (nl + 1)))
]

module _ (hash : Uthash) where
  -- The globals of top.c, and `done`. `buf` is the first `buf_len` bytes of the source's array.
  pub record Top : Type 0 where
    pub func_map : hash.Table ℕ
    pub func_list : List FuncEntry
    pub func_list_size : ℕ
    pub buf : Text
    pub total_samp_count : ℕ
    pub samp_count : ℕ
    pub total_err_count : ℕ
    pub is_paused : Bool
    pub done : Bool
    pub phpspy_args : Text

  abbrev pub init : Text → Top
  init command = record {
    func_map = hash.empty ℕ;
    func_list = [];
    func_list_size = 0;
    buf = [];
    total_samp_count = 0;
    samp_count = 0;
    total_err_count = 0;
    is_paused = false;
    done = false;
    phpspy_args = command;
  }

  -- What HASH_FIND has found, or a new entry: the address of the entry that is counted.
  unfoldable pub entry_of : Text → Option ℕ → Top → ℕ × Top
  entry_of func (some addr) s = (addr, s)
  entry_of func none s =
      let el = new_entry (length s.func_list) func in
      (
        el.addr,
        record s {
          func_map = hash.put ℕ el.func el.addr s.func_map;
          func_list_size =
              if ltb s.func_list_size (suc (length s.func_list))
              then s.func_list_size + 1024
              else s.func_list_size;
          func_list = s.func_list ++ (el ∷ []);
        },
      )

  unfoldable pub intern : Text → Top → ℕ × Top
  intern func s = entry_of func (hash.find ℕ func s.func_map) s

  unfoldable pub bump_all : ℕ → ℕ × Top → Top
  bump_all frame_num (addr, s) = record s {
    samp_count = if frame_num == 0 then add_u64 s.samp_count 1 else s.samp_count;
    func_list = map (bump frame_num addr) s.func_list;
  }

  unfoldable pub count_frame : ℕ → Text → Top → Top
  count_frame frame_num func s = bump_all frame_num (intern func s)

  unfoldable pub accept : Option (ℕ × Text) → Top → Top
  accept none s = s
  accept (some (frame_num, func)) s = count_frame frame_num func s

  unfoldable pub handle_line : Text → ℕ → Top → Top
  handle_line line line_len s = accept (parse_line line line_len) s

  -- The line up to the newline at `line_len` is handled and moved out of the buffer.
  unfoldable pub next_line : ℕ → Top → Top
  next_line line_len s =
      let t = handle_line s.buf line_len s in record t { buf = drop (suc line_len) t.buf }

  -- The loop of `read_child_out` over the newlines in the buffer. Each round drops a byte at least,
  -- so that as much fuel as bytes is enough.
  unfoldable pub handle_lines : ℕ → Top → Top
  handle_lines zero s = s
  handle_lines (suc fuel) s = elim (memchr b'\n' s.buf) [
    | none ↦ s
    | some line_len ↦ handle_lines fuel (next_line line_len s)
  ]

  -- How many bytes `read_child_out` asks for: a full buffer is emptied.
  unfoldable pub make_room : Top → Top
  make_room s = if ltb (buf_size - length s.buf) 1 then record s { buf = [] } else s

  -- `read` has failed, has reached the end of the pipe, or has returned bytes.
  unfoldable pub read_child_out : Option Text → Top → Top
  read_child_out none s = make_room s
  read_child_out (some []) s = record (make_room s) { done = true }
  read_child_out (some (c ∷ bytes)) s =
      let r = make_room s in
      let t = record r { buf = r.buf ++ (c ∷ bytes) } in handle_lines (length t.buf) t

  unfoldable pub read_child_err : Option Text → Top → Top
  read_child_err none s = s
  read_child_err (some []) s = record s { done = true }
  read_child_err (some (c ∷ bytes)) s =
      let buf = c ∷ bytes in
      record s {
        total_err_count =
            add_u64 s.total_err_count (count_errs (length buf) buf 0 (length buf) % 2 ^ 64);
      }

  unfoldable pub handle_event : TbEvent → Top → Top
  handle_event other s = s
  handle_event (key ch) s =
      if ch == b'q'
      then record s { done = true }
      else if ch == b'p'
      then record s { is_paused = not s.is_paused }
      else s

  -- The rows drawn and the state after.
  unfoldable pub display :
      ((FuncEntry → FuncEntry → ℤ) → List FuncEntry → List FuncEntry)
      → ℕ
      → Top
      → List (ℕ × Row) × Top
  display qsort h s =
      let sorted = settle_all qsort s.samp_count s.func_list in
      let total = add_u64 s.total_samp_count s.samp_count in
      (
        (0, args s.phpspy_args)
            ∷ (1, counts total s.total_err_count (length s.func_list))
            ∷ (3, columns)
            ∷ draw h 4 sorted,
        record s { func_list = map reset sorted; total_samp_count = total; samp_count = 0 },
      )
