-- ===== src/Top/TraceTests.antt =====
-- One frame, from the output handler to the rows of top mode, in two reads.
use phpspy.Prelude.{
  ◌+◌, ◌%◌, ◌^◌, ◌≡◌, refl, sym, true, false, some, List, [], ◌∷◌, ◌++◌, map, arith, length,
}
use phpspy.Prelude.Text.{Text, codes, decimal, decimal_ℤ, digits_onto, c_str}
use phpspy.Prelude.Int.{pos}
use phpspy.Prelude.Bytes.{memchr}
use phpspy.Prelude.Uthash.{assoc_lists}
use phpspy.Options.{defaults}
use phpspy.Event.{Frame}
use phpspy.Fout.Sys.{Env}
use phpspy.Fout.Buffer.{Udata, fout_snprintf, strip_delims, strip_round}
use phpspy.Fout.Events.{frame_text, sprint_loc, fout_record, fout_records}
use phpspy.Fout.Whole.{IsRecords-nil}
use phpspy.Fout.Records.{IsValid}
use phpspy.Top.{Top, init, handle_lines, make_room, read_child_out}
use phpspy.Top.Stream.{read_chunks, AreReads}
use phpspy.Top.Totals.{sum, IsCounted}
use phpspy.Top.Frames.{inclusive}
use phpspy.Top.Traces.{IsPlain, count, read_chunks-fout_records}

abbrev env : Env
env = record {
  realloc_ok = λ size. true;
  writev = λ k bytes. some (length bytes);
  regexec = λ re t. true;
  open_fd = some 1;
  timestamp = codes "1.5";
}

abbrev udata : Udata
udata = record {
  fd = 1;
  buf = [];
  cap = 256;
  use_mutex = false;
  truncated = false;
  trunc_marker = [];
  trace_id_tail = [];
}

udata-IsValid : IsValid defaults udata
udata-IsValid = record { room = omega arith; bounded = omega arith; records = IsRecords-nil 10 }

abbrev start : Top assoc_lists
start = init assoc_lists (codes "phpspy -p 1 ")

start-IsCounted : IsCounted assoc_lists start
start-IsCounted = record {
  entry_at = λ a. ground arith;
  found = λ func a e. absurd (ground arith);
  named = λ func a e. refl;
  balanced = refl;
  room = omega arith;
}

-- 0 C::f a.php:7
abbrev leaf : Frame
leaf = record {
  depth = 0;
  loc = record { func = codes "f"; class = codes "C"; file = codes "a.php"; lineno = pos 7 };
}

leaf-IsPlain : IsPlain leaf
unfolding frame_text sprint_loc decimal_ℤ decimal digits_onto c_str
leaf-IsPlain = record { depth_lem = omega arith; short = omega arith; one_line = refl }

abbrev chunks : List Text
chunks = codes "0 C::" ∷ (codes "f a.php:7" ++ (b'\n' ∷ b'\n' ∷ [])) ∷ []

chunks-AreReads : AreReads assoc_lists chunks start
unfolding AreReads read_child_out make_room handle_lines memchr
chunks-AreReads = (omega arith, omega arith, (omega arith, omega arith, tt))

abbrev printed : Udata
printed = fout_records defaults env udata (map frame_text (leaf ∷ []))

printed_lem :
    (printed.truncated ≡ false)
    × (printed.buf ++ (b'\n' ∷ []) ≡ codes "0 C::" ++ (codes "f a.php:7" ++ (b'\n' ∷ b'\n' ∷ [])))
unfolding fout_records fout_record fout_snprintf strip_delims strip_round frame_text sprint_loc
    decimal_ℤ decimal digits_onto c_str
printed_lem = (refl, refl)

read_chunks-fout_records_example :
    sum (inclusive (codes "C::f a.php:7")) (read_chunks assoc_lists chunks start).func_list % 2 ^ 64
    ≡ (0 + count (codes "C::f a.php:7") (leaf ∷ [])) % 2 ^ 64
read_chunks-fout_records_example =
    read_chunks-fout_records assoc_lists defaults env udata (leaf ∷ []) chunks
      (codes "C::f a.php:7") start refl refl udata-IsValid refl refl printed_lem.0
      (leaf-IsPlain, tt) start-IsCounted refl chunks-AreReads (sym printed_lem.1)
