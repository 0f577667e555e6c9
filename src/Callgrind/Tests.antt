-- ===== src/Callgrind/Tests.antt =====
-- Traces digested, and the theorem about the costs of a run at two of them.
use phpspy.Prelude.{◌%◌, ◌^◌, ◌≡◌, refl, true, List, none, some, drop, [], ◌∷◌, ◌++◌}
use phpspy.Prelude.Int.{pos}
use phpspy.Prelude.Text.{Text, codes, text_eq, decimal, decimal_ℤ, digits_onto, c_str, snprintf}
use phpspy.Prelude.Uthash.{assoc_lists}
use phpspy.Callgrind.{
  digest_from, digest_frame, charge_caller, charge, get_caller, get_callee, Entry, Udata,
  digest_stack, callgrind_sprint_loc,
}
use phpspy.Callgrind.Dump.{
  written, callgrind_dump, dump_callers, dump_caller, dump_callees, dump_loc,
}
use phpspy.Event.{Event, init, stack_begin, stack_end, deinit, frame}
use phpspy.Callgrind.Runs.{
  stacks_of, entries, all_on_top, all_calls, handle_events, handle_events_lem,
}
use phpspy.Fout.Events.{sprint_loc}
use phpspy.Callgrind.Digest.{callee_of, calls, on_top, exclusive_of, inclusive_of}

abbrev entry : Text → Entry
entry name = record {
  loc_str = name;
  loc = record { func = name; class = []; file = codes "a.php"; lineno = pos 1 };
}

-- `main` calls `f`, which is on top.
abbrev first : Udata assoc_lists
first = record { self = entry (codes "f") ∷ entry (codes "main") ∷ []; prev_str = []; callers = [] }

digest_stack-first :
    (exclusive_of assoc_lists (codes "f") (digest_stack assoc_lists first) ≡ 1)
    × (exclusive_of assoc_lists (codes "main") (digest_stack assoc_lists first) ≡ 0)
    × (inclusive_of assoc_lists (codes "main") (codes "f") (digest_stack assoc_lists first) ≡ 1)
unfolding digest_stack digest_from digest_frame charge_caller charge get_caller get_callee
    exclusive_of inclusive_of text_eq callee_of
digest_stack-first = (refl, refl, refl)

abbrev called : Text → Event
called name = frame (record { loc = (entry name).loc; depth = 0 })

-- Two traces, of `main` calling `f` and of `main` alone.
abbrev two_traces : List Event
two_traces =
    stack_begin
    ∷ called (codes "f")
    ∷ called (codes "main")
    ∷ stack_end
    ∷ stack_begin
    ∷ called (codes "main")
    ∷ stack_end
    ∷ []

abbrev f_loc : Text
f_loc = codes "f a.php:1"

abbrev main_loc : Text
main_loc = codes "main a.php:1"

all_on_top_test :
    (all_on_top main_loc (stacks_of [] two_traces) ≡ 1)
    × (all_calls main_loc f_loc (stacks_of [] two_traces) ≡ 1)
unfolding all_on_top all_calls stacks_of entries on_top calls callgrind_sprint_loc sprint_loc
    text_eq snprintf decimal decimal_ℤ digits_onto c_str
all_on_top_test = (refl, refl)

handle_events_lem_example :
    (u : Udata assoc_lists) × (handle_events assoc_lists true none (init ∷ two_traces) ≡ some u)
    × (exclusive_of assoc_lists main_loc u.callers
        ≡ all_on_top main_loc (stacks_of [] two_traces) % 2 ^ 64)
    × (inclusive_of assoc_lists main_loc f_loc u.callers
        ≡ all_calls main_loc f_loc (stacks_of [] two_traces) % 2 ^ 64)
handle_events_lem_example =
    handle_events_lem assoc_lists two_traces main_loc f_loc
      (refl, (refl, (refl, (refl, (refl, (refl, (refl, tt)))))))

-- One caller without callees.
abbrev one_caller : Udata assoc_lists
one_caller = record {
  self = [];
  prev_str = [];
  callers = (codes "f", record { loc = (entry (codes "f")).loc; exclusive = 2; callees = [] }) ∷ [];
}

written_test :
    drop 63 (written assoc_lists (λ A compare items. items) (some one_caller) deinit)
    ≡ codes "fl=a.php" ++ (b'\n' ∷ (codes "fn=f" ++ (b'\n' ∷ (codes "1 2" ++ (b'\n' ∷ [])))))
unfolding written callgrind_dump dump_callers dump_caller dump_callees dump_loc decimal decimal_ℤ
    digits_onto c_str
written_test = refl
