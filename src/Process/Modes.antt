-- ===== src/Process/Modes.antt =====
-- The tests of `main` and of `main_top` for what is to be traced.
use phpspy.Prelude.{◌≡◌, ◌↔◌, Bool, true, false, arith}
use phpspy.Options.{Options}
use phpspy.Process.{Mode, main, refuses_top}

-- `main_top` refuses to start if and only if phpspy with the same arguments and without top mode
-- would find nothing to trace.
refuses_top-usage :
    (o : Options) (rest : Bool)
    → (refuses_top o rest ≡ true) ↔ (main (record o { top_mode = false }) rest ≡ Mode.usage)
unfolding refuses_top main
refuses_top-usage o rest = ground arith
