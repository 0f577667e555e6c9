-- ===== src/Spy/Protocol.antt =====
-- The order of the events of `main_pid` as a whole, with the traces of phpspy_trace.c.
use phpspy.Prelude.{◌≡◌, ◌⊎◌, Bool, true, false, Option, none, some, List}
use phpspy.Options.{Options}
use phpspy.Status.{Status}
use phpspy.Event.{Event}
use phpspy.Trace.Protocol.{off, on, follows, IsReady}
use phpspy.Spy.{Spy, Left, has_left}

-- The events of a run, the first from no handler on: in order, and closed again if the loop is left.
abbrev pub IsOrderedLoop : Bool → List Event → Type 0
IsOrderedLoop true es = follows off es ≡ some off
IsOrderedLoop false es = IsReady es

abbrev pub IsOrdered : Option Left → List Event → Type 0
IsOrdered none es = (follows off es ≡ some off) ⊎ (follows off es ≡ some on)
IsOrdered (some l) es = IsOrderedLoop (has_left l) es
