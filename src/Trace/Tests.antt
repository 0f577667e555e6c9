-- ===== src/Trace/Tests.antt =====
-- A stack of four frames in a concrete memory, walked with and without a limit from the root.
use phpspy.Prelude.{◌-◌, ◌/◌, ◌≡◌, refl, ◌==◌, if◌then◌else◌, true, [], ◌∷◌, arith, set, replicate}
use phpspy.Prelude.Int.{pos, negsuc}
use phpspy.Options.{Options, defaults}
use phpspy.Status.{ok}
use phpspy.Zend.Layout.{x86_64_74}
use phpspy.Zend.Remote.{bytes, Target}
use phpspy.Trace.{Env, Context, ◌>>=◌, read, return}
use phpspy.Trace.Stack.{max_stack_walk, trace_from_root, trace_stack}
use phpspy.Trace.Emits.{frame_depths}
use phpspy.Trace.Elision.{IsElided, trace_from_root-IsElided}
use phpspy.Trace.Walk.{IsWalk, trace_stack-IsWalk}

-- The frame number `j`, counted from the outermost one, stands at 256 * j. All frames are of one
-- internal function without a name, at 1.
abbrev process : Target
process = record {
  layout = x86_64_74;
  vm_readv = λ k raddr size. bytes (
      if raddr == 1
      then replicate size 0
      else if size == 8
      then 0 ∷ (raddr / 256 - 1) ∷ replicate 6 0
      else set (set (replicate size 0) 24 1) 49 (raddr / 256 - 1));
  print_double = λ b. [];
  leftover = λ n. 0;
  char_signed = true;
  executor_globals_addr = 0;
  sapi_globals_addr = 0;
  alloc_globals_addr = 0;
}

abbrev pub env_with : Options → Env
env_with o = record {
  target = process;
  options = o;
  varpeek_map = [];
  glopeek_map = [];
  handler = λ sent ev. ok;
  depth = 8;
}

-- `--max-depth 1` from the leaf and 1 from the root.
abbrev both_limits : Env
both_limits =
    env_with
      (record defaults { max_stack_depth_from_leaf = pos 1; max_stack_depth_from_root = pos 1 })

abbrev no_limits : Env
no_limits = env_with defaults

abbrev pub fresh : Context
fresh = record { reads = 0; events = [] }

frames_of_both : frame_depths (trace_from_root both_limits 1 1024 fresh).1.events ≡ 0 ∷ 1 ∷ 3 ∷ []
unfolding frame_depths trace_from_root ◌>>=◌ read return
frames_of_both = refl

trace_from_root-IsElided_example :
    IsElided both_limits 1 1024 fresh (trace_from_root both_limits 1 1024 fresh)
trace_from_root-IsElided_example = trace_from_root-IsElided both_limits 1 1024 fresh (omega arith)

trace_stack-IsWalk_example :
    IsWalk
      (negsuc 0)
      0
      max_stack_walk
      []
      (trace_stack no_limits 1024 fresh).0
      (frame_depths (trace_stack no_limits 1024 fresh).1.events)
unfolding frame_depths
trace_stack-IsWalk_example = trace_stack-IsWalk no_limits 1024 0 fresh refl
