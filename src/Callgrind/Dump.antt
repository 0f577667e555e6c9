-- ===== src/Callgrind/Dump.antt =====
-- `callgrind_dump`: the file that the handler leaves, as its bytes. HASH_SORT of vendor/uthash.h is a
-- parameter, which sorts the items of a table by a comparison.
use phpspy.Prelude.{
  ℕ, ◌-◌, ◌^◌, ltb, ◌==◌, if◌then◌else◌, Option, none, some, List, length, [], ◌∷◌, ◌++◌,
}
use phpspy.Prelude.Int.{ℤ, pos, negsuc}
use phpspy.Prelude.Text.{Text, codes, c_str, decimal, decimal_ℤ}
use phpspy.Prelude.Uthash.{Uthash}
use phpspy.Event.{Loc, Event, deinit}
use phpspy.Callgrind.{Callee, Caller, Udata}

-- `strcmp`
unfoldable pub strcmp : Text → Text → ℤ
strcmp [] [] = pos 0
strcmp [] (d ∷ t) = negsuc 0
strcmp (c ∷ s) [] = pos 1
strcmp (c ∷ s) (d ∷ t) =
    let rest = strcmp s t in if c == d then rest else if ltb c d then negsuc 0 else pos 1

-- `callgrind_sort_callers` and `callgrind_sort_callees`, on items with their `loc_str`.
unfoldable pub sort_by_loc : {A : Type 0} → Text × A → Text × A → ℤ
unfolding strcmp
sort_by_loc a b = strcmp a.0 b.0

-- `%ld` of a `uint64_t`.
abbrev pub decimal_ld : ℕ → Text
decimal_ld n = if ltb n (2 ^ 63) then decimal n else decimal_ℤ (negsuc (2 ^ 64 - n - 1))

abbrev pub line : Text → Text
line t = t ++ (b'\n' ∷ [])

-- The file and the function of a location behind `fl=` and `fn=`, or `cfl=` and `cfn=`.
unfoldable pub dump_loc : Text → Loc → Text
dump_loc prefix l =
    line (prefix ++ (codes "fl=" ++ c_str l.file))
    ++ line (
        prefix
        ++ (codes "fn="
            ++ (c_str l.class
                ++ ((if ltb 0 (length l.class) then codes "::" else []) ++ c_str l.func))))

unfoldable pub dump_callee : Loc → Text × Callee → Text
unfolding dump_loc
dump_callee caller (loc_str, c) =
    line []
    ++ (dump_loc (codes "c") c.loc
        ++ (line (codes "calls=" ++ (decimal_ld c.count ++ (b' ' ∷ decimal_ℤ c.loc.lineno)))
            ++ line (decimal_ℤ caller.lineno ++ (b' ' ∷ decimal_ld c.inclusive))))

unfoldable pub dump_callees : Loc → List (Text × Callee) → Text
dump_callees caller [] = []
dump_callees caller (c ∷ cs) = dump_callee caller c ++ dump_callees caller cs

module _ (h : Uthash) (sort : (A : Type 0) → (A → A → ℤ) → List A → List A) where
  unfoldable pub dump_caller : Text × Caller h → Text
  unfolding dump_loc sort_by_loc
  dump_caller (loc_str, c) =
      line []
      ++ (dump_loc [] c.loc
          ++ (line (decimal_ℤ c.loc.lineno ++ (b' ' ∷ decimal_ld c.exclusive))
              ++ dump_callees c.loc (sort (Text × Callee) sort_by_loc (h.items Callee c.callees))))

  unfoldable pub dump_callers : List (Text × Caller h) → Text
  dump_callers [] = []
  dump_callers (c ∷ cs) = dump_caller c ++ dump_callers cs

  unfoldable pub callgrind_dump : Udata h → Text
  unfolding sort_by_loc
  callgrind_dump u =
      line (codes "# callgrind format")
      ++ (line (codes "version: 1")
          ++ (line (codes "creator: phpspy")
              ++ (line (codes "events: Samples")
                  ++ dump_callers
                      (sort (Text × Caller h) sort_by_loc (h.items (Caller h) u.callers)))))

  -- What `event_handler_callgrind` writes for an event: the costs, when the tracer ends.
  unfoldable pub written : Option (Udata h) → Event → Text
  unfolding callgrind_dump
  written (some u) deinit = callgrind_dump u
  written (some u) ev = []
  written none ev = []
