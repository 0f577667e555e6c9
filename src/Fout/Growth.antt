-- ===== src/Fout/Growth.antt =====
-- The growth of the buffer and the room in it.
use phpspy.Prelude.{
  ℕ, zero, suc, ◌+◌, ◌*◌, ◌≤◌, ◌<◌, ◌≡◌, ◌⊎◌, inl, inr, ltb, if◌then◌else◌, Bool-cases, dec_lt,
  Option, refl, false, none, some, arith,
}
use phpspy.Fout.Sys.{Env}
use phpspy.Fout.Buffer.{Udata, max_buffer, double_until, realloc_cap, fout_realloc}

double_until-ge :
    (f cap needed : ℕ) → 1 ≤ cap → needed ≤ cap + f → needed ≤ double_until f cap needed
unfolding double_until
double_until-ge zero cap needed one h = omega arith
double_until-ge (suc f) cap needed one h = ground (arith, double_until-ge f (cap * 2) needed)

le-double_until : (f cap needed : ℕ) → cap ≤ double_until f cap needed
unfolding double_until
le-double_until zero cap needed = omega arith
le-double_until (suc f) cap needed = ground (arith, le-double_until f (cap * 2) needed)

double_until-stop : (f cap needed : ℕ) → needed ≤ cap → double_until f cap needed ≡ cap
unfolding double_until
double_until-stop zero cap needed h = refl
double_until-stop (suc f) cap needed h = ground arith

-- It stops at the first power: what is not kept is less than twice what is needed.
double_until-lt : (f cap needed : ℕ) → cap < needed → double_until f cap needed < 2 * needed
unfolding double_until
double_until-lt zero cap needed h = omega arith
double_until-lt (suc f) cap needed h =
    ground (arith, double_until-lt f (cap * 2) needed, double_until-stop f (cap * 2) needed)

-- What asking for a capacity comes to: only the capacity changes, to one that holds what is needed,
-- is not smaller and keeps to the limit, and is less than twice the need if it has grown. A failure
-- is a need beyond the limit, or a size that `realloc` does not find.
abbrev pub IsGrown : Env → Udata → ℕ → Option Udata → Type 0
IsGrown e u needed none = (max_buffer < needed) ⊎ ((size : ℕ) × (e.realloc_ok size ≡ false))
IsGrown e u needed (some u') =
    (u' ≡ record u { cap = u'.cap })
    × (needed ≤ u'.cap)
    × (u.cap ≤ u'.cap)
    × (u'.cap ≤ max_buffer)
    × ((u'.cap ≡ u.cap) ⊎ (u'.cap < 2 * needed))

-- From a capacity between one byte and the limit, `event_handler_fout_realloc` changes only the
-- capacity, to one that holds what is needed, is not smaller than before, keeps to the limit, and
-- is less than twice the need if it has grown. It fails only if the need is beyond the limit or
-- `realloc` does not find the memory.
pub fout_realloc_lem :
    (e : Env) (u : Udata) (needed : ℕ)
    → 1 ≤ u.cap
    → u.cap ≤ max_buffer
    → IsGrown e u needed (fout_realloc e u needed)
unfolding fout_realloc realloc_cap
fout_realloc_lem e u needed one small = elim (Bool-cases (ltb max_buffer needed)) [
  | inl over ↦ rw (over, IsGrown) (inl (ground arith))
  | inr fits ↦
      let grown = double_until needed u.cap needed in
      let new_cap = if ltb max_buffer grown then max_buffer else grown in
      elim (Bool-cases (e.realloc_ok new_cap)) [
        | inl found ↦
            rw (fits, found, IsGrown)
              ((
                refl,
                ground (arith, double_until-ge needed u.cap needed),
                ground (arith, le-double_until needed u.cap needed),
                ground arith,
                capped (double_until-lt needed u.cap needed)
                    (double_until-stop needed u.cap needed),
              ))
        | inr refused ↦ rw (fits, refused, IsGrown) (inr (new_cap, refused))
      ]
]
  where
    capped :
        (u.cap < needed → double_until needed u.cap needed < 2 * needed)
        → (needed ≤ u.cap → double_until needed u.cap needed ≡ u.cap)
        → (let grown = double_until needed u.cap needed in
            let new_cap = if ltb max_buffer grown then max_buffer else grown in
            (new_cap ≡ u.cap) ⊎ (new_cap < 2 * needed))
    capped lt stop = elim (dec_lt u.cap needed) [
      | yes below ↦ inr (ground (arith, lt below))
      | no above ↦ inl (ground (arith, stop (omega arith)))
    ]
