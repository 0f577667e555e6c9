-- ===== src/Fout/Records.antt =====
-- The buffer as a list of records: an event adds its records whole or not at all.
use phpspy.Prelude.{
  ℕ, suc, ◌+◌, ◌-◌, ◌≤◌, ◌<◌, ◌≡◌, inl, inr, refl, sym, ap, ◌∙◌, ltb, leb, if◌then◌else◌, Bool,
  true, false, Option, some, List, [], ◌∷◌, ◌++◌, map, arith, length, take, Bool-cases,
  Option-cases, length-append,
}
use phpspy.Prelude.Text.{Text}
use mathlib.Core.Path.{subst}
use mathlib.Core.List.{append_assoc, append-nil}
use phpspy.Options.{Options}
use phpspy.Fout.Sys.{Env}
use phpspy.Fout.Buffer.{
  Udata, max_buffer, whole_records, fout_realloc, fout_truncate, strip_delims, fout_snprintf,
}
use phpspy.Fout.Events.{fout_record, fout_records}
use phpspy.Fout.Growth.{IsGrown, fout_realloc_lem}
use phpspy.Fout.Strip.{IsDelims, length-strip_delims, has_frame-strip_delims}
use phpspy.Fout.Whole.{IsRecords, whole_records-append, IsRecords-snoc}
use phpspy.Fout.Reassembly.{joined}

-- The invariant of the buffer: room for the NUL within a capacity within the limit, and whole
-- records only.
pub record IsValid (o : Options) (u : Udata) : Type 0 where
  pub room : length u.buf < u.cap
  pub bounded : u.cap ≤ max_buffer
  pub records : IsRecords o.frame_delim u.buf

-- The bytes of a record in the buffer.
abbrev pub record_bytes : Options → Text → Text
record_bytes o t = strip_delims o t ++ (o.frame_delim ∷ [])

-- What one append does to a buffer that is not truncated.
data Append (o : Options) (u : Udata) (a : Text) (u' : Udata) : Type 0 where
  appended :
      (c : ℕ)
      → u' ≡ record u { cap = c; buf = u.buf ++ a }
      → length u.buf + length a < c
      → c ≤ max_buffer
      → Append o u a u'
  cut : u' ≡ fout_truncate o u → Append o u a u'

fout_snprintf-Append :
    (o : Options) (e : Env) (u : Udata) (strip : Bool) (t : Text)
    → u.truncated ≡ false
    → length u.buf < u.cap
    → u.cap ≤ max_buffer
    → Append o u (if strip then strip_delims o t else t) (fout_snprintf o e u strip (some t))
unfolding fout_snprintf
fout_snprintf-Append o e u strip t open_ room bounded =
    elim (Bool-cases (leb (u.cap - length u.buf) (length t))) [
      | inl full ↦ elim (Option-cases (fout_realloc e u (length u.buf + length t + 1))) [
        | inl failed ↦ cut (ground arith)
        | inr (u', grown) ↦
            let (same, enough, le, small, tight) =
              subst (IsGrown e u (length u.buf + length t + 1)) grown
                (fout_realloc_lem e u (length u.buf + length t + 1) (omega arith) bounded) in
            appended u'.cap (ground arith) (ground (arith, length-strip_delims o t)) small
      ]
      | inr fits ↦ appended u.cap (ground arith) (ground (arith, length-strip_delims o t)) bounded
    ]

-- A truncated buffer takes nothing more.
fout_snprintf-truncated :
    (o : Options) (e : Env) (u : Udata) (strip : Bool) (t : Option Text)
    → u.truncated ≡ true
    → fout_snprintf o e u strip t ≡ u
unfolding fout_snprintf
fout_snprintf-truncated o e u strip t h = rw h

-- What the two calls for a record do to a buffer that is not truncated.
data Recorded (o : Options) (u : Udata) (t : Text) (u' : Udata) : Type 0 where
  added : u'.truncated ≡ false → u'.buf ≡ u.buf ++ record_bytes o t → Recorded o u t u'
  dropped : u'.truncated ≡ true → u'.buf ≡ u.buf → Recorded o u t u'

record Step (o : Options) (u : Udata) (t : Text) (u' : Udata) : Type 0 where
  valid : IsValid o u'
  outcome : Recorded o u t u'

Step-delim :
    (o : Options) (u u1 u2 : Udata) (t : Text)
    → IsDelims o
    → IsValid o u
    → u.truncated ≡ false
    → u1.truncated ≡ false
    → u1.buf ≡ u.buf ++ strip_delims o t
    → length u1.buf < u1.cap
    → u1.cap ≤ max_buffer
    → Append o u1 (o.frame_delim ∷ []) u2
    → Step o u t u2
unfolding fout_truncate
Step-delim o u u1 u2 t d v h h1 e1 room1 bounded1 (appended c e2 room2 bounded2) = record {
  valid = record {
    room = ground (arith, length-append u1.buf (o.frame_delim ∷ []));
    bounded = ground arith;
    records =
        subst (IsRecords o.frame_delim) (sym (ap (λ (w : Udata). w.buf) e2))
          (IsRecords-snoc o.frame_delim u1.buf);
  };
  outcome =
      added (ground arith)
        (ground (arith, append_assoc u.buf (strip_delims o t) (o.frame_delim ∷ [])));
}
Step-delim o u u1 u2 t d v h h1 e1 room1 bounded1 (cut e2) =
    let back : u2.buf ≡ u.buf =
      ap (λ (w : Udata). w.buf) e2
      ∙ ap (whole_records o.frame_delim) e1
      ∙ whole_records-append o.frame_delim u.buf (strip_delims o t) v.records
          (has_frame-strip_delims o t d) in
    record {
      valid = record {
        room =
            ground (arith, v.room, ap (length {A = ℕ}) e1, length-append u.buf (strip_delims o t));
        bounded = ground arith;
        records = subst (IsRecords o.frame_delim) (sym back) v.records;
      };
      outcome = dropped (ground arith) back;
    }

Step-cut :
    (o : Options) (u u1 : Udata) (t : Text) → IsValid o u → u1 ≡ fout_truncate o u → Step o u t u1
unfolding fout_truncate
Step-cut o u u1 t v e1 =
    let back : u1.buf ≡ u.buf = ap (λ (w : Udata). w.buf) e1 ∙ v.records in
    record {
      valid = record {
        room = ground (arith, v.room, back);
        bounded = ground (arith, v.bounded);
        records = subst (IsRecords o.frame_delim) (sym back) v.records;
      };
      outcome = dropped (ap (λ (w : Udata). w.truncated) e1) back;
    }

fout_record-Step :
    (o : Options) (e : Env) (u : Udata) (t : Text)
    → IsDelims o
    → IsValid o u
    → u.truncated ≡ false
    → Step o u t (fout_record o e u t)
unfolding fout_record fout_truncate
fout_record-Step o e u t d v h =
    first (fout_snprintf o e u true (some t)) (fout_snprintf-Append o e u true t h v.room v.bounded)
  where
    first :
        (u1 : Udata)
        → Append o u (strip_delims o t) u1
        → Step o u t (fout_snprintf o e u1 false (some (o.frame_delim ∷ [])))
    first u1 (appended c e1 room1 bounded1) =
        let open1 : u1.truncated ≡ false = ground arith in
        let room : length u1.buf < u1.cap =
          ground (arith, length-append u.buf (strip_delims o t)) in
        let bounded : u1.cap ≤ max_buffer = ground arith in
        Step-delim o u u1 _ t d v h open1 (ap (λ (w : Udata). w.buf) e1) room bounded
          (fout_snprintf-Append o e u1 false (o.frame_delim ∷ []) open1 room bounded)
    first u1 (cut e1) =
        subst (Step o u t)
          (sym (fout_snprintf-truncated o e u1 false _ (ap (λ (w : Udata). w.truncated) e1)))
          (Step-cut o u u1 t v e1)

pub fout_records-truncated :
    (o : Options) (e : Env) (u : Udata) (ts : List Text)
    → u.truncated ≡ true
    → fout_records o e u ts ≡ u
unfolding fout_records fout_record
fout_records-truncated o e u [] h = refl
fout_records-truncated o e u (t ∷ ts) h =
    rw
      (
        fout_snprintf-truncated o e u true (some t) h,
        fout_snprintf-truncated o e u false (some (o.frame_delim ∷ [])) h,
      )
      (fout_records-truncated o e u ts h)

-- The buffer after printing the texts: the first `kept` of them have been added.
pub record Kept (o : Options) (u : Udata) (ts : List Text) (u' : Udata) : Type 0 where
  pub kept : ℕ
  pub within : kept ≤ length ts
  pub bytes : u'.buf ≡ u.buf ++ joined (map (record_bytes o) (take kept ts))
  pub full : u'.truncated ≡ ltb kept (length ts)
  pub valid : IsValid o u'

-- On a valid buffer that is not truncated, printing a list of texts adds the records of its first
-- `kept` texts, each stripped and ended by the frame delimiter, and no part of another. The buffer
-- is valid after it, and is marked truncated exactly if a record was dropped.
pub fout_records-Kept :
    (o : Options) (e : Env) (u : Udata) (ts : List Text)
    → IsDelims o
    → IsValid o u
    → u.truncated ≡ false
    → Kept o u ts (fout_records o e u ts)
unfolding fout_records
fout_records-Kept o e u [] d v h = record {
  kept = 0;
  within = omega arith;
  bytes = sym (append-nil u.buf);
  full = h;
  valid = v;
}
fout_records-Kept o e u (t ∷ ts) d v h =
    next (fout_record o e u t) (fout_record-Step o e u t d v h)
      (λ u1. fout_records-Kept o e u1 ts d)
  where
    next :
        (u1 : Udata)
        → Step o u t u1
        → ((u1 : Udata)
            → IsValid o u1
            → u1.truncated ≡ false
            → Kept o u1 ts (fout_records o e u1 ts))
        → Kept o u (t ∷ ts) (fout_records o e u1 ts)
    next u1 st ih = later st.outcome
      where
        later : Recorded o u t u1 → Kept o u (t ∷ ts) (fout_records o e u1 ts)
        later (added open_ bytes) =
            let r = ih u1 st.valid open_ in
            record {
              kept = suc r.kept;
              within = omega (arith, r.within);
              bytes =
                  r.bytes
                  ∙ (ap (λ b. b ++ joined (map (record_bytes o) (take r.kept ts))) bytes
                      ∙ append_assoc u.buf (record_bytes o t)
                          (joined (map (record_bytes o) (take r.kept ts))));
              full = ground (arith, r.full);
              valid = r.valid;
            }
        later (dropped shut bytes) =
            subst (Kept o u (t ∷ ts)) (sym (fout_records-truncated o e u1 ts shut)) (record {
              kept = 0;
              within = omega arith;
              bytes = bytes ∙ sym (append-nil u.buf);
              full = ground arith;
              valid = st.valid;
            })
