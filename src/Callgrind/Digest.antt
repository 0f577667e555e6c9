-- ===== src/Callgrind/Digest.antt =====
-- The costs that `callgrind_digest_stack` adds up, against the stacks themselves.
use phpspy.Prelude.{
  ℕ, ◌+◌, ◌%◌, ◌^◌, ◌≤◌, ◌<◌, ◌≡◌, inl, inr, refl, ap, ◌∙◌, ◌==◌, if◌then◌else◌, ◌&&◌, Option, none,
  some, List, [], ◌∷◌, arith, Bool-cases,
}
use phpspy.Prelude.Text.{Text, text_eq}
use phpspy.Prelude.Uthash.{Uthash, eq_of_text_eq}
use phpspy.Callgrind.{
  inc, Callee, Entry, Caller, Udata, get_caller, get_callee, charge, charge_caller, digest_frame,
  digest_from, digest_stack,
}

-- How often the frame `k` calls the frame `j` in a stack, innermost frame first.
unfoldable pub calls : Text → Text → List Entry → ℕ
calls k j [] = 0
calls k j (e ∷ []) = 0
calls k j (e ∷ outer ∷ es) =
    (if text_eq outer.loc_str k && text_eq e.loc_str j then 1 else 0) + calls k j (outer ∷ es)

-- How often the innermost frame of a stack is `k`: once or not at all.
unfoldable pub on_top : Text → List Entry → ℕ
on_top k [] = 0
on_top k (e ∷ es) = if text_eq e.loc_str k then 1 else 0

module _ (h : Uthash) where
  open h use {Table, empty, find, put, find-put, find-empty}

  unfoldable pub exclusive_of : Text → Table (Caller h) → ℕ
  exclusive_of k t = elim (find (Caller h) k t) [ none ↦ 0 | some c ↦ c.exclusive ]

  unfoldable pub callee_of : Text → Table Callee → ℕ
  callee_of j t = elim (find Callee j t) [ none ↦ 0 | some c ↦ c.inclusive ]

  unfoldable pub inclusive_of : Text → Text → Table (Caller h) → ℕ
  inclusive_of k j t = elim (find (Caller h) k t) [ none ↦ 0 | some c ↦ callee_of j c.callees ]

  exclusive_of-get_caller :
      (e : Entry) (t : Table (Caller h)) → (get_caller h e t).exclusive ≡ exclusive_of e.loc_str t
  unfolding exclusive_of get_caller
  exclusive_of-get_caller e t = ground arith

  callee_of-empty : (j : Text) → callee_of j (empty Callee) ≡ 0
  unfolding callee_of
  callee_of-empty j = ground (arith, find-empty Callee j)

  inclusive_of-get_caller :
      (e : Entry) (j : Text) (t : Table (Caller h))
      → callee_of j (get_caller h e t).callees ≡ inclusive_of e.loc_str j t
  unfolding inclusive_of get_caller
  inclusive_of-get_caller e j t = ground (arith, callee_of-empty j)

  exclusive_of-put :
      (k s : Text) (c : Caller h) (t : Table (Caller h))
      → exclusive_of k (put (Caller h) s c t)
        ≡ (if text_eq s k then c.exclusive else exclusive_of k t)
  unfolding exclusive_of
  exclusive_of-put k s c t = ground (arith, find-put (Caller h) s k c t)

  inclusive_of-put :
      (k j s : Text) (c : Caller h) (t : Table (Caller h))
      → inclusive_of k j (put (Caller h) s c t)
        ≡ (if text_eq s k then callee_of j c.callees else inclusive_of k j t)
  unfolding inclusive_of
  inclusive_of-put k j s c t = ground (arith, find-put (Caller h) s k c t)

  callee_of-charge :
      (j : Text) (prev_str : List Text) (i : ℕ) (e : Entry) (t : Table Callee)
      → callee_of j (put Callee e.loc_str (charge h prev_str i e (get_callee h e t)) t)
        ≡ (if text_eq e.loc_str j then inc (callee_of j t) else callee_of j t)
  unfolding callee_of charge get_callee
  callee_of-charge j prev_str i e t = ground (
    arith,
    find-put Callee e.loc_str j (charge h prev_str i e (get_callee h e t)) t,
    eq_of_text_eq e.loc_str j,
  )

  exclusive_of-charge_caller :
      (k : Text) (prev_str : List Text) (i : ℕ) (outer e : Entry) (t : Table (Caller h))
      → exclusive_of k (charge_caller h prev_str i outer e t) ≡ exclusive_of k t
  unfolding charge_caller
  exclusive_of-charge_caller k prev_str i outer e t =
      rw exclusive_of-put (elim (Bool-cases (text_eq outer.loc_str k)) [
        | inl same ↦ rw same (
            exclusive_of-get_caller outer t
            ∙ ap (λ x. exclusive_of x t) (eq_of_text_eq outer.loc_str k same))
        | inr other ↦ rw other
      ])

  inclusive_of-charge_caller :
      (k j : Text) (prev_str : List Text) (i : ℕ) (outer e : Entry) (t : Table (Caller h))
      → inclusive_of k j (charge_caller h prev_str i outer e t) ≡ (
          if text_eq outer.loc_str k && text_eq e.loc_str j
          then inc (inclusive_of k j t)
          else inclusive_of k j t)
  unfolding charge_caller
  inclusive_of-charge_caller k j prev_str i outer e t =
      rw inclusive_of-put (elim (Bool-cases (text_eq outer.loc_str k)) [
        | inl same ↦
            let key = eq_of_text_eq outer.loc_str k same in
            let was = inclusive_of-get_caller outer j t ∙ ap (λ x. inclusive_of x j t) key in
            rw (same, callee_of-charge) (ap (λ n. if text_eq e.loc_str j then inc n else n) was)
        | inr other ↦ rw other
      ])

  exclusive_of-digest_frame :
      (k : Text) (prev_str : List Text) (i : ℕ) (prev : Option Entry) (e : Entry)
      (t : Table (Caller h))
      → exclusive_of k (digest_frame h prev_str i prev e t)
        ≡ (if (i == 0) && text_eq e.loc_str k then inc (exclusive_of k t) else exclusive_of k t)
  unfolding digest_frame
  exclusive_of-digest_frame k prev_str i prev e t = go prev
    where
      c : Caller h
      c = get_caller h e t

      added : Table (Caller h)
      added =
          put (Caller h) e.loc_str
            (record c { exclusive = if i == 0 then inc c.exclusive else c.exclusive }) t

      top :
          exclusive_of k added
          ≡ (if (i == 0) && text_eq e.loc_str k then inc (exclusive_of k t) else exclusive_of k t)
      top = rw exclusive_of-put (elim (Bool-cases (text_eq e.loc_str k)) [
        | inl same ↦ ground (arith, exclusive_of-get_caller e t, eq_of_text_eq e.loc_str k)
        | inr other ↦ ground arith
      ])

      go :
          (p : Option Entry)
          → exclusive_of k (digest_frame h prev_str i p e t)
            ≡ (if (i == 0) && text_eq e.loc_str k then inc (exclusive_of k t) else exclusive_of k t)
      go none = top
      go (some outer) = exclusive_of-charge_caller k prev_str i outer e added ∙ top

  -- Adding a caller leaves all inclusive costs.
  inclusive_of-added :
      (k j : Text) (i : ℕ) (e : Entry) (t : Table (Caller h))
      → let c = get_caller h e t in
        inclusive_of k j (
          put
            (Caller h)
            e.loc_str
            (record c { exclusive = if i == 0 then inc c.exclusive else c.exclusive })
            t)
        ≡ inclusive_of k j t
  inclusive_of-added k j i e t = rw inclusive_of-put (elim (Bool-cases (text_eq e.loc_str k)) [
    | inl same ↦ rw same (
        inclusive_of-get_caller e j t
        ∙ ap (λ x. inclusive_of x j t) (eq_of_text_eq e.loc_str k same))
    | inr other ↦ rw other
  ])

  inclusive_of-digest_frame :
      (k j : Text) (prev_str : List Text) (i : ℕ) (outer e : Entry) (t : Table (Caller h))
      → inclusive_of k j (digest_frame h prev_str i (some outer) e t) ≡ (
          if text_eq outer.loc_str k && text_eq e.loc_str j
          then inc (inclusive_of k j t)
          else inclusive_of k j t)
  unfolding digest_frame
  inclusive_of-digest_frame k j prev_str i outer e t =
      inclusive_of-charge_caller k j prev_str i outer e _
      ∙ ap (λ n. if text_eq outer.loc_str k && text_eq e.loc_str j then inc n else n)
          (inclusive_of-added k j i e t)

  digest_frame-none :
      (k j : Text) (prev_str : List Text) (i : ℕ) (e : Entry) (t : Table (Caller h))
      → inclusive_of k j (digest_frame h prev_str i none e t) ≡ inclusive_of k j t
  unfolding digest_frame
  digest_frame-none k j prev_str i e t = inclusive_of-added k j i e t

  inclusive_of-digest_from :
      (k j : Text) (prev_str : List Text) (i : ℕ) (es : List Entry) (t : Table (Caller h))
      → inclusive_of k j t < 2 ^ 64
      → inclusive_of k j (digest_from h prev_str i es t)
        ≡ (inclusive_of k j t + calls k j es) % 2 ^ 64
  unfolding digest_from calls
  inclusive_of-digest_from k j prev_str i [] t small = omega arith
  inclusive_of-digest_from k j prev_str i (e ∷ []) t small =
      omega (arith, digest_frame-none k j prev_str i e t)
  inclusive_of-digest_from k j prev_str i (e ∷ outer ∷ es) t small =
      let inner = digest_from h prev_str (i + 1) (outer ∷ es) t in
      let ih = inclusive_of-digest_from k j prev_str (i + 1) (outer ∷ es) t small in
      ground (arith, inclusive_of-digest_frame k j prev_str i outer e inner, ih)

  exclusive_of-digest_outer :
      (k : Text) (prev_str : List Text) (i : ℕ) (es : List Entry) (t : Table (Caller h))
      → 1 ≤ i
      → exclusive_of k (digest_from h prev_str i es t) ≡ exclusive_of k t
  unfolding digest_from
  exclusive_of-digest_outer k prev_str i [] t pos_i = refl
  exclusive_of-digest_outer k prev_str i (e ∷ []) t pos_i =
      ground (arith, exclusive_of-digest_frame k prev_str i none e t)
  exclusive_of-digest_outer k prev_str i (e ∷ outer ∷ es) t pos_i =
      let inner = digest_from h prev_str (i + 1) (outer ∷ es) t in
      ground (
        arith,
        exclusive_of-digest_frame k prev_str i (some outer) e inner,
        exclusive_of-digest_outer k prev_str (i + 1) (outer ∷ es) t,
      )

  exclusive_of-digest_from :
      (k : Text) (prev_str : List Text) (es : List Entry) (t : Table (Caller h))
      → exclusive_of k t < 2 ^ 64
      → exclusive_of k (digest_from h prev_str 0 es t) ≡ (exclusive_of k t + on_top k es) % 2 ^ 64
  unfolding digest_from on_top
  exclusive_of-digest_from k prev_str [] t small = omega arith
  exclusive_of-digest_from k prev_str (e ∷ []) t small =
      ground (arith, exclusive_of-digest_frame k prev_str 0 none e t)
  exclusive_of-digest_from k prev_str (e ∷ outer ∷ es) t small =
      let inner = digest_from h prev_str 1 (outer ∷ es) t in
      ground (
        arith,
        exclusive_of-digest_frame k prev_str 0 (some outer) e inner,
        exclusive_of-digest_outer k prev_str 1 (outer ∷ es) t,
      )

  -- Digesting a stack adds to the exclusive cost of `k` whether `k` is its innermost frame, and to
  -- the inclusive cost of the calls of `j` by `k` how often `k` stands directly outside `j` in it,
  -- both modulo 2^64, for all frames `k` and `j` and whatever has been digested before.
  pub digest_stack_lem :
      (u : Udata h) (k j : Text)
      → exclusive_of k u.callers < 2 ^ 64
      → inclusive_of k j u.callers < 2 ^ 64
      → (exclusive_of k (digest_stack h u) ≡ (exclusive_of k u.callers + on_top k u.self) % 2 ^ 64)
        × (inclusive_of k j (digest_stack h u)
            ≡ (inclusive_of k j u.callers + calls k j u.self) % 2 ^ 64)
  unfolding digest_stack
  digest_stack_lem u k j small small' = (
    exclusive_of-digest_from k u.prev_str u.self u.callers small,
    inclusive_of-digest_from k j u.prev_str 0 u.self u.callers small',
  )
