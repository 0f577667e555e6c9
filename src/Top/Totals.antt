-- ===== src/Top/Totals.antt =====
-- The counters of the rows against the counters of the header line.
use phpspy.Prelude.{
  ℕ, ◌+◌, ◌%◌, ◌^◌, ◌≤◌, ◌<◌, ◌≡◌, refl, sym, ap, ◌∙◌, ltb, ◌==◌, if◌then◌else◌, Option, none, some,
  List, [], ◌∷◌, ◌++◌, map, arith, length, length-append, length-map,
}
use phpspy.Prelude.Text.{Text, text_eq}
use phpspy.Prelude.Int.{ℤ}
use phpspy.Prelude.Uthash.{Uthash}
use phpspy.Top.{
  FuncEntry, Top, bump, settle, settle_all, reset, new_entry, parse_line, accept, entry_of,
  bump_all, handle_line, intern, count_frame, display, func_list_compare,
}

abbrev pub sum : (FuncEntry → ℕ) → List FuncEntry → ℕ
sum w [] = 0
sum w (e ∷ es) = w e + sum w es

-- All samples that an entry was the innermost frame of.
abbrev pub samples : FuncEntry → ℕ
samples e = e.total_count_excl + e.count_excl

-- 1 for the entry at an address.
abbrev pub at : ℕ → FuncEntry → ℕ
at a e = if e.addr == a then 1 else 0

-- 1 for the entry at an address, if it has another function.
abbrev pub stray : Text → ℕ → FuncEntry → ℕ
stray func a e = if e.addr == a then (if text_eq e.func func then 0 else 1) else 0

-- `qsort` permutes the array: no sum over the elements changes.
pub record Permutes (qsort : (FuncEntry → FuncEntry → ℤ) → List FuncEntry → List FuncEntry)
    : Type 0 where
  pub sum_lem :
      (compare : FuncEntry → FuncEntry → ℤ) (w : FuncEntry → ℕ) (es : List FuncEntry)
      → sum w (qsort compare es) ≡ sum w es

pub sum-append :
    (w : FuncEntry → ℕ) (es fs : List FuncEntry) → sum w (es ++ fs) ≡ sum w es + sum w fs
sum-append w [] fs = omega arith
sum-append w (e ∷ es) fs = omega (arith, sum-append w es fs)

sum-map :
    (v w : FuncEntry → ℕ) (f : FuncEntry → FuncEntry)
    → ((e : FuncEntry) → v (f e) ≡ w e)
    → (es : List FuncEntry) → sum v (map f es) ≡ sum w es
sum-map v w f h [] = refl
sum-map v w f h (e ∷ es) = ground (arith, h e, sum-map v w f h es)

-- The same, modulo 2^64.
pub sum-map_mod :
    (v w : FuncEntry → ℕ) (f : FuncEntry → FuncEntry)
    → ((e : FuncEntry) → v (f e) % 2 ^ 64 ≡ w e % 2 ^ 64)
    → (es : List FuncEntry) → sum v (map f es) % 2 ^ 64 ≡ sum w es % 2 ^ 64
sum-map_mod v w f h [] = refl
sum-map_mod v w f h (e ∷ es) = omega (arith, h e, sum-map_mod v w f h es)

sum_one : (es : List FuncEntry) → sum (λ e. 1) es ≡ length es
sum_one [] = refl
sum_one (e ∷ es) = omega (arith, sum_one es)

pub sum-add :
    (v w : FuncEntry → ℕ) (es : List FuncEntry) → sum (λ e. v e + w e) es ≡ sum v es + sum w es
sum-add v w [] = omega arith
sum-add v w (e ∷ es) = omega (arith, sum-add v w es)

samples-settle :
    (c : ℕ) (e : FuncEntry) → samples (reset (settle c e)) % 2 ^ 64 ≡ samples e % 2 ^ 64
unfolding settle
samples-settle c e = ground arith

module _ (qsort : (FuncEntry → FuncEntry → ℤ) → List FuncEntry → List FuncEntry)
    (p : Permutes qsort) where
  sum-settle_all :
      (w : FuncEntry → ℕ) (c : ℕ)
      → ((e : FuncEntry) → w (reset (settle c e)) ≡ w e)
      → (es : List FuncEntry) → sum w (map reset (settle_all qsort c es)) ≡ sum w es
  unfolding settle_all
  sum-settle_all w c h [] = refl
  sum-settle_all w c h (e ∷ es) =
      sum-map w (λ e. w (reset e)) reset (λ e. refl)
        (map (settle c) (qsort func_list_compare (e ∷ es)))
      ∙ sum-map (λ e. w (reset e)) w (settle c) h (qsort func_list_compare (e ∷ es))
      ∙ p.sum_lem func_list_compare w (e ∷ es)

  sum-settle_all_mod :
      (c : ℕ) (es : List FuncEntry)
      → sum samples (map reset (settle_all qsort c es)) % 2 ^ 64 ≡ sum samples es % 2 ^ 64
  unfolding settle_all
  sum-settle_all_mod c [] = refl
  sum-settle_all_mod c (e ∷ es) =
      ap (λ n. n % 2 ^ 64)
        (sum-map samples (λ e. samples (reset e)) reset (λ e. refl)
          (map (settle c) (qsort func_list_compare (e ∷ es))))
      ∙ sum-map_mod (λ e. samples (reset e)) samples (settle c) (samples-settle c)
          (qsort func_list_compare (e ∷ es))
      ∙ ap (λ n. n % 2 ^ 64) (p.sum_lem func_list_compare samples (e ∷ es))

-- A sample is counted in the entry at an address, modulo 2^64.
samples-bump :
    (n a : ℕ) (e : FuncEntry)
    → samples (bump n a e) % 2 ^ 64 ≡ (samples e + (if n == 0 then at a e else 0)) % 2 ^ 64
unfolding bump
samples-bump n a e = ground arith

at-bump : (n a b : ℕ) (e : FuncEntry) → at b (bump n a e) ≡ at b e
unfolding bump
at-bump n a b e = ground arith

stray-bump :
    (n a : ℕ) (func : Text) (b : ℕ) (e : FuncEntry) → stray func b (bump n a e) ≡ stray func b e
unfolding bump
stray-bump n a func b e = ground arith

stray-le : (func : Text) (a : ℕ) (e : FuncEntry) → stray func a e ≤ at a e
stray-le func a e = ground arith

pub sum-le :
    (v w : FuncEntry → ℕ)
    → ((e : FuncEntry) → v e ≤ w e)
    → (es : List FuncEntry) → sum v es ≤ sum w es
sum-le v w h [] = omega arith
sum-le v w h (e ∷ es) = omega (arith, h e, sum-le v w h es)

sum_if :
    (n : ℕ) (w : FuncEntry → ℕ) (es : List FuncEntry)
    → sum (λ e. if n == 0 then w e else 0) es ≡ (if n == 0 then sum w es else 0)
sum_if n w [] = ground arith
sum_if n w (e ∷ es) = ground (arith, sum_if n w es)

module _ (hash : Uthash) where
  -- Each entry has an address of its own, which the map agrees with, and the samples of the
  -- entries add up to those of the header line.
  pub record IsCounted (s : Top hash) : Type 0 where
    pub entry_at : (a : ℕ) → sum (at a) s.func_list ≡ (if ltb a (length s.func_list) then 1 else 0)
    pub found :
        (func : Text) (a : ℕ) → hash.find ℕ func s.func_map ≡ some a → a < length s.func_list
    pub named :
        (func : Text) (a : ℕ)
        → hash.find ℕ func s.func_map ≡ some a
        → sum (stray func a) s.func_list ≡ 0
    pub balanced : sum samples s.func_list % 2 ^ 64 ≡ (s.total_samp_count + s.samp_count) % 2 ^ 64
    pub room : length s.func_list ≤ s.func_list_size

  bump_all-IsCounted :
      (n a : ℕ) (s : Top hash)
      → a < length s.func_list
      → IsCounted s
      → IsCounted (bump_all hash n (a, s))
  unfolding bump_all
  bump_all-IsCounted n a s small v =
      let len = length-map s.func_list (bump n a) in
      let one = v.entry_at a in
      let all = v.balanced in
      let split = sum-add samples (λ e. if n == 0 then at a e else 0) s.func_list in
      record {
        entry_at = λ b.
            sum-map (at b) (at b) (bump n a) (at-bump n a b) s.func_list
            ∙ v.entry_at b
            ∙ ap (λ k. if ltb b k then 1 else 0) (sym len);
        found = λ func b e. omega (arith, len, v.found func b e);
        named = λ func b e.
            sum-map (stray func b) (stray func b) (bump n a) (stray-bump n a func b) s.func_list
            ∙ v.named func b e;
        balanced =
            sum-map_mod samples _ (bump n a) (samples-bump n a) s.func_list
            ∙ ground (arith, split, one, all, small, sum_if n (at a) s.func_list);
        room = omega (arith, len, v.room);
      }

  pub entry_of-IsCounted :
      (func : Text) (o : Option ℕ) (s : Top hash)
      → ((a : ℕ) → o ≡ some a → a < length s.func_list)
      → IsCounted s
      → let r = entry_of hash func o s in (r.0 < length r.1.func_list) × IsCounted r.1
  unfolding entry_of
  entry_of-IsCounted func (some a) s h v = (h a refl, v)
  entry_of-IsCounted func none s h v =
      let el = new_entry (length s.func_list) func in
      let len = length-append s.func_list (el ∷ []) in
      (
        omega (arith, len),
        record {
          entry_at =
              λ b. ground (arith, sum-append (at b) s.func_list (el ∷ []), v.entry_at b, len);
          found = λ f b e.
              ground (arith, hash.find-put ℕ el.func f el.addr s.func_map, v.found f b, len);
          named = λ f b e. ground (
            arith,
            hash.find-put ℕ el.func f el.addr s.func_map,
            v.found f b,
            v.named f b,
            v.entry_at b,
            sum-le (stray f b) (at b) (stray-le f b) s.func_list,
            sum-append (stray f b) s.func_list (el ∷ []),
          );
          balanced = omega (arith, sum-append samples s.func_list (el ∷ []), v.balanced);
          room = ground (arith, len, v.room);
        },
      )

  accept-IsCounted :
      (o : Option (ℕ × Text)) (s : Top hash) → IsCounted s → IsCounted (accept hash o s)
  unfolding accept count_frame intern
  accept-IsCounted none s v = v
  accept-IsCounted (some (n, func)) s v =
      let r = entry_of hash func (hash.find ℕ func s.func_map) s in
      let (small, w) = entry_of-IsCounted func (hash.find ℕ func s.func_map) s (v.found func) v in
      bump_all-IsCounted n r.0 r.1 small w

  pub handle_line-IsCounted :
      (line : Text) (n : ℕ) (s : Top hash) → IsCounted s → IsCounted (handle_line hash line n s)
  unfolding handle_line
  handle_line-IsCounted line n s v = accept-IsCounted (parse_line line n) s v

  pub display-IsCounted :
      (qsort : (FuncEntry → FuncEntry → ℤ) → List FuncEntry → List FuncEntry)
      → Permutes qsort
      → (h : ℕ) (s : Top hash) → IsCounted s
      → IsCounted (display hash qsort h s).1
  unfolding display settle
  display-IsCounted qsort p h s v =
      let cleared = map reset (settle_all qsort s.samp_count s.func_list) in
      let len : length cleared ≡ length s.func_list =
        sym (sum_one cleared)
        ∙ sum-settle_all qsort p (λ e. 1) s.samp_count (λ e. refl) s.func_list
        ∙ sum_one s.func_list in
      record {
        entry_at = λ b.
            sum-settle_all qsort p (at b) s.samp_count (λ e. refl) s.func_list
            ∙ v.entry_at b
            ∙ ap (λ k. if ltb b k then 1 else 0) (sym len);
        found = λ func b e. omega (arith, len, v.found func b e);
        named = λ func b e.
            sum-settle_all qsort p (stray func b) s.samp_count (λ e. refl) s.func_list
            ∙ v.named func b e;
        balanced = sum-settle_all_mod qsort p s.samp_count s.func_list ∙ omega (arith, v.balanced);
        room = omega (arith, len, v.room);
      }
