-- ===== src/Prelude/Uthash.antt =====
-- What phpspy uses of vendor/uthash.h: tables keyed by strings. `put` is HASH_ADD_STR of a new key,
-- or a write through the pointer that HASH_FIND_STR has found; `items` is the order of HASH_ITER.
use phpspy.Prelude.{◌≡◌, refl, if◌then◌else◌, true, Option, none, some, List, [], ◌∷◌, arith}
use phpspy.Prelude.Text.{Text, text_eq}

pub record Uthash : Type 1 where
  pub Table : Type 0 → Type 0
  pub empty : (V : Type 0) → Table V
  pub find : (V : Type 0) → Text → Table V → Option V
  pub put : (V : Type 0) → Text → V → Table V → Table V
  pub items : (V : Type 0) → Table V → List (Text × V)
  pub find-empty : (V : Type 0) (k : Text) → find V k (empty V) ≡ none
  pub find-put :
      (V : Type 0) (k j : Text) (v : V) (t : Table V)
      → find V j (put V k v t) ≡ (if text_eq k j then some v else find V j t)

pub text_eq_refl : (s : Text) → text_eq s s ≡ true
unfolding text_eq
text_eq_refl [] = refl
text_eq_refl (c ∷ s) = ground (arith, text_eq_refl s)

pub eq_of_text_eq : (s t : Text) → text_eq s t ≡ true → s ≡ t
unfolding text_eq
eq_of_text_eq [] [] h = refl
eq_of_text_eq [] (d ∷ t) h = absurd (ground arith)
eq_of_text_eq (c ∷ s) [] h = absurd (ground arith)
eq_of_text_eq (c ∷ s) (d ∷ t) h = ground (arith, eq_of_text_eq s t)

-- Association lists are such tables.
abbrev find_assoc : (V : Type 0) → Text → List (Text × V) → Option V
find_assoc V k [] = none
find_assoc V k ((j, v) ∷ t) = if text_eq j k then some v else find_assoc V k t

abbrev put_assoc : (V : Type 0) → Text → V → List (Text × V) → List (Text × V)
put_assoc V k v [] = (k, v) ∷ []
put_assoc V k v ((j, w) ∷ t) = if text_eq j k then (k, v) ∷ t else (j, w) ∷ put_assoc V k v t

pub find-put_assoc :
    (V : Type 0) (k j : Text) (v : V) (t : List (Text × V))
    → find_assoc V j (put_assoc V k v t) ≡ (if text_eq k j then some v else find_assoc V j t)
find-put_assoc V k j v [] = refl
find-put_assoc V k j v ((i, w) ∷ t) = ground (
  arith,
  eq_of_text_eq i k,
  eq_of_text_eq i j,
  eq_of_text_eq k j,
  text_eq_refl k,
  text_eq_refl i,
  text_eq_refl j,
  find-put_assoc V k j v t,
)

abbrev pub assoc_lists : Uthash
assoc_lists = record {
  Table = λ V. List (Text × V);
  empty = λ V. [];
  find = find_assoc;
  put = put_assoc;
  items = λ V t. t;
  find-empty = λ V k. refl;
  find-put = find-put_assoc;
}
