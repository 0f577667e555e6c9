-- ===== src/Top/Child.antt =====
-- The arguments of the child that top mode starts.
use phpspy.Prelude.{
  ℕ, zero, suc, ◌++◌, All, ap, ◌≢◌, ◌≡◌, inl, inr, refl, true, false, List, [], ◌∷◌, arith, get_or,
  Bool-cases,
}
use phpspy.Prelude.Text.{Text, codes}
use phpspy.Top.{starts_with, is_output, is_mode, disable, filter_child_arg, filter_child_args}

-- An option that is taken starts with a dash.
output_dash : (arg : Text) → is_output arg ≡ true → disable b'#' arg ≡ codes "-#"
unfolding is_output starts_with
output_dash [] h = absurd (ground arith)
output_dash (a ∷ arg) h = ground arith

mode_dash : (arg : Text) → is_mode arg ≡ true → disable b'@' arg ≡ codes "-@"
unfolding is_mode starts_with
mode_dash [] h = absurd (ground arith)
mode_dash (a ∷ arg) h = ground arith

codes_harmless : (is_output (codes "-#") ≡ false) × (is_mode (codes "-#") ≡ false)
unfolding is_output is_mode starts_with
codes_harmless = (refl, refl)

mode_harmless : (is_output (codes "-@") ≡ false) × (is_mode (codes "-@") ≡ false)
unfolding is_output is_mode starts_with
mode_harmless = (refl, refl)

filter_child_arg-harmless :
    (arg : Text)
    → (is_output (filter_child_arg arg) ≡ false) × (is_mode (filter_child_arg arg) ≡ false)
unfolding filter_child_arg
filter_child_arg-harmless arg = elim (Bool-cases (is_output arg)) [
  | inl out ↦ rw (out, output_dash arg out, codes_harmless.1) codes_harmless
  | inr quiet ↦ elim (Bool-cases (is_mode arg)) [
    | inl mode ↦ rw (quiet, mode, mode_dash arg mode) mode_harmless
    | inr plain ↦ rw (quiet, plain) (quiet, plain)
  ]
]

filter_child_arg-other :
    (arg : Text) → is_output arg ≡ false → is_mode arg ≡ false → filter_child_arg arg ≡ arg
unfolding filter_child_arg
filter_child_arg-other arg quiet plain = rw (quiet, plain)

-- The options that the child is not given.
abbrev pub taken : List Text
taken =
    codes "-o"
    ∷ codes "--output"
    ∷ codes "-1"
    ∷ codes "--single-line"
    ∷ codes "-t"
    ∷ codes "--top"
    ∷ []

-- An argument does not start with a prefix.
abbrev pub Avoids : Text → Text → Type 0
Avoids arg prefix = (rest : Text) → arg ≢ prefix ++ rest

starts_with-append : (prefix rest : Text) → starts_with prefix (prefix ++ rest) ≡ true
unfolding starts_with
starts_with-append [] rest = refl
starts_with-append (c ∷ prefix) rest = ground (arith, starts_with-append prefix rest)

-- What the test misses does not start with the prefix.
not_starts : (prefix arg : Text) → starts_with prefix arg ≡ false → Avoids arg prefix
not_starts prefix arg h rest e =
    ground (arith, ap (starts_with prefix) e, starts_with-append prefix rest)

starts_with_lem :
    (prefix arg : Text) → starts_with prefix arg ≡ true → (rest : Text) × (arg ≡ prefix ++ rest)
unfolding starts_with
starts_with_lem [] arg h = (arg, refl)
starts_with_lem (c ∷ prefix) [] h = absurd (ground arith)
starts_with_lem (c ∷ prefix) (d ∷ arg) h =
    let (rest, e) = starts_with_lem prefix arg (ground arith) in (rest, ground (arith, e))

Avoids-starts_with : (prefix arg : Text) → Avoids arg prefix → starts_with prefix arg ≡ false
Avoids-starts_with prefix arg h = elim (Bool-cases (starts_with prefix arg)) [
  | inl yes_it ↦ let (rest, e) = starts_with_lem prefix arg yes_it in absurd (h rest e)
  | inr not_it ↦ not_it
]

harmless-Avoids :
    (arg : Text) → is_output arg ≡ false → is_mode arg ≡ false → All (Avoids arg) taken
unfolding is_output is_mode
harmless-Avoids arg quiet plain = (
  not_starts (codes "-o") arg (ground arith),
  (
    not_starts (codes "--output") arg (ground arith),
    (
      not_starts (codes "-1") arg (ground arith),
      (
        not_starts (codes "--single-line") arg (ground arith),
        (
          not_starts (codes "-t") arg (ground arith),
          (not_starts (codes "--top") arg (ground arith), tt),
        ),
      ),
    ),
  ),
)

Avoids-is_output : (arg : Text) → All (Avoids arg) taken → is_output arg ≡ false
unfolding is_output
Avoids-is_output arg (a, (b, rest)) =
    ground
      (arith, Avoids-starts_with (codes "-o") arg a, Avoids-starts_with (codes "--output") arg b)

Avoids-is_mode : (arg : Text) → All (Avoids arg) taken → is_mode arg ≡ false
unfolding is_mode
Avoids-is_mode arg (a, (b, (c, (d, (e, (f, rest)))))) = ground (
  arith,
  Avoids-starts_with (codes "-1") arg c,
  Avoids-starts_with (codes "--single-line") arg d,
  Avoids-starts_with (codes "-t") arg e,
  Avoids-starts_with (codes "--top") arg f,
)

-- An argument of the child starts with none of these options, and is the given one unless that did.
pub record IsFiltered (arg child : Text) : Type 0 where
  pub none_taken : All (Avoids child) taken
  pub same : All (Avoids arg) taken → child ≡ arg

nothing-IsFiltered : IsFiltered [] []
unfolding is_output is_mode starts_with
nothing-IsFiltered = record { none_taken = harmless-Avoids [] refl refl; same = λ a. refl }

-- None of the child's arguments starts with -o, --output, -1, --single-line, -t or --top, and an
-- argument that starts with none of these is passed on as it is, in its place.
pub filter_child_args-IsFiltered :
    (argv : List Text)
    → (i : ℕ) → IsFiltered (get_or argv i []) (get_or (filter_child_args argv) i [])
unfolding filter_child_args
filter_child_args-IsFiltered [] i = nothing-IsFiltered
filter_child_args-IsFiltered (arg ∷ argv) zero = record {
  none_taken =
      let (quiet, plain) = filter_child_arg-harmless arg in
      harmless-Avoids (filter_child_arg arg) quiet plain;
  same = λ a. filter_child_arg-other arg (Avoids-is_output arg a) (Avoids-is_mode arg a);
}
filter_child_args-IsFiltered (arg ∷ argv) (suc i) = filter_child_args-IsFiltered argv i
