-- ===== src/Spy/Choice.antt =====
-- The tracer that a version chooses.
use phpspy.Prelude.{◌≡◌, refl, Option, none, some, ◌++◌}
use phpspy.Prelude.Text.{Text, codes, text_eq}
use phpspy.Zend.Versions.{Version, v70, v71, v72, v73, v74, v80, v81, v82, v83, v84, v85, v86}
use phpspy.Spy.Versions.{phpv_of, tracer_of}

-- The number of a version, as PHP prints it.
unfoldable pub dotted : Version → Text
dotted v70 = codes "7.0"
dotted v71 = codes "7.1"
dotted v72 = codes "7.2"
dotted v73 = codes "7.3"
dotted v74 = codes "7.4"
dotted v80 = codes "8.0"
dotted v81 = codes "8.1"
dotted v82 = codes "8.2"
dotted v83 = codes "8.3"
dotted v84 = codes "8.4"
dotted v85 = codes "8.5"
dotted v86 = codes "8.6"

-- The tracer for what `get_php_version` has read.
unfoldable pub chosen : Text → Option Version
unfolding phpv_of tracer_of
chosen t = elim (phpv_of t) [ none ↦ none | some phpv ↦ tracer_of phpv ]

-- When the version that has been read starts with the number of a version of structs.h, its own
-- tracer is chosen.
pub chosen-dotted : (v : Version) (rest : Text) → chosen (dotted v ++ rest) ≡ some v
unfolding chosen dotted phpv_of tracer_of text_eq
chosen-dotted v70 rest = refl
chosen-dotted v71 rest = refl
chosen-dotted v72 rest = refl
chosen-dotted v73 rest = refl
chosen-dotted v74 rest = refl
chosen-dotted v80 rest = refl
chosen-dotted v81 rest = refl
chosen-dotted v82 rest = refl
chosen-dotted v83 rest = refl
chosen-dotted v84 rest = refl
chosen-dotted v85 rest = refl
chosen-dotted v86 rest = refl
