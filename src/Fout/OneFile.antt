-- ===== src/Fout/OneFile.antt =====
-- How many files the threads open that share one output path, and which they write to.
use phpspy.Prelude.{
  ℕ, ◌≤◌, ◌≡◌, ◌≢◌, ◌⊎◌, inl, inr, refl, sym, ap, ◌∙◌, if◌then◌else◌, Bool, true, false, Option,
  none, some, [], ◌∷◌, ◌++◌, length, update, length-append, Option-cases, arith,
}
use phpspy.Prelude.Text.{Text, codes, text_eq, has_percent_d}
use phpspy.Options.{Options}
use phpspy.Fout.Open.{
  Files, open_shared, fout_open, fout_close, Handlers, Turn, init, deinit, idle, Served, here, next,
}

-- The descriptor `fd`, if a thread has one, refers to the first file that was opened.
pub record IsOne (s : Handlers) : Type 0 where
  pub unopened :
      s.files.shared_fd ≡ none → (length s.files.opened ≡ 0) × ((tid : ℕ) → s.fd tid ≡ none)
  pub opened_once :
      (shared : ℕ)
      → s.files.shared_fd ≡ some shared
      → (s.files.table shared ≡ some 0) × (length s.files.opened ≡ 1)
  pub same_file : (tid fd : ℕ) → s.fd tid ≡ some fd → s.files.table fd ≡ some 0
  pub apart :
      (t u fd : ℕ) → t ≢ u → s.fd t ≡ some fd → s.fd u ≡ some fd → s.files.shared_fd ≡ some fd

-- The three ways to end: no descriptor, the first one, and a copy of the shared one.
open_shared-cases :
    (answer : Option ℕ) (path : Text) (f : Files)
    → (open_shared answer path f ≡ (none, f))
      ⊎ (((fd : ℕ) × (answer ≡ some fd)
            × (f.shared_fd ≡ none)
            × (open_shared answer path f ≡ (
              some fd,
              record {
                table = update f.table fd (some (length f.opened));
                opened = f.opened ++ (path ∷ []);
                shared_fd = some fd;
              },
            )))
          ⊎ ((fd : ℕ) × (file : ℕ) × (shared : ℕ) × (answer ≡ some fd)
              × (f.shared_fd ≡ some shared)
              × (f.table shared ≡ some file)
              × (open_shared answer path f
                  ≡ (some fd, record f { table = update f.table fd (some file) }))))
unfolding open_shared
open_shared-cases none path f = inl (ground arith)
open_shared-cases (some fd) path f = elim (Option-cases f.shared_fd) [
  | inl e ↦ inr (inl (fd, refl, e, ground arith))
  | inr (shared, e) ↦ elim (Option-cases (f.table shared)) [
    | inl closed ↦ inl (ground arith)
    | inr (file, h) ↦ inr (inr (fd, file, shared, refl, e, h, ground arith))
  ]
]

fout_close-kept :
    (fd : ℕ) (f : Files)
    → ((fout_close fd f).shared_fd ≡ f.shared_fd) × ((fout_close fd f).opened ≡ f.opened)
unfolding fout_close
fout_close-kept fd f = ground arith

-- The shared descriptor stays open.
fout_close-shared :
    (fd : ℕ) (f : Files) (shared : ℕ)
    → f.shared_fd ≡ some shared
    → (fout_close fd f).table shared ≡ f.table shared
unfolding fout_close
fout_close-shared fd f shared h = ground arith

fout_close-other :
    (fd : ℕ) (f : Files) (new : ℕ)
    → (f.shared_fd ≡ some fd) ⊎ (fd ≢ new)
    → (fout_close fd f).table new ≡ f.table new
unfolding fout_close
fout_close-other fd f new h = ground arith

if_same : {A : Type 0} (b : Bool) {x : A} → (if b then x else x) ≡ x
if_same b = ground arith

if_cases :
    (kept : Bool) (fd : ℕ)
    → let got : Option ℕ = if kept then some fd else none in (got ≡ none) ⊎ (got ≡ some fd)
if_cases true fd = inr refl
if_cases false fd = inl refl

idle-IsOne : (table : ℕ → Option ℕ) → IsOne (idle table)
idle-IsOne table = record {
  unopened = λ e. (refl, λ tid. refl);
  opened_once = λ shared e. absurd (cc);
  same_file = λ tid fd h. cc;
  apart = λ t u fd ne h k. cc;
}

few :
    {s : Handlers}
    → IsOne s
    → (s.files.shared_fd ≡ none) ⊎ ((fd : ℕ) × (s.files.shared_fd ≡ some fd))
    → length s.files.opened ≤ 1
few v (inl e) = omega (arith, (v.unopened e).0)
few v (inr (fd, e)) = omega (arith, (v.opened_once fd e).1)

module _ {s : Handlers} (v : IsOne s) (tid : ℕ) where
  leaves-IsOne : IsOne (record s { fd = update s.fd tid none })
  leaves-IsOne = record {
    unopened = λ e. ((v.unopened e).0, λ t. ground (arith, (v.unopened e).1 t));
    opened_once = v.opened_once;
    same_file = λ t fd h. ground (arith, v.same_file t fd);
    apart = λ t u fd ne h k. ground (arith, v.apart t u fd);
  }

  -- The first thread gets the descriptor `fd`.
  first-IsOne :
      (path : Text) (fd : ℕ) (got : Option ℕ)
      → s.files.shared_fd ≡ none
      → (got ≡ none) ⊎ (got ≡ some fd)
      → IsOne (record {
        files = record {
          table = update s.files.table fd (some (length s.files.opened));
          opened = s.files.opened ++ (path ∷ []);
          shared_fd = some fd;
        };
        fd = update s.fd tid got;
      })
  first-IsOne path fd got e k = record {
    unopened = λ h. absurd (ground arith);
    opened_once =
        λ shared h. ground (arith, v.unopened e, length-append s.files.opened (path ∷ []));
    same_file = λ t new h. ground (arith, v.unopened e, (v.unopened e).1 t);
    apart = λ t u new ne h h'. ground (arith, (v.unopened e).1 t, (v.unopened e).1 u);
  }

  -- A later thread gets a copy of the shared descriptor.
  copy-IsOne :
      (fd file shared : ℕ) (got : Option ℕ)
      → s.files.table fd ≡ none
      → s.files.shared_fd ≡ some shared
      → s.files.table shared ≡ some file
      → (got ≡ none) ⊎ (got ≡ some fd)
      → IsOne (record {
        files = record s.files { table = update s.files.table fd (some file) };
        fd = update s.fd tid got;
      })
  copy-IsOne fd file shared got free e h k = record {
    unopened = λ h'. absurd (ground arith);
    opened_once = λ g h'. ground (arith, v.opened_once g);
    same_file = λ t new h'. ground (arith, v.same_file t new, v.opened_once shared);
    apart = λ t u new ne a b.
        ground (arith, v.apart t u new, v.same_file t new, v.same_file u new, v.opened_once shared);
  }

  close-IsOne :
      (fd : ℕ)
      → s.fd tid ≡ some fd
      → IsOne (record { files = fout_close fd s.files; fd = update s.fd tid none })
  close-IsOne fd h =
      let kept = (fout_close-kept fd s.files).0 in
      record {
        unopened = λ e. absurd (ground (arith, (v.unopened (sym kept ∙ e)).1 tid));
        opened_once = λ shared e.
            let (same, once) = v.opened_once shared (sym kept ∙ e) in
            (
              fout_close-shared fd s.files shared (sym kept ∙ e) ∙ same,
              ap length (fout_close-kept fd s.files).1 ∙ once,
            );
        same_file = λ t new k.
            ground (arith, v.same_file t new, v.apart tid t new, fout_close-other fd s.files new);
        apart = λ t u new ne a b. ground (arith, kept, v.apart t u new);
      }

module _ (asprintf : Text → ℕ → Option Text) (o : Options)
    (plain : has_percent_d o.path_output ≡ false)
    (named : text_eq o.path_output (codes "-") ≡ false) where
  fout_open-shared :
      (tid : ℕ) (answer : Option ℕ) (f : Files)
      → fout_open asprintf o tid answer f ≡ open_shared answer o.path_output f
  unfolding fout_open
  fout_open-shared tid answer f = rw (plain, named)

  init-IsOne :
      {s : Handlers} (v : IsOne s) (tid : ℕ) (answer : Option ℕ) (kept : Bool)
      → ((new : ℕ) → answer ≡ some new → s.files.table new ≡ none)
      → s.fd tid ≡ none
      → (let r = open_shared answer o.path_output s.files in
          IsOne (record { files = r.1; fd = update s.fd tid (if kept then r.0 else none) }))
  init-IsOne {s} v tid answer kept free unused =
      elim (open_shared-cases answer o.path_output s.files) [
        | inl e ↦ rw e (rw (if_same kept) (leaves-IsOne v tid))
        | inr (inl (fd, a, unshared, e)) ↦
            rw e (first-IsOne v tid o.path_output fd _ unshared (if_cases kept fd))
        | inr (inr (fd, file, shared, a, g, h, e)) ↦
            rw e (copy-IsOne v tid fd file shared _ (free fd a) g h (if_cases kept fd))
      ]

  Turn-IsOne : {s t : Handlers} → Turn asprintf o s t → IsOne s → IsOne t
  Turn-IsOne {s} (init tid answer kept free unused) v =
      rw (fout_open-shared tid answer s.files) (init-IsOne v tid answer kept free unused)
  Turn-IsOne (deinit tid fd h) v = close-IsOne v tid fd h

  reached : {table : ℕ → Option ℕ} {s : Handlers} → Served asprintf o table s → IsOne s
  reached {table} here = idle-IsOne table
  reached (next r st) = Turn-IsOne st (reached r)

  -- Where all threads share one output path, one that is neither `-` nor has a `%d`, and whatever the
  -- order in which they begin and end and the answers of `open` and `dup`, provided that a new
  -- descriptor is one that is not open: the file is opened, and so truncated, at most once, and the
  -- descriptor of every thread refers to it from INIT to DEINIT.
  pub one_output_file :
      {table : ℕ → Option ℕ} {s : Handlers}
      → Served asprintf o table s
      → (length s.files.opened ≤ 1)
        × ((tid fd : ℕ) → s.fd tid ≡ some fd → s.files.table fd ≡ some 0)
  one_output_file {s = s} r =
      let v = reached r in (few v (Option-cases s.files.shared_fd), v.same_file)
