-- ===== src/Symbols/Commands.antt =====
-- The commands that are run fit their arrays.
use phpspy.Prelude.{
  ℕ, ◌+◌, ◌<◌, ◌≤◌, ◌≡◌, inl, inr, refl, sym, ap, ◌==◌, if◌then◌else◌, Bool, Option, none, some, [],
  ◌∷◌, ◌++◌, arith, length, Bool-cases, All, All-append, length-append,
}
use mathlib.Core.Path.{subst}
use phpspy.Prelude.Text.{Text, codes}
use phpspy.Prelude.Int.{ℤ}
use phpspy.Options.{Options}
use phpspy.Shell.{shell_escape}
use phpspy.Symbols.{
  Shells, Lookup, Looks, after, ◌>>=◌, return, given, run, fits, quieted, popen_read_line,
  store_paths, get_php_bin_path, get_php_base_addr, get_symbol_offset, find_bin_path,
  find_base_addr, get_symbol_addr, str_size, is_unset,
}

abbrev pub AreShort : Lookup → Type 0
AreShort s = All (λ cmd. length cmd < str_size) s.commands

-- An action that runs at most `n` commands, all of which fit.
pub record Runs {A : Type 0} (n : ℕ) (m : Looks A) : Type 0 where
  pub short : (s : Lookup) → AreShort s → AreShort (m s).1
  pub few : (s : Lookup) → length (m s).1.commands ≤ length s.commands + n

module _ {A B : Type 0} (n k : ℕ) (f : A → Looks B) (hf : (a : A) → Runs k (f a)) where
  after-AreShort : (o : Option A) (s : Lookup) → AreShort s → AreShort (after f o s).1
  after-AreShort none s h = h
  after-AreShort (some a) s h = (hf a).short s h

  after-le :
      (l : ℕ) (o : Option A) (s : Lookup)
      → length s.commands ≤ l + n
      → length (after f o s).1.commands ≤ l + (n + k)
  after-le l none s h = omega arith
  after-le l (some a) s h = omega (arith, (hf a).few s)

  pub Runs->>= : (m : Looks A) → Runs n m → Runs (n + k) (m >>= f)
  unfolding ◌>>=◌
  Runs->>= m hm = record {
    short = λ s h. after-AreShort (m s).0 (m s).1 (hm.short s h);
    few = λ s. after-le (length s.commands) (m s).0 (m s).1 (hm.few s);
  }

-- What follows a test knows that it has been passed.
Runs-test :
    {A B : Type 0} {n : ℕ} (o : Option A) (f : A → Looks B)
    → ((a : A) → o ≡ some a → Runs n (f a))
    → Runs n (given o >>= f)
unfolding ◌>>=◌ given
Runs-test none f h = record { short = λ s v. v; few = λ s. omega arith }
Runs-test (some a) f h = record { short = λ s v. (h a refl).short s v; few = λ s. (h a refl).few s }

Runs-given : {A : Type 0} (o : Option A) → Runs 0 (given o)
unfolding given
Runs-given o = record { short = λ s h. h; few = λ s. omega arith }

pub Runs-return : {A : Type 0} (a : A) → Runs 0 (return a)
unfolding return
Runs-return a = record { short = λ s h. h; few = λ s. omega arith }

Runs-if :
    {A : Type 0} {n : ℕ} (b : Lookup → Bool) (m k : Looks A)
    → Runs n m
    → Runs n k
    → Runs n (λ s. if b s then m s else k s)
Runs-if b m k hm hk = record {
  short =
      λ s h. elim (Bool-cases (b s)) [ inl e ↦ rw e (hm.short s h) | inr e ↦ rw e (hk.short s h) ];
  few = λ s. elim (Bool-cases (b s)) [ inl e ↦ rw e (hm.few s) | inr e ↦ rw e (hk.few s) ];
}

-- A command that is run has passed the test of its length.
Runs-run : (sh : Shells) (cmd : Text) → length cmd < str_size → Runs 1 (run sh cmd)
unfolding run
Runs-run sh cmd small = record {
  short = λ s h. All-append (λ cmd. length cmd < str_size) s.commands (cmd ∷ []) h (small, tt);
  few = λ s. omega (arith, length-append s.commands (cmd ∷ []));
}

fits-lt : (size : ℕ) (t u : Text) → fits size t ≡ some u → (u ≡ t) × (length u < size)
unfolding fits
fits-lt size t u e = ground arith

quieted-lt :
    (o : Options) (t u : Text) → length t < str_size → quieted o t ≡ some u → length u < str_size
unfolding quieted
quieted-lt o t u small e =
    ground (arith, fits-lt str_size (codes "{ " ++ (t ++ codes "; } 2>/dev/null")) u)

Runs-popen_read_line : (o : Options) (sh : Shells) (cmd : Text) → Runs 1 (popen_read_line o sh cmd)
unfolding popen_read_line
Runs-popen_read_line o sh cmd = Runs-test (fits str_size cmd) _ (λ whole e.
    Runs-test (quieted o whole) _ (λ actual q.
      Runs->>= 1 0 _ (λ line. Runs-given _) (run sh actual)
        (Runs-run sh actual (quieted-lt o whole actual (fits-lt str_size cmd whole e).1 q))))

-- An action that runs no command.
Runs-silent : {A : Type 0} (m : Looks A) → ((s : Lookup) → (m s).1.commands ≡ s.commands) → Runs 0 m
Runs-silent m same = record {
  short = λ s h. subst (All (λ cmd. length cmd < str_size)) (sym (same s)) h;
  few = λ s. omega (arith, ap length (same s));
}

Runs-store_paths :
    (o : Options) (sh : Shells) (pid : ℤ) (buf : Text) → Runs 0 (store_paths o sh pid buf)
unfolding store_paths
Runs-store_paths o sh pid buf = Runs-silent _ (λ s. ground arith)

Runs-get_php_bin_path : (o : Options) (sh : Shells) (pid : ℤ) → Runs 1 (get_php_bin_path o sh pid)
unfolding get_php_bin_path
Runs-get_php_bin_path o sh pid =
    Runs-test (shell_escape o.libname_awk_patt str_size) _
      (λ libname e. Runs->>= 1 0 _ (Runs-store_paths o sh pid) _ (Runs-popen_read_line o sh _))

-- An action that looks at the state first.
Runs-from :
    {A : Type 0} {n : ℕ} (m : Lookup → Looks A)
    → ((s : Lookup) → Runs n (m s))
    → Runs n (λ s. m s s)
Runs-from m h = record { short = λ s v. (h s).short s v; few = λ s. (h s).few s }

Runs-get_php_base_addr : (o : Options) (sh : Shells) (pid : ℤ) → Runs 2 (get_php_base_addr o sh pid)
unfolding get_php_base_addr
Runs-get_php_base_addr o sh pid = Runs-from _ (λ s.
    Runs-test (shell_escape s.memo.php_bin_path str_size) _ (λ path e.
      Runs->>= 1 1 _
        (λ start. Runs-test (shell_escape s.memo.php_bin_path_root str_size) _ (λ path_root q.
          Runs->>= 1 0 _ (λ virt. Runs-silent _ (λ s'. refl)) _ (Runs-popen_read_line o sh _)))
        _ (Runs-popen_read_line o sh _)))

pub Runs-get_symbol_offset :
    (o : Options) (sh : Shells) (symbol : Text) → Runs 1 (get_symbol_offset o sh symbol)
unfolding get_symbol_offset
Runs-get_symbol_offset o sh symbol = Runs-from _ (λ s.
    Runs-test (shell_escape s.memo.php_bin_path_root str_size) _
      (λ path_root e. Runs->>= 1 0 _ (λ line. Runs-return _) _ (Runs-popen_read_line o sh _)))

Runs-more : {A : Type 0} {n k : ℕ} (m : Looks A) → n ≤ k → Runs n m → Runs k m
Runs-more m le h = record { short = h.short; few = λ s. omega (arith, h.few s) }

Runs-some : {A : Type 0} (f : Lookup → A) → Runs 0 (λ s. (some (f s), s))
Runs-some f = Runs-silent _ (λ s. refl)

-- A lookup runs at most four commands, each of at most 255 bytes, whatever they print.
pub get_symbol_addr-Runs :
    (o : Options) (sh : Shells) (pid : ℤ) (symbol : Text) → Runs 4 (get_symbol_addr o sh pid symbol)
unfolding get_symbol_addr find_bin_path find_base_addr
get_symbol_addr-Runs o sh pid symbol =
    Runs->>= 1 3 _
      (λ path.
        Runs->>= 2 1 _
          (λ base. Runs->>= 1 0 _ (λ offset. Runs-return _) _ (Runs-get_symbol_offset o sh symbol))
          _
          (Runs-if (λ s. s.memo.php_base_addr == 0) _ _ (Runs-get_php_base_addr o sh pid)
            (Runs-more _ (omega arith) (Runs-some (λ s. s.memo.php_base_addr)))))
      _
      (Runs-if (λ s. is_unset s.memo.php_bin_path) _ _ (Runs-get_php_bin_path o sh pid)
        (Runs-more _ (omega arith) (Runs-some (λ s. s.memo.php_bin_path))))
