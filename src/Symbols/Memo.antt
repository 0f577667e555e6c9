-- ===== src/Symbols/Memo.antt =====
-- What one lookup finds is not looked up again by the next.
use phpspy.Prelude.{
  ℕ, suc, ◌+◌, ◌-◌, ◌%◌, ◌^◌, ◌≤◌, ◌≡◌, ◌≢◌, inl, inr, refl, ap, ◌∙◌, ◌==◌, if◌then◌else◌, Bool,
  true, false, Option, none, some, [], ◌∷◌, arith, length, Bool-cases,
}
use phpspy.Prelude.Text.{Text, c_str, snprintf}
use phpspy.Prelude.Int.{ℤ}
use phpspy.Options.{Options}
use phpspy.Shell.{shell_escape}
use phpspy.Symbols.{
  AddrMemo, Shells, Lookup, Looks, after, ◌>>=◌, return, given, run, fits, quieted, strip_one,
  strip_newlines, nonempty, popen_read_line, store_paths, bin_path_command, get_php_bin_path,
  get_php_base_addr, get_symbol_offset, find_bin_path, find_base_addr, get_symbol_addr, str_size,
  is_unset,
}
use phpspy.Symbols.Commands.{Runs->>=, Runs-return, Runs-get_symbol_offset}

-- What holds of a result and the state after it, where there is a result.
abbrev Ensures : {A : Type 0} → Looks A → (A → Lookup → Type 0) → Type 0
Ensures {A = A} m Q = (s : Lookup) (a : A) → (m s).0 ≡ some a → Q a (m s).1

after-Ensures :
    {A B : Type 0} (f : A → Looks B) (Q : A → Lookup → Type 0) (R : B → Lookup → Type 0)
    → ((a : A) (s : Lookup) → Q a s → (b : B) → (f a s).0 ≡ some b → R b (f a s).1)
    → (o : Option A) (s : Lookup) → ((a : A) → o ≡ some a → Q a s)
    → (b : B) → (after f o s).0 ≡ some b
    → R b (after f o s).1
after-Ensures f Q R h none s v b e = absurd (ground arith)
after-Ensures f Q R h (some a) s v b e = h a s (v a refl) b e

>>=-Ensures :
    {A B : Type 0} (m : Looks A) (f : A → Looks B) (Q : A → Lookup → Type 0)
    (R : B → Lookup → Type 0)
    → Ensures m Q
    → ((a : A) (s : Lookup) → Q a s → (b : B) → (f a s).0 ≡ some b → R b (f a s).1)
    → Ensures (m >>= f) R
unfolding ◌>>=◌
>>=-Ensures m f Q R hm hf s b e = after-Ensures f Q R hf (m s).0 (m s).1 (hm s) b e

-- A line that `popen_read_line` returns is not empty.
is_unset-c_str : (t : Text) → c_str t ≢ [] → is_unset (c_str t) ≡ false
unfolding c_str
is_unset-c_str [] h = absurd (h refl)
is_unset-c_str (c ∷ t) h = elim (Bool-cases (c == 0)) [
  | inl e ↦ absurd (h (rw e refl))
  | inr e ↦ rw e e
]

is_unset-strip_one :
    (c : ℕ) (t u : Text) → (c == 0) ≡ false → nonempty (strip_one c t) ≡ some u → is_unset u ≡ false
unfolding nonempty
is_unset-strip_one c [] u h e = ground (arith, e)
is_unset-strip_one c (d ∷ ds) u h e = ground (arith, e)

is_unset-nonempty : (t u : Text) → nonempty (strip_newlines (c_str t)) ≡ some u → is_unset u ≡ false
unfolding strip_newlines c_str nonempty
is_unset-nonempty [] u e = absurd (ground arith)
is_unset-nonempty (c ∷ t) u e = elim (Bool-cases (c == 0)) [
  | inl z ↦ absurd (ground (arith, e))
  | inr z ↦ is_unset-strip_one c (strip_newlines (c_str t)) u z (ground (arith, e, z))
]

Ensures-popen_read_line :
    (o : Options) (sh : Shells) (cmd : Text)
    → Ensures (popen_read_line o sh cmd) (λ line s. is_unset line ≡ false)
unfolding popen_read_line given
Ensures-popen_read_line o sh cmd =
    let Q : Text → Lookup → Type 0 = λ line s. is_unset line ≡ false in
    >>=-Ensures (given (fits str_size cmd)) _ (λ a s. Unit) Q (λ s a e. tt)
      (λ whole s u.
        >>=-Ensures (given (quieted o whole)) _ (λ a s. Unit) Q (λ s a e. tt)
          (λ actual s u.
            >>=-Ensures (run sh actual) _ (λ a s. Unit) Q (λ s a e. tt)
              (λ line s u b e. is_unset-nonempty (snprintf (str_size - 1) line) b e) s)
          s)

-- After a success, the path is known.
Ensures-store_paths :
    (o : Options) (sh : Shells) (pid : ℤ) (buf : Text)
    → Ensures (store_paths o sh pid buf) (λ a s. s.memo.php_bin_path ≡ buf)
unfolding store_paths
Ensures-store_paths o sh pid buf s a e = ground (arith, e)

abbrev Knows : Lookup → Type 0
Knows s = is_unset s.memo.php_bin_path ≡ false

Ensures-get_php_bin_path :
    (o : Options) (sh : Shells) (pid : ℤ) → Ensures (get_php_bin_path o sh pid) (λ a s. Knows s)
unfolding get_php_bin_path
Ensures-get_php_bin_path o sh pid =
    let Q : Text → Lookup → Type 0 = λ a s. Knows s in
    >>=-Ensures (given (shell_escape o.libname_awk_patt str_size)) _ (λ a s. Unit) Q (λ s a e. tt)
      (λ libname s u.
        >>=-Ensures (popen_read_line o sh (bin_path_command libname pid)) (store_paths o sh pid)
          (λ line s. is_unset line ≡ false) Q
          (Ensures-popen_read_line o sh (bin_path_command libname pid))
          (λ buf s set a e. rw (Ensures-store_paths o sh pid buf s a e) set) s)

if-Ensures :
    {A : Type 0} (b : Bool) (x y : Option A × Lookup) (Q : A → Lookup → Type 0)
    → (b ≡ true → (a : A) → x.0 ≡ some a → Q a x.1)
    → (b ≡ false → (a : A) → y.0 ≡ some a → Q a y.1)
    → (a : A) → (if b then x else y).0 ≡ some a
    → Q a (if b then x else y).1
if-Ensures true x y Q hx hy = hx refl
if-Ensures false x y Q hx hy = hy refl

Ensures-find_bin_path :
    (o : Options) (sh : Shells) (pid : ℤ) → Ensures (find_bin_path o sh pid) (λ a s. Knows s)
unfolding find_bin_path
Ensures-find_bin_path o sh pid s a e =
    if-Ensures (is_unset s.memo.php_bin_path) (get_php_bin_path o sh pid s)
      (some s.memo.php_bin_path, s) (λ a s. Knows s) (λ unset. Ensures-get_php_bin_path o sh pid s)
      (λ set a e. set) a e

module _ {X : Type 0} (view : AddrMemo → X) where
  -- An action that leaves a part of the memo as it is.
  abbrev Same : {A : Type 0} → Looks A → Type 0
  Same m = (s : Lookup) → view (m s).1.memo ≡ view s.memo

  after-Same :
      {A B : Type 0} (f : A → Looks B)
      → ((a : A) → Same (f a))
      → (o : Option A) (s : Lookup) → view (after f o s).1.memo ≡ view s.memo
  after-Same f h none s = refl
  after-Same f h (some a) s = h a s

  >>=-Same :
      {A B : Type 0} (m : Looks A) (f : A → Looks B)
      → Same m
      → ((a : A) → Same (f a))
      → Same (m >>= f)
  unfolding ◌>>=◌
  >>=-Same m f hm hf s = after-Same f hf (m s).0 (m s).1 ∙ hm s

  popen_read_line-Same : (o : Options) (sh : Shells) (cmd : Text) → Same (popen_read_line o sh cmd)
  unfolding popen_read_line given run
  popen_read_line-Same o sh cmd =
      >>=-Same _ _ (λ s. refl)
        (λ whole.
          >>=-Same _ _ (λ s. refl)
            (λ actual. >>=-Same (run sh actual) _ (λ s. refl) (λ line s. refl)))

abbrev path_of : AddrMemo → Text
path_of m = m.php_bin_path

get_php_base_addr-Same :
    (o : Options) (sh : Shells) (pid : ℤ) → Same path_of (get_php_base_addr o sh pid)
unfolding get_php_base_addr given
get_php_base_addr-Same o sh pid s =
    >>=-Same path_of (given (shell_escape s.memo.php_bin_path str_size)) _ (λ s. refl)
      (λ path. >>=-Same path_of _ _ (popen_read_line-Same path_of o sh _) (λ start.
        >>=-Same path_of (given (shell_escape s.memo.php_bin_path_root str_size)) _ (λ s. refl)
          (λ path_root.
            >>=-Same path_of _ _ (popen_read_line-Same path_of o sh _) (λ virt s'. refl))))
      s

find_base_addr-Same : (o : Options) (sh : Shells) (pid : ℤ) → Same path_of (find_base_addr o sh pid)
unfolding find_base_addr
find_base_addr-Same o sh pid s = elim (Bool-cases (s.memo.php_base_addr == 0)) [
  | inl u ↦ rw u (get_php_base_addr-Same o sh pid s)
  | inr k ↦ ground (arith, k)
]

get_symbol_offset-Same :
    (o : Options) (sh : Shells) (symbol : Text) → Same (λ m. m) (get_symbol_offset o sh symbol)
unfolding get_symbol_offset given return
get_symbol_offset-Same o sh symbol s =
    >>=-Same (λ m. m) (given (shell_escape s.memo.php_bin_path_root str_size)) _ (λ s. refl)
      (λ path_root. >>=-Same (λ m. m) _ _ (popen_read_line-Same (λ m. m) o sh _) (λ line s. refl)) s

-- A lookup that succeeds knows the path.
Ensures-get_symbol_addr :
    (o : Options) (sh : Shells) (pid : ℤ) (symbol : Text)
    → Ensures (get_symbol_addr o sh pid symbol) (λ a s. Knows s)
unfolding get_symbol_addr return
Ensures-get_symbol_addr o sh pid symbol =
    let Q : ℕ → Lookup → Type 0 = λ a s. Knows s in
    >>=-Ensures (find_bin_path o sh pid) _ (λ a s. Knows s) Q (Ensures-find_bin_path o sh pid)
      (λ path s known b e.
        let same =
          >>=-Same path_of (find_base_addr o sh pid) _ (find_base_addr-Same o sh pid)
            (λ base.
              >>=-Same path_of (get_symbol_offset o sh symbol) _
                (λ s. ap path_of (get_symbol_offset-Same o sh symbol s)) (λ offset s. refl))
            s in
        ap is_unset same ∙ known)

-- What is known is not looked up.
known_lookup :
    (o : Options) (sh : Shells) (pid : ℤ) (symbol : Text) (s : Lookup)
    → Knows s
    → (s.memo.php_base_addr == 0) ≡ false
    → get_symbol_addr o sh pid symbol s
      ≡ (get_symbol_offset o sh symbol >>= λ offset.
            return ((s.memo.php_base_addr + offset) % 2 ^ 64))
          s
unfolding get_symbol_addr find_bin_path find_base_addr ◌>>=◌
known_lookup o sh pid symbol s known based = rw (known, based)

cached :
    (o : Options) (sh : Shells) (symbol : Text) (s : Lookup)
    → let u =
        (get_symbol_offset o sh symbol >>= λ offset.
        return ((s.memo.php_base_addr + offset) % 2 ^ 64))
          s in
      (u.1.memo ≡ s.memo) × (length u.1.commands ≤ suc (length s.commands))
unfolding return
cached o sh symbol s =
    let sum : ℕ → Looks ℕ = λ offset. return ((s.memo.php_base_addr + offset) % 2 ^ 64) in
    let runs = Runs->>= 1 0 sum (λ offset. Runs-return _) _ (Runs-get_symbol_offset o sh symbol) in
    (
      >>=-Same (λ m. m) (get_symbol_offset o sh symbol) sum (get_symbol_offset-Same o sh symbol)
          (λ offset s. refl) s,
      omega (arith, runs.few s),
    )

-- When a lookup has succeeded and left a base address other than 0, a lookup of any symbol after it
-- runs at most one command and leaves the memo as it is.
pub get_symbol_addr-again :
    (o : Options) (sh : Shells) (pid : ℤ) (symbol again : Text) (s : Lookup) (raddr : ℕ)
    → (get_symbol_addr o sh pid symbol s).0 ≡ some raddr
    → ((get_symbol_addr o sh pid symbol s).1.memo.php_base_addr == 0) ≡ false
    → let t = (get_symbol_addr o sh pid symbol s).1 in
      let u = (get_symbol_addr o sh pid again t).1 in
      (u.memo ≡ t.memo) × (length u.commands ≤ suc (length t.commands))
get_symbol_addr-again o sh pid symbol again s raddr e based =
    let t = (get_symbol_addr o sh pid symbol s).1 in
    let known = Ensures-get_symbol_addr o sh pid symbol s raddr e in
    rw (known_lookup o sh pid again t known based) (cached o sh again t)
