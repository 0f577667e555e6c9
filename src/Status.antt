-- ===== src/Status.antt =====
-- The status codes of phpspy.h: an `int` whose four low bits are PHPSPY_ERR and its companions.
-- A status is the record of these bits, and `rv |= f()` is `◌⊔◌`.
use phpspy.Prelude.{Bool, true, false, ◌||◌, not, ◌≡◌, arith}

pub record Status : Type 0 where
  pub failed : Bool
  pub pid_dead : Bool
  pub truncated : Bool
  pub skipped : Bool

abbrev pub ok : Status
ok = record { failed = false; pid_dead = false; truncated = false; skipped = false }

abbrev pub err : Status
err = record ok { failed = true }

abbrev pub err_truncated : Status
err_truncated = record ok { truncated = true }

abbrev pub err_skipped : Status
err_skipped = record ok { skipped = true }

-- `PHPSPY_ERR | PHPSPY_ERR_PID_DEAD`
abbrev pub err_dead : Status
err_dead = record err { pid_dead = true }

infixl 30 ◌⊔◌
abbrev pub ◌⊔◌ : Status → Status → Status
s ⊔ t = record {
  failed = s.failed || t.failed;
  pid_dead = s.pid_dead || t.pid_dead;
  truncated = s.truncated || t.truncated;
  skipped = s.skipped || t.skipped;
}

-- `rv == PHPSPY_OK`
abbrev pub is_ok : Status → Bool
is_ok s = not (s.failed || s.pid_dead || s.truncated || s.skipped)

pub is_ok-eq : (s : Status) → is_ok s ≡ true → s ≡ ok
is_ok-eq s h = ground arith

pub ⊔_assoc : (s t u : Status) → (s ⊔ t) ⊔ u ≡ s ⊔ (t ⊔ u)
⊔_assoc s t u = ground arith

pub ok_⊔ : (s : Status) → ok ⊔ s ≡ s
ok_⊔ s = ground arith
