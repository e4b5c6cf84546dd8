-- ===== src/Base/Int.antt =====
-- Python's integers where they may be negative, with the tests that the code makes.
use Prim.Native.Nat.{ℕ}
use mathlib.Core.Path.{◌≡◌}
use mathlib.Core.Logic.{◌↔◌}
use mathlib.Core.Bool.{Bool, true, false}
use mathlib.Core.Option.{Option, none, some}
use native.Mathlib.Omega.{arith}
use ai_agent_desktop.Base.Tests.{◌==◌}

-- `negsuc n` is -(n + 1).
pub data ℤ : Type 0 where
  pos : ℕ → ℤ
  negsuc : ℕ → ℤ

abbrev pub int_eq : ℤ → ℤ → Bool
int_eq (pos a) (pos b) = a == b
int_eq (negsuc a) (negsuc b) = a == b
int_eq _ _ = false

pub int_eq_iff : (a b : ℤ) → (int_eq a b ≡ true) ↔ (a ≡ b)
int_eq_iff (pos a) (pos b) = ground arith
int_eq_iff (pos a) (negsuc b) = ground arith
int_eq_iff (negsuc a) (pos b) = ground arith
int_eq_iff (negsuc a) (negsuc b) = ground arith

-- `a == b` where either may be `None`.
abbrev pub opt_int_eq : Option ℤ → Option ℤ → Bool
opt_int_eq none none = true
opt_int_eq (some a) (some b) = int_eq a b
opt_int_eq _ _ = false

pub opt_int_eq_iff : (a b : Option ℤ) → (opt_int_eq a b ≡ true) ↔ (a ≡ b)
opt_int_eq_iff none none = ground arith
opt_int_eq_iff none (some b) = ground arith
opt_int_eq_iff (some a) none = ground arith
opt_int_eq_iff (some a) (some b) = ground (arith, int_eq_iff a b)
