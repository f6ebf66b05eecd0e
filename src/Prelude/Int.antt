-- ===== src/Prelude/Int.antt =====
-- int64 values as integers: `negsuc n` is -(n + 1).
use Prim.Native.Nat.{ℕ}
use mathlib.Core.Path.{◌≡◌}
use mathlib.Core.Logic.{◌↔◌}
use mathlib.Core.Bool.{Bool, true, false}
use native.Mathlib.Omega.{arith}
use syncat.Prelude.Tests.{◌==◌, ltb}

pub data ℤ : Type 0 where
  pos : ℕ → ℤ
  negsuc : ℕ → ℤ

abbrev pub int_lt : ℤ → ℤ → Bool
int_lt (pos a) (pos b) = ltb a b
int_lt (pos a) (negsuc b) = false
int_lt (negsuc a) (pos b) = true
int_lt (negsuc a) (negsuc b) = ltb b a

abbrev pub int_eq : ℤ → ℤ → Bool
int_eq (pos a) (pos b) = a == b
int_eq (pos a) (negsuc b) = false
int_eq (negsuc a) (pos b) = false
int_eq (negsuc a) (negsuc b) = a == b

pub int_eq_iff : (a b : ℤ) → (int_eq a b ≡ true) ↔ (a ≡ b)
int_eq_iff (pos a) (pos b) = ground arith
int_eq_iff (pos a) (negsuc b) = ground arith
int_eq_iff (negsuc a) (pos b) = ground arith
int_eq_iff (negsuc a) (negsuc b) = ground arith

-- Of two different integers exactly one is below the other.
pub int_lt-asymm : (a b : ℤ) → int_lt a b ≡ true → int_lt b a ≡ false
int_lt-asymm (pos a) (pos b) h = ground arith
int_lt-asymm (pos a) (negsuc b) h = ground arith
int_lt-asymm (negsuc a) (pos b) h = ground arith
int_lt-asymm (negsuc a) (negsuc b) h = ground arith

pub int_lt-total : (a b : ℤ) → int_eq a b ≡ false → int_lt a b ≡ false → int_lt b a ≡ true
int_lt-total (pos a) (pos b) e h = ground arith
int_lt-total (pos a) (negsuc b) e h = ground arith
int_lt-total (negsuc a) (pos b) e h = ground arith
int_lt-total (negsuc a) (negsuc b) e h = ground arith

pub int_lt_irrefl : (a : ℤ) → int_lt a a ≡ false
int_lt_irrefl (pos a) = ground arith
int_lt_irrefl (negsuc a) = ground arith

-- Being at least another integer is transitive.
pub int_lt_mono : (a b c : ℤ) → int_lt b a ≡ false → int_lt c b ≡ false → int_lt c a ≡ false
int_lt_mono (pos a) (pos b) (pos c) h k = ground arith
int_lt_mono (pos a) (pos b) (negsuc c) h k = ground arith
int_lt_mono (pos a) (negsuc b) (pos c) h k = ground arith
int_lt_mono (pos a) (negsuc b) (negsuc c) h k = ground arith
int_lt_mono (negsuc a) (pos b) (pos c) h k = ground arith
int_lt_mono (negsuc a) (pos b) (negsuc c) h k = ground arith
int_lt_mono (negsuc a) (negsuc b) (pos c) h k = ground arith
int_lt_mono (negsuc a) (negsuc b) (negsuc c) h k = ground arith
