-- ===== src/Base/Float.antt =====
-- The float64 operations that the program uses, as a parameter: the language gives them, and the
-- model needs no more of them than what a theorem names.
use Prim.Native.Nat.{ℕ, ◌+◌, ◌-◌, ◌*◌, ◌/◌, max, min}
use mathlib.Core.Path.{◌≡◌}
use mathlib.Core.Bool.{Bool, true, false}
use native.Mathlib.Omega.{arith}
use pipedpeer.Base.Tests.{ltb, leb}
use pipedpeer.Base.Int.{ℤ, pos, pos_part}

pub record FloatOps (F : Type 0) : Type 0 where
  pub of_int : ℤ → F
  -- int(x), which drops the fraction
  pub to_int : F → ℤ
  -- the number n / d that a decimal literal writes
  pub ratio : ℕ → ℕ → F
  pub inf : F
  pub add : F → F → F
  pub sub : F → F → F
  pub mul : F → F → F
  pub div : F → F → F
  pub lt : F → F → Bool
  pub le : F → F → Bool
  pub max : F → F → F
  pub min : F → F → F

-- `<` is a strict order: true of IEEE numbers, NaN included.
pub record OrderLaws {F : Type 0} (ops : FloatOps F) : Type 0 where
  pub lt_irrefl : (a : F) → ops.lt a a ≡ false
  pub lt_trans : (a b c : F) → ops.lt a b ≡ true → ops.lt b c ≡ true → ops.lt a c ≡ true

-- Whole numbers in the place of floats, for tests.
abbrev pub whole : FloatOps ℕ
whole = record {
  of_int = pos_part;
  to_int = pos;
  ratio = λ n d. n / d;
  inf = 1_000_000_000;
  add = ◌+◌;
  sub = ◌-◌;
  mul = ◌*◌;
  div = ◌/◌;
  lt = ltb;
  le = leb;
  max = max;
  min = min;
}

pub whole-OrderLaws : OrderLaws whole
whole-OrderLaws = record { lt_irrefl = λ a. ground arith; lt_trans = λ a b c p q. ground arith }
