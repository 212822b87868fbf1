-- ===== src/Base/Float.antt =====
-- Go's `float64` and package math, which the program calls: operations on bit patterns as a
-- parameter, and the facts of IEEE 754 that the theorems rest on.
use quake_mesh.Base.Tests.{ltb, leb, nat_beq}
use quake_mesh.Base.Int.{ℤ, pos}
use Prim.Native.Nat.{ℕ, ◌+◌, ◌-◌, ◌*◌, ◌/◌, ◌≤◌, max}
use mathlib.Core.Path.{◌≡◌, refl}
use mathlib.Core.Bool.{Bool, true, false}
use native.Mathlib.Omega.{arith}

pub record FloatOps : Type 0 where
  pub lt : ℕ → ℕ → Bool
  pub le : ℕ → ℕ → Bool
  pub eq : ℕ → ℕ → Bool
  pub add : ℕ → ℕ → ℕ
  pub sub : ℕ → ℕ → ℕ
  pub mul : ℕ → ℕ → ℕ
  pub div : ℕ → ℕ → ℕ
  pub neg : ℕ → ℕ
  pub abs : ℕ → ℕ
  -- The literal `m / 10 ^ k`.
  pub lit : ℕ → ℕ → ℕ
  -- The conversion of a `uint32` or of an `int` that is not negative.
  pub of_nat : ℕ → ℕ
  -- `math.Exp(-x)`.
  pub exp_neg : ℕ → ℕ
  pub log1p : ℕ → ℕ
  -- `int(math.Round(x))`.
  pub round : ℕ → ℤ

pub record Comparisons (f : FloatOps) : Type 0 where
  pub lt_irrefl : (a : ℕ) → f.lt a a ≡ false
  pub lt_asymm : (a b : ℕ) → f.lt a b ≡ true → f.lt b a ≡ false
  pub eq_comm : (a b : ℕ) → f.eq a b ≡ f.eq b a
  pub abs-sub_comm : (a b : ℕ) → f.abs (f.sub a b) ≡ f.abs (f.sub b a)
  pub zero-lt-one : f.lt (f.lit 0 0) (f.lit 1 0) ≡ true

-- A stand-in with which the theorems can be run: the number `n` is the pattern `1000 * n`.
abbrev pub pow10 : ℕ → ℕ
pow10 k = Prim.Native.Nat.◌^◌ 10 k

abbrev pub thousandths : FloatOps
thousandths = record {
  lt = ltb;
  le = leb;
  eq = nat_beq;
  add = ◌+◌;
  sub = λ a b. (a - b) + (b - a);
  mul = λ a b. a * b / 1000;
  div = λ a b. a * 1000 / b;
  neg = λ a. 0 - a;
  abs = λ a. a;
  lit = λ m k. m * 1000 / pow10 k;
  of_nat = λ n. n * 1000;
  exp_neg = λ x. 1000 - x;
  log1p = λ x. x;
  round = λ x. pos ((x + 500) / 1000);
}

pub thousandths-Comparisons : Comparisons thousandths
thousandths-Comparisons = record {
  lt_irrefl = λ a. ground arith;
  lt_asymm = λ a b h. ground arith;
  eq_comm = λ a b. ground arith;
  abs-sub_comm = λ a b. omega arith;
  zero-lt-one = refl;
}
