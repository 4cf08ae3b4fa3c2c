-- ===== src/Prelude/Floats.antt =====
-- Python's `float`, as any type with the operations that the program applies to one. The laws that
-- a theorem needs are its hypotheses.
use Prim.Native.Nat.{ℕ}
use Prim.Native.String.{String}
use mathlib.Core.Bool.{Bool, ◌&&◌}
use slidko.Prelude.Tests.{if◌then◌else◌}

-- `decimal m e` is the literal m * 10^(-e); `round` is Python's on values that are not negative;
-- `trunc` is `int` on such values;
-- `fixed n x` is `f"{x:.nf}"` `percent n x` is `f"{x:.n%}"`, `repr` is `str`.
pub record Float (F : Type 0) : Type 0 where
  pub of_ℕ : ℕ → F
  pub decimal : ℕ → ℕ → F
  pub add : F → F → F
  pub sub : F → F → F
  pub mul : F → F → F
  pub div : F → F → F
  pub lt : F → F → Bool
  pub le : F → F → Bool
  pub round : F → ℕ
  pub trunc : F → ℕ
  pub fixed : ℕ → F → String
  pub percent : ℕ → F → String
  pub repr : F → String
  pub abs : F → F

module _ {F : Type 0} ⦃fl : Float F⦄ where
  -- `max(a, b)` and `min(a, b)`: the first of two equal values.
  abbrev pub float_max : F → F → F
  float_max a b = if fl.lt a b then b else a

  abbrev pub float_min : F → F → F
  float_min a b = if fl.lt b a then b else a

  -- `max(0.0, min(1.0, x))`
  abbrev pub unit_clamp : F → F
  unit_clamp x = float_max (fl.of_ℕ 0) (float_min (fl.of_ℕ 1) x)

  -- `lo <= x <= hi`
  abbrev pub is_between : F → F → F → Bool
  is_between lo hi x = fl.le lo x && fl.le x hi
