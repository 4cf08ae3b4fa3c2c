-- ===== src/Prelude/Ratio.antt =====
-- Fractions of whole numbers: a type of floats that runs, for the concrete inputs. Subtraction
-- stops at 0, and `round` takes a tie to the even neighbour.
use Prim.Native.Nat.{ℕ, ◌+◌, ◌-◌, ◌*◌, ◌/◌, ◌%◌, ◌^◌}
use slidko.Prelude.Tests.{if◌then◌else◌, ltb, leb, ◌==◌}
use slidko.Prelude.Text.{show}
use slidko.Prelude.Floats.{Float}

pub record Ratio : Type 0 where
  pub num : ℕ
  pub den : ℕ

abbrev pub ratio : ℕ → ℕ → Ratio
ratio n d = record { num = n; den = d }

abbrev round_ratio : Ratio → ℕ
round_ratio r =
    let down = r.num / r.den in
    let twice = 2 * (r.num % r.den) in
    if ltb twice r.den
    then down
    else if ltb r.den twice
    then down + 1
    else if down % 2 == 0
    then down
    else down + 1

instance abbrev pub ratio_float : Float Ratio
ratio_float = record {
  of_ℕ = λ n. ratio n 1;
  decimal = λ m e. ratio m (10 ^ e);
  add = λ a b. ratio (a.num * b.den + b.num * a.den) (a.den * b.den);
  sub = λ a b. ratio (a.num * b.den - b.num * a.den) (a.den * b.den);
  mul = λ a b. ratio (a.num * b.num) (a.den * b.den);
  div = λ a b. ratio (a.num * b.den) (a.den * b.num);
  lt = λ a b. ltb (a.num * b.den) (b.num * a.den);
  le = λ a b. leb (a.num * b.den) (b.num * a.den);
  round = round_ratio;
  trunc = λ r. r.num / r.den;
  fixed = λ n r. show (round_ratio r);
  percent = λ n r. show (round_ratio (ratio (100 * r.num) r.den));
  repr = λ r. show (round_ratio r);
  abs = λ r. r;
}
