-- ===== src/Measure/I2c/Roles.antt =====
-- src/slidko/measure/i2c.py: which of two channels is the clock, and whether they are a bus at all.
use slidko.Prelude.{
  ℕ, ◌-◌, String, Bool, not, ◌&&◌, none, [], ◌∷◌, ◌==◌, if◌then◌else◌, bit, length, take, drop,
  Float, unit_clamp,
}
use slidko.Result.{Result, ok, err, value_error}
use slidko.Numpy.{Numpy, Statistics}
use slidko.Measure.Edges.{Channel, active_window}
use slidko.Measure.Intervals.{periodicity_strength}
use slidko.Measure.I2c.{I2cStartStop, detect_start_stop}
use slidko.Measure.Classify.{I2cClaim, Channels}

-- `signal[start:end]`
abbrev pub slice : ℕ × ℕ → Channel → Channel
slice (start, end) signal = take (end - start) (drop start signal)

pub record I2cRoleAssignment (F : Type 0) : Type 0 where
  pub scl_channel : String × Channel
  pub sda_channel : String × Channel
  pub confidence : F

abbrev pub has_structure : I2cStartStop → Bool
has_structure s =
    not (length s.starts == 0) && (not (length s.stops == 0) && length s.starts == length s.stops)

module _ {F : Type 0} ⦃fl : Float F⦄ where
  unfoldable pub roles_of : String × Channel → String × Channel → F → F → I2cRoleAssignment F
  roles_of a b strength_a strength_b =
      if fl.le strength_b strength_a
      then record {
        scl_channel = a;
        sda_channel = b;
        confidence = unit_clamp (fl.sub strength_a strength_b);
      }
      else record {
        scl_channel = b;
        sda_channel = a;
        confidence = unit_clamp (fl.sub strength_b strength_a);
      }

  -- The claim, from the roles.
  unfoldable pub structure_claim : ⦃np : Numpy⦄ → I2cRoleAssignment F → I2cClaim F
  structure_claim roles =
      let start_stop = detect_start_stop roles.scl_channel.1 roles.sda_channel.1 in
      let structure_term : F = fl.of_ℕ (bit (has_structure start_stop)) in
      record {
        scl_channel = roles.scl_channel.0;
        sda_channel = roles.sda_channel.0;
        start_count = length start_stop.starts;
        stop_count = length start_stop.stops;
        confidence = unit_clamp (fl.mul roles.confidence structure_term);
      }

  module _ ⦃np : Numpy⦄ ⦃st : Statistics F⦄ where
    unfoldable pub assign_pair : String × Channel → String × Channel → I2cRoleAssignment F
    assign_pair a b =
        let window = active_window (a.1 ∷ b.1 ∷ []) in
        roles_of a b (periodicity_strength (slice window a.1) none)
          (periodicity_strength (slice window b.1) none)

    unfoldable pub assign_roles : Channels → Result (I2cRoleAssignment F)
    unfolding assign_pair
    assign_roles (a ∷ b ∷ []) = ok (assign_pair a b)
    assign_roles _ = err (value_error "I2C role assignment expects exactly two channels")

    unfoldable pub classify_i2c : Channels → Result (I2cClaim F)
    unfolding assign_roles structure_claim
    classify_i2c channels = elim (assign_roles channels) [
      | err e ↦ err e
      | ok roles ↦ ok (structure_claim roles)
    ]
