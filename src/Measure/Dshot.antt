-- ===== src/Measure/Dshot.antt =====
-- src/slidko/measure/dshot.py: the rate of a DShot line, and its 16-bit frames.
use slidko.Prelude.{
  ℕ, ◌+◌, ◌-◌, ◌*◌, ◌/◌, ◌%◌, Bool, false, ◌&&◌, ◌||◌, Option, none, some, List, [], ◌∷◌, map, ltb,
  ◌==◌, if◌then◌else◌, bit, length, take, count_if, Float, is_between,
}
use Prim.Native.Nat.{bit_xor}
use slidko.Numpy.{Numpy}
use slidko.Measure.Edges.{Channel}
use slidko.Measure.Edges.Pulses.{pulse_cells_ns, high_pulse_durations_ns}
pub mod Laws
pub mod Wave

pub data Rate : Type 0 where
  dshot150 dshot300 dshot600 : Rate

-- The keys and rows of `DSHOT_TIMING_NS`.
unfoldable pub rate_number : Rate → ℕ
rate_number dshot150 = 150
rate_number dshot300 = 300
rate_number dshot600 = 600

abbrev pub bit_period_ns : Rate → ℕ
bit_period_ns dshot150 = 6670
bit_period_ns dshot300 = 3330
bit_period_ns dshot600 = 1670

abbrev pub t0h_ns : Rate → ℕ
t0h_ns dshot150 = 2500
t0h_ns dshot300 = 1250
t0h_ns dshot600 = 625

abbrev pub t1h_ns : Rate → ℕ
t1h_ns dshot150 = 5000
t1h_ns dshot300 = 2500
t1h_ns dshot600 = 1250

abbrev pub timing_window_ns : ℕ
timing_window_ns = 150

-- `& 0x0F` of a number that is not negative.
unfoldable pub dshot_checksum : ℕ → ℕ
dshot_checksum data12 = bit_xor (bit_xor data12 (data12 / 16)) (data12 / 256) % 16

module _ {F : Type 0} ⦃fl : Float F⦄ where
  abbrev pub in_window : ℕ → F → Bool
  in_window center x =
      is_between (fl.of_ℕ (center - timing_window_ns)) (fl.of_ℕ (center + timing_window_ns)) x

  unfoldable pub cell_matches : Rate → F × F → Bool
  cell_matches rate (h, p) =
      in_window (bit_period_ns rate) p && (in_window (t0h_ns rate) h || in_window (t1h_ns rate) h)

  -- `[(h, p) for h, p in cells if p == p]`
  unfoldable pub whole_cells : List (F × Option F) → List (F × F)
  whole_cells [] = []
  whole_cells ((h, none) ∷ cells) = whole_cells cells
  whole_cells ((h, some p) ∷ cells) = (h, p) ∷ whole_cells cells

  abbrev share : List (F × F) → Rate → F
  share cells rate = fl.div (fl.of_ℕ (count_if (cell_matches rate) cells)) (fl.of_ℕ (length cells))

  -- The loop over the rates.
  unfoldable pub best_rate : List (F × F) → Option Rate × F → List Rate → Option Rate × F
  best_rate cells best [] = best
  best_rate cells (rate, best_confidence) (r ∷ rates) =
      let confidence = share cells r in
      if fl.lt best_confidence confidence
      then best_rate cells (some r, confidence) rates
      else best_rate cells (rate, best_confidence) rates

  abbrev pub rate_of : List (F × F) → Option Rate × F
  rate_of [] = (none, fl.of_ℕ 0)
  rate_of (c ∷ cells) =
      best_rate (c ∷ cells) (none, fl.of_ℕ 0) (dshot150 ∷ dshot300 ∷ dshot600 ∷ [])

  module _ ⦃np : Numpy⦄ where
    unfoldable pub recognize_rate : Channel → ℕ → Option Rate × F
    recognize_rate channel samplerate_hz =
        rate_of (whole_cells (pulse_cells_ns channel samplerate_hz))

-- `frame16 = (frame16 << 1) | int(b)`, over the bits.
unfoldable pub shift_in : ℕ → List Bool → ℕ
shift_in frame16 [] = frame16
shift_in frame16 (b ∷ bits) = shift_in (frame16 * 2 + bit b) bits

-- What a frame of 16 bits says: the value, the telemetry bit, whether the checksum fits.
unfoldable pub frame_of : List Bool → Option ℕ × Bool × Bool
unfolding shift_in dshot_checksum
frame_of bits =
    let frame16 = shift_in 0 bits in
    let data12 = frame16 / 16 in
    let crc = frame16 % 16 in (some (data12 / 2), data12 % 2 == 1, dshot_checksum data12 == crc)

module _ {F : Type 0} ⦃fl : Float F⦄ where
  abbrev pub is_long_pulse : Rate → F → Bool
  is_long_pulse rate d = fl.lt (fl.div (fl.of_ℕ (t0h_ns rate + t1h_ns rate)) (fl.of_ℕ 2)) d

  abbrev pub frame_at : Rate → List F → Option ℕ × Bool × Bool
  frame_at rate durations_ns =
      if ltb (length durations_ns) 16
      then (none, false, false)
      else frame_of (map (is_long_pulse rate) (take 16 durations_ns))

module _ (F : Type 0) ⦃fl : Float F⦄ ⦃np : Numpy⦄ where
  unfoldable pub decode_frame : Channel → ℕ → Rate → Option ℕ × Bool × Bool
  decode_frame channel samplerate_hz rate =
      frame_at {F = F} rate (high_pulse_durations_ns channel samplerate_hz)
