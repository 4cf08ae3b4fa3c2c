-- ===== src/Measure/Dshot/Laws.antt =====
-- A frame that is sent is read back.
use slidko.Prelude.{
  ℕ, zero, suc, ◌+◌, ◌*◌, ◌/◌, ◌%◌, ◌^◌, ◌≤◌, ◌<◌, ◌≡◌, refl, Bool, true, false, some, List, [],
  ◌∷◌, ◌++◌, arith, ◌==◌, bit,
}
use slidko.Measure.Dshot.{shift_in, dshot_checksum, frame_of}

-- The `k` lowest bits of `n`, the highest first.
unfoldable pub high_first : ℕ → ℕ → List Bool
high_first zero n = []
high_first (suc k) n = high_first k (n / 2) ++ (n % 2 == 1) ∷ []

-- The bits of a frame: the value, the telemetry bit, the checksum.
unfoldable pub frame_bits : ℕ → Bool → List Bool
frame_bits value telemetry =
    let data12 = value * 2 + bit telemetry in high_first 16 (data12 * 16 + dshot_checksum data12)

shift_in-append :
    (acc : ℕ) (bits : List Bool) (b : Bool)
    → shift_in acc (bits ++ b ∷ []) ≡ shift_in acc bits * 2 + bit b
unfolding shift_in
shift_in-append acc [] b = refl
shift_in-append acc (c ∷ bits) b = shift_in-append (acc * 2 + bit c) bits b

bit-odd : (n : ℕ) → bit (n % 2 == 1) ≡ n % 2
bit-odd n = ground arith

shift_in-high_first : (k n : ℕ) → n < 2 ^ k → shift_in 0 (high_first k n) ≡ n
unfolding high_first
shift_in-high_first zero n h = unfold shift_in in omega (arith, h)
shift_in-high_first (suc k) n h =
    let rest = shift_in-high_first k (n / 2) (omega (arith, h)) in
    let last = shift_in-append 0 (high_first k (n / 2)) (n % 2 == 1) in
    let odd = bit-odd n in omega arith

is_odd : (value : ℕ) (t : Bool) → ((value * 2 + bit t) % 2 == 1) ≡ t
is_odd value true = ground arith
is_odd value false = ground arith

bit_le : (t : Bool) → bit t ≤ 1
bit_le true = omega arith
bit_le false = omega arith

-- A frame of a value below 2048 and a telemetry bit, with the checksum of both, is read back as that value and that
-- bit, and its checksum is accepted.
pub frame_of-frame_bits :
    (value : ℕ) (telemetry : Bool)
    → value < 2048
    → frame_of (frame_bits value telemetry) ≡ (some value, telemetry, true)
unfolding frame_of frame_bits
frame_of-frame_bits value telemetry h =
    let small = bit_le telemetry in
    let data12 : ℕ = value * 2 + bit telemetry in
    let crc : dshot_checksum data12 < 16 = unfold dshot_checksum in omega arith in
    let frame : ℕ = data12 * 16 + dshot_checksum data12 in
    let whole : shift_in 0 (high_first 16 frame) ≡ frame =
      shift_in-high_first 16 frame (omega arith) in
    let upper : frame / 16 ≡ data12 = omega arith in
    let lower_bits : frame % 16 ≡ dshot_checksum data12 = omega arith in
    let number : data12 / 2 ≡ value = omega arith in
    let same : (dshot_checksum data12 == dshot_checksum data12) ≡ true = ground arith in
    rw (whole, upper, lower_bits, number, is_odd value telemetry, same) refl
