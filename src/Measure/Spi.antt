-- ===== src/Measure/Spi.antt =====
-- src/slidko/measure/spi.py: which of three channels is the clock, the chip select and the data line, and in which
-- mode they run. The channels of a capture have the same length.
use slidko.Prelude.{
  ℕ, zero, suc, ◌+◌, ◌/◌, String, Bool, true, false, not, ◌&&◌, none, List, [], ◌∷◌, map, ltb, leb,
  ◌==◌, if◌then◌else◌, bool_eq, bit, length, get_or, take, drop, any, count_if, Float, unit_clamp,
  is_nonzero,
}
use slidko.Result.{Result, ok, err, value_error}
use slidko.Numpy.{Numpy, Statistics}
use slidko.Measure.Edges.{Edge, Channel, extract_edges, active_window, as_int}
use slidko.Measure.Intervals.{periodicity_strength}
use slidko.Measure.Dshot.{shift_in}
use slidko.Measure.I2c.Roles.{slice}
use slidko.Measure.Classify.{SpiClaim, Channels}
pub mod Laws

pub record SpiModeEstimate (F : Type 0) : Type 0 where
  pub cpol : ℕ
  pub cpha : ℕ
  pub confidence : F

pub record SpiRoleAssignment (F : Type 0) : Type 0 where
  pub clock_channel : String × Channel
  pub cs_channel : String × Channel
  pub data_channel : String × Channel
  pub confidence : F

-- `np.count_nonzero(np.diff(signal.astype(int)))`
unfoldable pub transition_count : ⦃np : Numpy⦄ → Channel → ℕ
transition_count ⦃np⦄ signal = count_if is_nonzero (np.diff (as_int signal))

-- The channel with the fewest transitions, the first of several, and the other two in order.
unfoldable pub split_cs :
    ⦃np : Numpy⦄
    → String × Channel
    → String × Channel
    → String × Channel
    → (String × Channel) × (String × Channel) × (String × Channel)
split_cs a b c =
    let ta = transition_count a.1 in
    let tb = transition_count b.1 in
    let tc = transition_count c.1 in
    if ltb tb ta
    then (if ltb tc tb then (c, a, b) else (b, a, c))
    else if ltb tc ta
    then (c, a, b)
    else (a, b, c)

-- The loop of `_decode_bits` from a sample on: `prev` is the clock before it.
unfoldable pub decode_scan : Bool → Bool → Bool → Channel → Channel → List Bool
decode_scan clock_idle sample_on_leading prev [] data_line = []
decode_scan clock_idle sample_on_leading prev (level ∷ clock) [] = []
decode_scan clock_idle sample_on_leading prev (level ∷ clock) (d ∷ data_line) =
    let bits = decode_scan clock_idle sample_on_leading level clock data_line in
    let is_leading = not (bool_eq level clock_idle) in
    if bool_eq level prev
    then bits
    else if bool_eq is_leading sample_on_leading
    then d ∷ bits
    else bits

unfoldable pub decode_bits : Channel → Channel → ℕ → ℕ → List Bool
unfolding decode_scan
decode_bits clock data_line cpol cpha =
    let clock_idle = not (cpol == 0) in
    decode_scan clock_idle (cpha == 0) clock_idle (drop 1 clock) (drop 1 data_line)

-- How many of the first `n_bytes` bytes are printable.
unfoldable pub printable_bytes : ℕ → List Bool → ℕ
printable_bytes zero bits = 0
printable_bytes (suc n_bytes) bits =
    let value = shift_in 0 (take 8 bits) in
    (if leb 0x20 value && leb value 0x7E then 1 else 0) + printable_bytes n_bytes (drop 8 bits)

-- `clock[idle_mask]`
abbrev masked : Channel → Channel → Channel
masked [] clock = []
masked (m ∷ mask) [] = []
masked (m ∷ mask) (b ∷ clock) = let rest = masked mask clock in if m then b ∷ rest else rest

module _ {F : Type 0} ⦃fl : Float F⦄ where
  unfoldable pub coherence_score : List Bool → F
  coherence_score bits =
      let n_bytes = length bits / 8 in
      if ltb (length bits) 8
      then fl.of_ℕ 0
      else fl.div (fl.of_ℕ (printable_bytes n_bytes bits)) (fl.of_ℕ n_bytes)

  unfoldable pub detect_cpha : Channel → Channel → ℕ → SpiModeEstimate F
  detect_cpha clock data_line cpol =
      let score0 : F = coherence_score (decode_bits clock data_line cpol 0) in
      let score1 : F = coherence_score (decode_bits clock data_line cpol 1) in
      if fl.le score1 score0
      then record { cpol = cpol; cpha = 0; confidence = unit_clamp (fl.sub score0 score1) }
      else record { cpol = cpol; cpha = 1; confidence = unit_clamp (fl.sub score1 score0) }

  abbrev confinement : Channel → List Edge → F → F
  confinement cs [] transition_term = fl.of_ℕ 0
  confinement cs (e ∷ clock_edges) transition_term =
      let confined = count_if (λ (x : Edge). not (get_or cs x.0 false)) (e ∷ clock_edges) in
      fl.mul transition_term (fl.div (fl.of_ℕ confined) (fl.of_ℕ (length (e ∷ clock_edges))))

  unfoldable pub clock_confined_to_cs : ⦃np : Numpy⦄ → Channel → Channel → F
  clock_confined_to_cs clock cs =
      let cs_transitions = transition_count cs in
      confinement cs (extract_edges clock) (
        if leb cs_transitions 2
        then fl.decimal 10 1
        else fl.div (fl.decimal 20 1) (fl.of_ℕ cs_transitions))

-- The level that the clock has most while CS is high, or at all if it never is.
unfoldable pub detect_cpol : (F : Type 0) ⦃fl : Float F⦄ ⦃st : Statistics F⦄ → Channel → Channel → ℕ
detect_cpol F ⦃fl⦄ ⦃st⦄ clock cs =
    let idle_mask = if any (λ b. b) cs then cs else map (λ b. true) cs in
    bit (fl.lt (fl.decimal 5 1) (st.mean (map (λ b. fl.of_ℕ (bit b)) (masked idle_mask clock))))

module _ {F : Type 0} ⦃fl : Float F⦄ where
  -- The clock is the more regular of the two channels that are left, the first of equal ones.
  unfoldable pub clock_and_data :
      String × Channel → String × Channel → String × Channel → F → F → SpiRoleAssignment F
  clock_and_data cs x y strength_x strength_y =
      if fl.lt strength_x strength_y
      then record {
        clock_channel = y;
        cs_channel = cs;
        data_channel = x;
        confidence = unit_clamp (fl.sub strength_y strength_x);
      }
      else record {
        clock_channel = x;
        cs_channel = cs;
        data_channel = y;
        confidence = unit_clamp (fl.sub strength_x strength_y);
      }

  module _ ⦃np : Numpy⦄ ⦃st : Statistics F⦄ where
    unfoldable pub mode_claim : SpiRoleAssignment F → SpiClaim F
    mode_claim roles =
        let clock = roles.clock_channel.1 in
        let cs = roles.cs_channel.1 in
        let mode : SpiModeEstimate F =
          detect_cpha clock roles.data_channel.1 (detect_cpol F clock cs) in
        record {
          clock_channel = roles.clock_channel.0;
          cs_channel = roles.cs_channel.0;
          data_channel = roles.data_channel.0;
          cpol = mode.cpol;
          cpha = mode.cpha;
          confidence = unit_clamp (fl.mul roles.confidence (clock_confined_to_cs clock cs));
          cpha_confidence = mode.confidence;
        }

    unfoldable pub assign_three :
        String × Channel → String × Channel → String × Channel → SpiRoleAssignment F
    assign_three a b c =
        let (cs, x, y) = split_cs a b c in
        let window = active_window (x.1 ∷ y.1 ∷ []) in
        clock_and_data cs x y (periodicity_strength (slice window x.1) none)
          (periodicity_strength (slice window y.1) none)

    unfoldable pub assign_roles : Channels → Result (SpiRoleAssignment F)
    unfolding assign_three
    assign_roles (a ∷ b ∷ c ∷ []) = ok (assign_three a b c)
    assign_roles _ = err (value_error "SPI role assignment expects exactly three channels")

    unfoldable pub classify_spi : Channels → Result (SpiClaim F)
    unfolding assign_roles mode_claim
    classify_spi channels = elim (assign_roles channels) [
      | err e ↦ err e
      | ok roles ↦ ok (mode_claim roles)
    ]
