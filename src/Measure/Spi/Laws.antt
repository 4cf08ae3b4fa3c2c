-- ===== src/Measure/Spi/Laws.antt =====
-- At which edges of the clock the bits are sampled.
use slidko.Prelude.{
  ℕ, ◌≡◌, refl, ap, ◌∙◌, Bool, true, false, not, List, [], ◌∷◌, ◌++◌, map, ◌==◌, if◌then◌else◌,
  bool_eq,
}
use slidko.Measure.Edges.{Channel}
use slidko.Measure.Spi.{decode_scan, decode_bits}

-- The data line in one half of a clock cycle: its level at the edge of the clock, and after it until the next edge.
abbrev pub Half : Type 0
Half = Bool × List Bool

-- A cycle of the clock: from the leading edge, and from the trailing edge.
abbrev pub Cycle : Type 0
Cycle = Half × Half

abbrev held : Bool → Half → Channel
held level (d, later) = level ∷ map (λ _. level) later

abbrev samples : Half → Channel
samples (d, later) = d ∷ later

unfoldable pub clock_wave : Bool → List Cycle → Channel
clock_wave idle [] = []
clock_wave idle ((lead, trail) ∷ cycles) =
    held (not idle) lead ++ (held idle trail ++ clock_wave idle cycles)

unfoldable pub data_wave : List Cycle → Channel
data_wave [] = []
data_wave ((lead, trail) ∷ cycles) = samples lead ++ (samples trail ++ data_wave cycles)

-- While the clock holds its level, nothing is sampled.
decode_scan-held :
    (idle leading level : Bool) (later clock data_line : Channel)
    → decode_scan idle leading level (map (λ _. level) later ++ clock) (later ++ data_line)
      ≡ decode_scan idle leading level clock data_line
unfolding decode_scan
decode_scan-held idle leading level [] clock data_line = refl
decode_scan-held idle leading true (d ∷ later) clock data_line =
    decode_scan-held idle leading true later clock data_line
decode_scan-held idle leading false (d ∷ later) clock data_line =
    decode_scan-held idle leading false later clock data_line

-- The level of the data line at the sampling edge of a cycle.
abbrev pub sampled : Bool → Cycle → Bool
sampled leading (lead, trail) = if leading then lead.0 else trail.0

decode_scan-edge :
    (idle leading : Bool) (half : Half) (clock data_line : Channel) (level : Bool)
    → let rest = decode_scan idle leading level clock data_line in
      decode_scan idle leading (not level) (held level half ++ clock) (samples half ++ data_line)
      ≡ (if bool_eq (not (bool_eq level idle)) leading then half.0 ∷ rest else rest)
unfolding decode_scan
decode_scan-edge idle leading (d, later) clock data_line true =
    rw (decode_scan-held idle leading true later clock data_line) refl
decode_scan-edge idle leading (d, later) clock data_line false =
    rw (decode_scan-held idle leading false later clock data_line) refl

decode_scan-wave :
    (idle leading : Bool) (cycles : List Cycle)
    → decode_scan idle leading idle (clock_wave idle cycles) (data_wave cycles)
      ≡ map (sampled leading) cycles
unfolding clock_wave data_wave
decode_scan-wave idle leading [] = unfold decode_scan in refl
decode_scan-wave true true ((lead, trail) ∷ cycles) =
    decode_scan-edge true true lead _ _ false
    ∙ ap (◌∷◌ lead.0)
        (decode_scan-edge true true trail _ _ true ∙ decode_scan-wave true true cycles)
decode_scan-wave true false ((lead, trail) ∷ cycles) =
    decode_scan-edge true false lead _ _ false
    ∙ decode_scan-edge true false trail _ _ true
    ∙ ap (◌∷◌ trail.0) (decode_scan-wave true false cycles)
decode_scan-wave false true ((lead, trail) ∷ cycles) =
    decode_scan-edge false true lead _ _ true
    ∙ ap (◌∷◌ lead.0)
        (decode_scan-edge false true trail _ _ false ∙ decode_scan-wave false true cycles)
decode_scan-wave false false ((lead, trail) ∷ cycles) =
    decode_scan-edge false false lead _ _ true
    ∙ decode_scan-edge false false trail _ _ false
    ∙ ap (◌∷◌ trail.0) (decode_scan-wave false false cycles)

-- For a clock that starts idle and makes whole cycles of any lengths, the bits are the levels of the data line at the
-- leading edges with CPHA 0 and at the trailing edges otherwise, whichever level is idle and whatever the data line
-- does between the edges.
pub decode_bits-wave :
    (cpol cpha : ℕ) (first : Bool) (cycles : List Cycle)
    → let idle = not (cpol == 0) in
      decode_bits (idle ∷ clock_wave idle cycles) (first ∷ data_wave cycles) cpol cpha
      ≡ map (sampled (cpha == 0)) cycles
unfolding decode_bits
decode_bits-wave cpol cpha first cycles = decode_scan-wave (not (cpol == 0)) (cpha == 0) cycles
