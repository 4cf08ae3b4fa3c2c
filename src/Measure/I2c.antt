-- ===== src/Measure/I2c.antt =====
-- src/slidko/measure/i2c.py: the start and stop conditions of a bus.
use slidko.Prelude.{
  ℕ, ◌+◌, ◌-◌, ◌≡◌, refl, ◌∙◌, Bool, true, false, not, ◌&&◌, List, [], ◌∷◌, leb, if◌then◌else◌,
  bool_eq, length, get_or,
}
use slidko.Numpy.{Numpy, NumpyLaws}
use slidko.Measure.Edges.{Edge, Channel, extract_edges}
use slidko.Measure.Edges.Laws.{edge_scan, extract_edges-scan}
pub mod Roles

pub record I2cStartStop : Type 0 where
  pub starts : List ℕ
  pub stops : List ℕ

abbrev nothing : I2cStartStop
nothing = record { starts = []; stops = [] }

-- The loop over `sda_edges`.
unfoldable pub bus_conditions : Channel → List Edge → I2cStartStop
bus_conditions scl [] = nothing
bus_conditions scl ((idx, rising) ∷ sda_edges) =
    let rest = bus_conditions scl sda_edges in
    if leb (length scl) idx
    then rest
    else if get_or scl (idx - 1) false && get_or scl idx false
    then (if rising
        then record { starts = rest.starts; stops = idx ∷ rest.stops }
        else record { starts = idx ∷ rest.starts; stops = rest.stops })
    else rest

unfoldable pub detect_start_stop : ⦃np : Numpy⦄ → Channel → Channel → I2cStartStop
unfolding bus_conditions
detect_start_stop scl sda = bus_conditions scl (extract_edges sda)

-- SCL has a sample at `i` and at the index before it, both high.
abbrev pub held_high : Channel → ℕ → Bool
held_high scl i = not (leb (length scl) i) && (get_or scl (i - 1) false && get_or scl i false)

-- One pass over the samples of SDA after a first one: the indices where it goes from `from` to the
-- other level while SCL is high.
unfoldable pub condition_scan : Bool → Channel → ℕ → Bool → Channel → List ℕ
condition_scan from scl i a [] = []
condition_scan from scl i a (b ∷ rest) =
    let more = condition_scan from scl (i + 1) b rest in
    if bool_eq a from && (not (bool_eq b from) && held_high scl i) then i ∷ more else more

by_tests :
    (outside high rising : Bool) (i : ℕ) (rest : I2cStartStop)
    → let all_of : I2cStartStop =
        if outside
        then rest
        else if high
        then (if rising
            then record { starts = rest.starts; stops = i ∷ rest.stops }
            else record { starts = i ∷ rest.starts; stops = rest.stops })
        else rest in
      (all_of.starts
        ≡ (if not rising && (not outside && high) then i ∷ rest.starts else rest.starts))
      × (all_of.stops ≡ (if rising && (not outside && high) then i ∷ rest.stops else rest.stops))
by_tests true high true i rest = (refl, refl)
by_tests true high false i rest = (refl, refl)
by_tests false true true i rest = (refl, refl)
by_tests false true false i rest = (refl, refl)
by_tests false false true i rest = (refl, refl)
by_tests false false false i rest = (refl, refl)

bus_conditions-step :
    (scl : Channel) (i : ℕ) (rising : Bool) (edges : List Edge)
    → let rest = bus_conditions scl edges in
      let all_of = bus_conditions scl ((i, rising) ∷ edges) in
      (all_of.starts ≡ (if not rising && held_high scl i then i ∷ rest.starts else rest.starts))
      × (all_of.stops ≡ (if rising && held_high scl i then i ∷ rest.stops else rest.stops))
unfolding bus_conditions
bus_conditions-step scl i rising edges =
    by_tests (leb (length scl) i) (get_or scl (i - 1) false && get_or scl i false) rising i
      (bus_conditions scl edges)

bus_conditions-scan :
    (scl : Channel) (i : ℕ) (a : Bool) (rest : Channel)
    → ((bus_conditions scl (edge_scan i a rest)).starts ≡ condition_scan true scl i a rest)
      × ((bus_conditions scl (edge_scan i a rest)).stops ≡ condition_scan false scl i a rest)
unfolding edge_scan condition_scan
bus_conditions-scan scl i a [] = unfold bus_conditions in (refl, refl)
bus_conditions-scan scl i true (true ∷ rest) = bus_conditions-scan scl (i + 1) true rest
bus_conditions-scan scl i false (false ∷ rest) = bus_conditions-scan scl (i + 1) false rest
bus_conditions-scan scl i true (false ∷ rest) =
    let (starts, stops) = bus_conditions-step scl i false (edge_scan (i + 1) false rest) in
    let (more, later) = bus_conditions-scan scl (i + 1) false rest in
    (starts ∙ rw more refl, stops ∙ later)
bus_conditions-scan scl i false (true ∷ rest) =
    let (starts, stops) = bus_conditions-step scl i true (edge_scan (i + 1) true rest) in
    let (more, later) = bus_conditions-scan scl (i + 1) true rest in
    (starts ∙ more, stops ∙ rw later refl)

module _ ⦃np : Numpy⦄ (laws : NumpyLaws np) (scl : Channel) (a : Bool) (rest : Channel) where
  -- The starts are exactly the indices where SDA falls while SCL is high at that sample and at the
  -- one before, and the stops those where SDA rises so, in order. SDA has at least one sample; SCL
  -- may be shorter.
  pub detect_start_stop-scan :
      ((detect_start_stop scl (a ∷ rest)).starts ≡ condition_scan true scl 1 a rest)
      × ((detect_start_stop scl (a ∷ rest)).stops ≡ condition_scan false scl 1 a rest)
  unfolding detect_start_stop
  detect_start_stop-scan = rw (extract_edges-scan laws a rest) (bus_conditions-scan scl 1 a rest)
