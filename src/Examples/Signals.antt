-- ===== src/Examples/Signals.antt =====
-- Concrete inputs for edge extraction.
use slidko.Prelude.{◌≡◌, refl, true, false, [], ◌∷◌}
use slidko.Numpy.{plain_numpy, plain_numpy-laws}
use slidko.Measure.Edges.{Channel, extract_edges}
use slidko.Measure.I2c.{detect_start_stop, condition_scan, detect_start_stop-scan}
use slidko.Measure.Edges.Laws.{Alternates, rebuild, extract_edges-Alternates, rebuild-extract_edges}

abbrev rest : Channel
rest = false ∷ true ∷ true ∷ false ∷ true ∷ []

extract_edges-Alternates_example : Alternates 1 false 6 (extract_edges (false ∷ rest))
extract_edges-Alternates_example = extract_edges-Alternates plain_numpy-laws false rest

rebuild-extract_edges_example : rebuild 5 1 false (extract_edges (false ∷ rest)) ≡ rest
rebuild-extract_edges_example = rebuild-extract_edges plain_numpy-laws false rest

extract_edges_runs : extract_edges (false ∷ rest) ≡ (2, true) ∷ (4, false) ∷ (5, true) ∷ []
unfolding extract_edges
extract_edges_runs = refl

-- A clock that is high, high, low and high again while SDA falls and rises.
abbrev scl : Channel
scl = true ∷ true ∷ true ∷ false ∷ true ∷ true ∷ []

abbrev sda : Channel
sda = false ∷ false ∷ false ∷ false ∷ true ∷ []

detect_start_stop-scan_example :
    ((detect_start_stop scl (true ∷ sda)).starts ≡ condition_scan true scl 1 true sda)
    × ((detect_start_stop scl (true ∷ sda)).stops ≡ condition_scan false scl 1 true sda)
detect_start_stop-scan_example = detect_start_stop-scan plain_numpy-laws scl true sda

condition_scan_runs :
    (condition_scan true scl 1 true sda ≡ 1 ∷ []) × (condition_scan false scl 1 true sda ≡ 5 ∷ [])
unfolding condition_scan
condition_scan_runs = (refl, refl)
