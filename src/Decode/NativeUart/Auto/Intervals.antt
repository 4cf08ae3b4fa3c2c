-- ===== src/Decode/NativeUart/Auto/Intervals.antt =====
-- The intervals between the edges of a line whose bits have a whole number of samples.
use slidko.Prelude.{
  ℕ, suc, ◌+◌, ◌-◌, ◌*◌, ◌≤◌, ◌<◌, ◌≡◌, refl, ap, ◌∙◌, inl, inr, Bool, false, List, [], ◌∷◌, map,
  arith, ltb, if◌then◌else◌, bool_eq, Bool-cases, length, All,
}
use native.Mathlib.Nat.{mul-sub}
use slidko.Measure.Edges.{Edge, indices, gaps}
use slidko.Measure.Edges.Laws.{edge_scan, edge_scan-replicate}
use slidko.Measure.Edges.Pulses.{inter_edge_intervals}
use slidko.Decode.NativeUart.Frame.{wave}

-- The edges of the bits, in samples: bit `k` begins at `start + width * k`.
abbrev pub scaled : ℕ → ℕ → List Edge → List Edge
scaled start width edges = map (λ e. (start + width * e.0, e.1)) edges

scaled_bit :
    (start width j : ℕ) (a b : Bool) (more : List Edge)
    → (if bool_eq a b
        then scaled start width more
        else (start + width * j, b) ∷ scaled start width more)
      ≡ scaled start width (if bool_eq a b then more else (j, b) ∷ more)
scaled_bit start width j a b more = elim (Bool-cases (bool_eq a b)) [
  | inl same ↦ rw same refl
  | inr other ↦ rw other refl
]

pub edge_scan-wave :
    (start v j : ℕ) (a : Bool) (bits : List Bool)
    → edge_scan (start + suc v * j) a (wave (suc v) bits)
      ≡ scaled start (suc v) (edge_scan j a bits)
unfolding edge_scan wave
edge_scan-wave start v j a [] = refl
edge_scan-wave start v j a (b ∷ bits) =
    let i : ℕ = start + suc v * j in
    let at_next : i + 1 + v ≡ start + suc v * (j + 1) = omega arith in
    let more =
      edge_scan-replicate (i + 1) v b (wave (suc v) bits)
      ∙ ap (λ n. edge_scan n b (wave (suc v) bits)) at_next
      ∙ edge_scan-wave start v (j + 1) b bits in
    ap (λ m. if bool_eq a b then m else (i, b) ∷ m) more
    ∙ scaled_bit start (suc v) j a b (edge_scan (j + 1) b bits)

indices-scaled :
    (start width : ℕ) (edges : List Edge)
    → indices (scaled start width edges) ≡ map (λ k. start + width * k) (indices edges)
indices-scaled start width [] = refl
indices-scaled start width (e ∷ edges) =
    ap (◌∷◌ (start + width * e.0)) (indices-scaled start width edges)

gaps-scaled :
    (start width : ℕ) (ks : List ℕ)
    → gaps (map (λ k. start + width * k) ks) ≡ map (λ d. width * d) (gaps ks)
unfolding gaps
gaps-scaled start width [] = refl
gaps-scaled start width (a ∷ []) = refl
gaps-scaled start width (a ∷ b ∷ ks) =
    let step : start + width * b - (start + width * a) ≡ width * (b - a) =
      let h = mul-sub width b a in omega (arith, h) in
    rw (step, gaps-scaled start width (b ∷ ks)) refl

inter_edge_intervals-gaps : (edges : List Edge) → inter_edge_intervals edges ≡ gaps (indices edges)
unfolding inter_edge_intervals gaps
inter_edge_intervals-gaps [] = refl
inter_edge_intervals-gaps (e ∷ []) = refl
inter_edge_intervals-gaps (e ∷ f ∷ edges) =
    let enough : ltb (length (e ∷ f ∷ edges)) 2 ≡ false = ground arith in rw enough refl

-- Positive, and at most so many bits.
abbrev pub IsWithin : ℕ → ℕ → Type 0
IsWithin n d = (0 < d) × (d ≤ n)

gaps_after :
    (n k j : ℕ) (a : Bool) (bits : List Bool)
    → k < j
    → j + length bits ≤ n
    → All (IsWithin n) (gaps (k ∷ indices (edge_scan j a bits)))
unfolding gaps edge_scan
gaps_after n k j a [] before size = tt
gaps_after n k j a (b ∷ bits) before size = elim (Bool-cases (bool_eq a b)) [
  | inl same ↦ rw same (gaps_after n k (j + 1) b bits (omega arith) (omega arith))
  | inr other ↦
      rw other
        ((omega arith, omega arith), gaps_after n j (j + 1) b bits (omega arith) (omega arith))
]

gaps_tail : (n k : ℕ) (ks : List ℕ) → All (IsWithin n) (gaps (k ∷ ks)) → All (IsWithin n) (gaps ks)
unfolding gaps
gaps_tail n k [] h = tt
gaps_tail n k (i ∷ ks) h = h.1

-- The intervals, in bits, between the changes of the bits after a level.
unfoldable pub bit_gaps : Bool → List Bool → List ℕ
bit_gaps a bits = gaps (indices (edge_scan 0 a bits))

pub bit_gaps-IsWithin :
    (a : Bool) (bits : List Bool) → All (IsWithin (length bits)) (bit_gaps a bits)
unfolding bit_gaps edge_scan gaps
bit_gaps-IsWithin a [] = tt
bit_gaps-IsWithin a (b ∷ bits) =
    let later = gaps_after (length (b ∷ bits)) 0 1 b bits (omega arith) (omega arith) in
    elim (Bool-cases (bool_eq a b)) [
      | inl same ↦ rw same (gaps_tail _ 0 (indices (edge_scan 1 b bits)) later)
      | inr other ↦ rw other later
    ]

-- The line's intervals are those of its bits, in samples.
pub intervals-bit_gaps :
    (idle v : ℕ) (a : Bool) (bits : List Bool)
    → inter_edge_intervals (edge_scan idle a (wave (suc v) bits))
      ≡ map (λ d. suc v * d) (bit_gaps a bits)
unfolding bit_gaps
intervals-bit_gaps idle v a bits =
    let first : idle ≡ idle + suc v * 0 = omega arith in
    inter_edge_intervals-gaps _
    ∙ ap (λ n. gaps (indices (edge_scan n a (wave (suc v) bits)))) first
    ∙ ap (λ e. gaps (indices e)) (edge_scan-wave idle v 0 a bits)
    ∙ ap gaps (indices-scaled idle (suc v) (edge_scan 0 a bits))
    ∙ gaps-scaled idle (suc v) (indices (edge_scan 0 a bits))
