-- ===== src/Measure/Smoke/Runt.antt =====
-- `detect_runt_pulses`: pulses too narrow for any protocol.
use slidko.Prelude.{
  ℕ, ◌+◌, ◌-◌, String, concat, ◌≡◌, refl, ap, inl, inr, Bool, false, List, [], ◌∷◌, map, arith, ltb,
  leb, if◌then◌else◌, Bool-cases, length, select, All, show,
}
use slidko.Decode.Backend.{int}
use slidko.Measure.Edges.{Edge, indices}
use slidko.Measure.Smoke.Finding.{SmokeFinding, runt_max_samples}

module _ {F : Type 0} where
  unfoldable pub runt_finding : String → ℕ → ℕ → SmokeFinding F
  runt_finding channel start_sample end_sample =
      let interval = end_sample - start_sample in
      record {
        check = "runt_pulse";
        channel = channel;
        start_sample = start_sample;
        end_sample = end_sample;
        severity = "warn";
        summary = concat "Runt pulse: " (concat (show interval) " samples wide");
        escalation =
            "smoke → scope: capture this line with an oscilloscope; expect a glitch or short";
        evidence = ("pulse_samples", int interval) ∷ [];
      }

  -- The `for` over neighbouring indices.
  unfoldable pub runt_scan : String → List ℕ → List (SmokeFinding F)
  runt_scan channel [] = []
  runt_scan channel (a ∷ []) = []
  runt_scan channel (a ∷ b ∷ idxs) =
      let rest = runt_scan channel (b ∷ idxs) in
      if leb (b - a) runt_max_samples then runt_finding channel a b ∷ rest else rest

  unfoldable pub detect_runt_pulses : List Edge → String → List (SmokeFinding F)
  unfolding runt_scan runt_finding
  detect_runt_pulses edges channel =
      if ltb (length edges) 2 then [] else runt_scan channel (indices edges)

-- Each index with the next one.
abbrev pub neighbours : List ℕ → List (ℕ × ℕ)
neighbours [] = []
neighbours (a ∷ []) = []
neighbours (a ∷ b ∷ idxs) = (a, b) ∷ neighbours (b ∷ idxs)

-- At most two samples from one to the other.
abbrev pub is_narrow : ℕ × ℕ → Bool
is_narrow (a, b) = leb b (a + 2)

abbrev pub window : {F : Type 0} → SmokeFinding F → ℕ × ℕ
window f = (f.start_sample, f.end_sample)

-- A finding of a runt on a channel, with the width of its window as the evidence.
abbrev pub IsRunt : {F : Type 0} → String → SmokeFinding F → Type 0
IsRunt channel f =
    (f.check ≡ "runt_pulse")
    × (f.channel ≡ channel)
    × (f.evidence ≡ ("pulse_samples", int (f.end_sample - f.start_sample)) ∷ [])

module _ (F : Type 0) where
  runt_scan-windows :
      (channel : String) (idxs : List ℕ)
      → map window (runt_scan {F = F} channel idxs) ≡ select is_narrow (neighbours idxs)
  unfolding runt_scan runt_finding
  runt_scan-windows channel [] = refl
  runt_scan-windows channel (a ∷ []) = refl
  runt_scan-windows channel (a ∷ b ∷ idxs) =
      let same : leb (b - a) runt_max_samples ≡ leb b (a + 2) = ground arith in
      elim (Bool-cases (leb b (a + 2))) [
        | inl y ↦ rw (same, y) (ap (◌∷◌ (a, b)) (runt_scan-windows channel (b ∷ idxs)))
        | inr n ↦ rw (same, n) (runt_scan-windows channel (b ∷ idxs))
      ]

  runt_scan-IsRunt :
      (channel : String) (idxs : List ℕ) → All (IsRunt {F = F} channel) (runt_scan channel idxs)
  unfolding runt_scan runt_finding
  runt_scan-IsRunt channel [] = tt
  runt_scan-IsRunt channel (a ∷ []) = tt
  runt_scan-IsRunt channel (a ∷ b ∷ idxs) = elim (Bool-cases (leb (b - a) runt_max_samples)) [
    | inl y ↦ rw y ((refl, refl, refl), runt_scan-IsRunt channel (b ∷ idxs))
    | inr n ↦ rw n (runt_scan-IsRunt channel (b ∷ idxs))
  ]

  -- The windows of the runt findings are, in order, exactly the pairs of neighbouring edges that are at most two samples
  -- apart; each finding is on the channel, with the width of its window as the evidence.
  pub detect_runt_pulses_lem :
      (edges : List Edge) (channel : String)
      → (map window (detect_runt_pulses {F = F} edges channel)
          ≡ select is_narrow (neighbours (indices edges)))
        × All (IsRunt {F = F} channel) (detect_runt_pulses edges channel)
  unfolding detect_runt_pulses
  detect_runt_pulses_lem [] channel = (refl, tt)
  detect_runt_pulses_lem (e ∷ []) channel = (refl, tt)
  detect_runt_pulses_lem (e ∷ e' ∷ edges) channel = rw long (
    runt_scan-windows channel (indices (e ∷ e' ∷ edges)),
    runt_scan-IsRunt channel (indices (e ∷ e' ∷ edges)),
  )
    where
      long : ltb (length (e ∷ e' ∷ edges)) 2 ≡ false
      long = ground arith
