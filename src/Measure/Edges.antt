-- ===== src/Measure/Edges.antt =====
-- src/slidko/measure/edges.py: edges of a channel, intervals between them, the active window.
-- A sample index is a natural number; an index list here comes from `extract_edges` and increases.
use slidko.Prelude.{
  ℕ, suc, zero, ◌+◌, ◌-◌, ◌<◌, ◌≤◌, ◌≡◌, refl, List, [], ◌∷◌, ◌++◌, map, Bool, true, false, not,
  ◌&&◌, Option, none, some, length, get_or, bit, bool_eq, if◌then◌else◌, ltb, ◌==◌, min, max, ℤ,
  pos, is_positive, is_negative,
}
use slidko.Numpy.{Numpy}
pub mod Laws
pub mod Pulses
pub mod Durations

-- (sample_index, polarity)
abbrev pub Edge : Type 0
Edge = ℕ × Bool

abbrev pub Channel : Type 0
Channel = List Bool

-- `channel_data.astype(int)`
abbrev pub as_int : Channel → List ℤ
as_int = map (λ b. pos (bit b))

-- The loop over `edge_indices`.
unfoldable pub append_edges : List ℤ → List ℕ → List Edge
append_edges diff [] = []
append_edges diff (idx ∷ indices) =
    let rest = append_edges diff indices in
    let step = get_or diff idx (pos 0) in
    if is_positive step
    then (idx + 1, true) ∷ rest
    else if is_negative step
    then (idx + 1, false) ∷ rest
    else rest

unfoldable pub extract_edges : ⦃np : Numpy⦄ → Channel → List Edge
unfolding append_edges
extract_edges ⦃np⦄ channel_data =
    if ltb (length channel_data) 2
    then []
    else let diff = np.diff (as_int channel_data) in append_edges diff (np.flatnonzero diff)

abbrev pub indices : List Edge → List ℕ
indices = map (λ e. e.0)

-- `[indices[i + 1] - indices[i] for i in range(len(indices) - 1)]`
unfoldable pub gaps : List ℕ → List ℕ
gaps [] = []
gaps (a ∷ []) = []
gaps (a ∷ b ∷ xs) = (b - a) ∷ gaps (b ∷ xs)

-- `min(idxs)` and `max(idxs)` of a list that is not empty.
abbrev pub minimum : ℕ → List ℕ → ℕ
minimum a [] = a
minimum a (b ∷ xs) = minimum (min a b) xs

abbrev pub maximum : ℕ → List ℕ → ℕ
maximum a [] = a
maximum a (b ∷ xs) = maximum (max a b) xs

abbrev pub join {ℓ} : {A : Type ℓ} → (A → A → A) → Option A → A → A
join f none b = b
join f (some a) b = f a b

-- The loop of `active_window` over the edge indices of each channel, with `first` and `last`.
unfoldable pub window_scan : Option ℕ → Option ℕ → List (List ℕ) → Option ℕ × Option ℕ
window_scan first last [] = (first, last)
window_scan first last ([] ∷ rest) = window_scan first last rest
window_scan first last ((i ∷ idxs) ∷ rest) =
    window_scan (some (join min first (minimum i idxs))) (some (join max last (maximum i idxs)))
      rest

abbrev window_of : List Channel → Option ℕ × Option ℕ → ℕ × ℕ
window_of channels (some first, some last) = (first, last + 1)
window_of [] _ = (0, 0)
window_of (channel ∷ _) _ = (0, length channel)

unfoldable pub active_window : ⦃np : Numpy⦄ → List Channel → ℕ × ℕ
unfolding window_scan
active_window ⦃np⦄ channels =
    window_of channels
      (window_scan none none (map (λ c. indices (extract_edges ⦃np = np⦄ c)) channels))

-- The `while` of `pulse_cells_ns`: samples from `start` on at the active level.
unfoldable pub run_length : Bool → Channel → ℕ
run_length level [] = 0
run_length level (b ∷ rest) = if bool_eq b level then suc (run_length level rest) else 0
