-- ===== src/Measure/Edges/Laws.antt =====
-- What `extract_edges` finds: it is the sample-by-sample scan, its edges alternate inside the
-- channel, and the channel can be rebuilt from them.
use slidko.Prelude.{
  ℕ, zero, suc, ◌+◌, ◌≤◌, ◌<◌, ◌≡◌, refl, ap, ◌∙◌, Bool, true, false, not, List, [], ◌∷◌, ◌++◌, map,
  arith, ltb, ◌==◌, if◌then◌else◌, bool_eq, bit, length, replicate, ℤ, pos, ◌-ℤ◌, is_nonzero,
}
use slidko.Numpy.{Numpy, NumpyLaws}
use slidko.Measure.Edges.{Edge, Channel, as_int, append_edges, extract_edges}

-- One pass over the samples: `i` is the index of the next one, `a` the level before it.
unfoldable pub edge_scan : ℕ → Bool → Channel → List Edge
edge_scan i a [] = []
edge_scan i a (b ∷ rest) =
    let more = edge_scan (i + 1) b rest in if bool_eq a b then more else (i, b) ∷ more

-- A run of the level before it has no edge.
pub edge_scan-replicate :
    (i k : ℕ) (a : Bool) (c : Channel) → edge_scan i a (replicate k a ++ c) ≡ edge_scan (i + k) a c
unfolding edge_scan
edge_scan-replicate i zero a c = let here : i + 0 ≡ i = omega arith in rw here refl
edge_scan-replicate i (suc k) true c =
    let next : (i + 1) + k ≡ i + suc k = omega arith in
    edge_scan-replicate (i + 1) k true c ∙ ap (λ j. edge_scan j true c) next
edge_scan-replicate i (suc k) false c =
    let next : (i + 1) + k ≡ i + suc k = omega arith in
    edge_scan-replicate (i + 1) k false c ∙ ap (λ j. edge_scan j false c) next

-- From the level before sample `i` and the edges from there on, `n` samples.
unfoldable pub rebuild : ℕ → ℕ → Bool → List Edge → Channel
rebuild zero i level edges = []
rebuild (suc n) i level [] = level ∷ rebuild n (i + 1) level []
rebuild (suc n) i level ((j, polarity) ∷ edges) = elim (j == i) [
  | true ↦ polarity ∷ rebuild n (i + 1) polarity edges
  | false ↦ level ∷ rebuild n (i + 1) level ((j, polarity) ∷ edges)
]

-- From index `lo` at `level`: the edges increase, lie below `hi`, and each one inverts the level.
abbrev pub Alternates : ℕ → Bool → ℕ → List Edge → Type 0
Alternates lo level hi [] = Unit
Alternates lo level hi ((i, polarity) ∷ edges) =
    (lo ≤ i) × (i < hi) × (polarity ≡ not level) × Alternates (i + 1) polarity hi edges

abbrev shift : Edge → Edge
shift (i, polarity) = (i + 1, polarity)

shift-edge_scan :
    (i : ℕ) (a : Bool) (c : Channel) → map shift (edge_scan i a c) ≡ edge_scan (i + 1) a c
unfolding edge_scan
shift-edge_scan i a [] = refl
shift-edge_scan i a (b ∷ rest) = ground (arith, shift-edge_scan (i + 1) b rest)

append_edges-suc :
    (d : ℤ) (ds : List ℤ) (js : List ℕ)
    → append_edges (d ∷ ds) (map suc js) ≡ map shift (append_edges ds js)
unfolding append_edges
append_edges-suc d ds [] = refl
append_edges-suc d ds (j ∷ js) = ground (arith, append_edges-suc d ds js)

module _ ⦃np : Numpy⦄ (laws : NumpyLaws np) where
  append_edges-step :
      (b : Bool) (rest : Channel) (d : List ℤ)
      → append_edges d (np.flatnonzero d) ≡ edge_scan 1 b rest
      → (x y : Bool)
      → let z = pos (bit y) -ℤ pos (bit x) in
        append_edges
          (z ∷ d)
          (if is_nonzero z then 0 ∷ map suc (np.flatnonzero d) else map suc (np.flatnonzero d))
        ≡ (if bool_eq x y then edge_scan 2 b rest else (1, y) ∷ edge_scan 2 b rest)
  unfolding append_edges
  append_edges-step b rest d ih = by_levels
    where
      tail : (z : ℤ) → append_edges (z ∷ d) (map suc (np.flatnonzero d)) ≡ edge_scan 2 b rest
      tail z =
          append_edges-suc z d (np.flatnonzero d) ∙ ap (map shift) ih ∙ shift-edge_scan 1 b rest

      by_levels :
          (x y : Bool)
          → let z = pos (bit y) -ℤ pos (bit x) in
            append_edges
              (z ∷ d)
              (if is_nonzero z then 0 ∷ map suc (np.flatnonzero d) else map suc (np.flatnonzero d))
            ≡ (if bool_eq x y then edge_scan 2 b rest else (1, y) ∷ edge_scan 2 b rest)
      by_levels true true = tail _
      by_levels true false = ap (◌∷◌ (1, false)) (tail _)
      by_levels false true = ap (◌∷◌ (1, true)) (tail _)
      by_levels false false = tail _

  append_edges-scan :
      (a : Bool) (rest : Channel)
      → append_edges (np.diff (as_int (a ∷ rest))) (np.flatnonzero (np.diff (as_int (a ∷ rest))))
        ≡ edge_scan 1 a rest
  unfolding append_edges edge_scan
  append_edges-scan a [] = rw (laws.diff_one, laws.nonzero_nil) refl
  append_edges-scan a (b ∷ rest) =
      rw (laws.diff_cons, laws.nonzero_cons)
        (append_edges-step b rest _ (append_edges-scan b rest) a b)

  -- On a channel with at least one sample, the array version of `extract_edges` finds what one pass
  -- over the samples finds: each index where the level changes, with the new level.
  pub extract_edges-scan :
      (a : Bool) (rest : Channel) → extract_edges (a ∷ rest) ≡ edge_scan 1 a rest
  unfolding extract_edges edge_scan
  extract_edges-scan a [] = refl
  extract_edges-scan a (b ∷ rest) = rw long (append_edges-scan a (b ∷ rest))
    where
      long : ltb (length (a ∷ b ∷ rest)) 2 ≡ false
      long = ground arith

Alternates-lower :
    (i : ℕ) (level : Bool) (hi : ℕ) (edges : List Edge)
    → Alternates (i + 1) level hi edges
    → Alternates i level hi edges
Alternates-lower i level hi [] h = tt
Alternates-lower i level hi (e ∷ edges) h = (omega arith, h.1, h.2, h.3)

edge_scan-Alternates :
    (i : ℕ) (a : Bool) (c : Channel) (hi : ℕ)
    → i + length c ≡ hi
    → Alternates i a hi (edge_scan i a c)
unfolding edge_scan
edge_scan-Alternates i a [] hi e = tt
edge_scan-Alternates i true (true ∷ rest) hi e =
    Alternates-lower i true hi _ (edge_scan-Alternates (i + 1) true rest hi (omega arith))
edge_scan-Alternates i false (false ∷ rest) hi e =
    Alternates-lower i false hi _ (edge_scan-Alternates (i + 1) false rest hi (omega arith))
edge_scan-Alternates i true (false ∷ rest) hi e =
    (omega arith, omega arith, refl, edge_scan-Alternates (i + 1) false rest hi (omega arith))
edge_scan-Alternates i false (true ∷ rest) hi e =
    (omega arith, omega arith, refl, edge_scan-Alternates (i + 1) true rest hi (omega arith))

rebuild_later :
    (n i : ℕ) (level : Bool) (hi : ℕ) (edges : List Edge)
    → Alternates (i + 1) level hi edges
    → rebuild (suc n) i level edges ≡ level ∷ rebuild n (i + 1) level edges
unfolding rebuild
rebuild_later n i level hi [] h = refl
rebuild_later n i level hi ((j, polarity) ∷ edges) h = ground arith

rebuild_here :
    (n i : ℕ) (level polarity : Bool) (edges : List Edge)
    → rebuild (suc n) i level ((i, polarity) ∷ edges) ≡ polarity ∷ rebuild n (i + 1) polarity edges
unfolding rebuild
rebuild_here n i level polarity edges = ground arith

rebuild-edge_scan : (i : ℕ) (a : Bool) (c : Channel) → rebuild (length c) i a (edge_scan i a c) ≡ c
unfolding edge_scan
rebuild-edge_scan i a [] = unfold rebuild in refl
rebuild-edge_scan i true (true ∷ rest) =
    rebuild_later (length rest) i true _ _ (edge_scan-Alternates (i + 1) true rest _ refl)
    ∙ ap (◌∷◌ true) (rebuild-edge_scan (i + 1) true rest)
rebuild-edge_scan i false (false ∷ rest) =
    rebuild_later (length rest) i false _ _ (edge_scan-Alternates (i + 1) false rest _ refl)
    ∙ ap (◌∷◌ false) (rebuild-edge_scan (i + 1) false rest)
rebuild-edge_scan i true (false ∷ rest) =
    rebuild_here (length rest) i true false _
    ∙ ap (◌∷◌ false) (rebuild-edge_scan (i + 1) false rest)
rebuild-edge_scan i false (true ∷ rest) =
    rebuild_here (length rest) i false true _ ∙ ap (◌∷◌ true) (rebuild-edge_scan (i + 1) true rest)

module _ ⦃np : Numpy⦄ (laws : NumpyLaws np) (a : Bool) (rest : Channel) where
  -- The edges of a channel have strictly increasing indices, all at least 1 and below the channel's
  -- length, and each one's polarity is the opposite of the level before it, beginning with the
  -- first sample.
  pub extract_edges-Alternates : Alternates 1 a (length (a ∷ rest)) (extract_edges (a ∷ rest))
  extract_edges-Alternates =
      rw (extract_edges-scan laws a rest) (edge_scan-Alternates 1 a rest _ (omega arith))

  -- Nothing is lost: the first sample and the edges determine every later sample of the channel.
  pub rebuild-extract_edges : rebuild (length rest) 1 a (extract_edges (a ∷ rest)) ≡ rest
  rebuild-extract_edges = rw (extract_edges-scan laws a rest) (rebuild-edge_scan 1 a rest)
