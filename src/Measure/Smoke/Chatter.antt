-- ===== src/Measure/Smoke/Chatter.antt =====
-- `detect_edge_chatter`: bursts of intervals that are too short for the bit rate.
use slidko.Prelude.{
  ℕ, zero, suc, ◌+◌, ◌-◌, ◌≤◌, ◌≡◌, refl, String, concat, show, List, [], ◌∷◌, map, Bool, true,
  false, ◌||◌, length, get_or, take, drop, select, sum, if◌then◌else◌, ltb, leb, Float, arith,
  length-drop, Bool-cases, inl, inr,
}
use native.Mathlib.Nat.{le_refl}
use slidko.Decode.Backend.{int, float}
use slidko.Measure.Edges.{Edge, indices, gaps}
use slidko.Measure.Smoke.Finding.{SmokeFinding, chatter_min_edges, chatter_fraction}

-- The inner `while`: how many intervals from here on are short.
unfoldable pub short_run : (ℕ → Bool) → List ℕ → ℕ
short_run short [] = 0
short_run short (x ∷ xs) = if short x then suc (short_run short xs) else 0

-- The outer `while`, at index `i` with `rest` = `intervals[i:]`; `report i count` is what a burst of
-- `count` intervals adds to the findings.
unfoldable pub chatter_loop {ℓ} : {A : Type ℓ} → (ℕ → Bool) → (ℕ → ℕ → A) → ℕ → ℕ → List ℕ → List A
chatter_loop short report zero i rest = []
chatter_loop short report (suc fuel) i [] = []
chatter_loop short report (suc fuel) i (x ∷ xs) =
    let count = suc (short_run short xs) in
    let skipped = chatter_loop short report fuel (i + count) (drop count (x ∷ xs)) in
    let passed = chatter_loop short report fuel (i + 1) xs in
    if short x
    then (if leb chatter_min_edges count then report i count ∷ skipped else skipped)
    else passed

module _ {F : Type 0} ⦃fl : Float F⦄ where
  abbrev pub is_short : F → ℕ → Bool
  is_short threshold interval = fl.lt (fl.of_ℕ interval) threshold

  unfoldable pub chatter_finding : String → F → List ℕ → List ℕ → ℕ → ℕ → SmokeFinding F
  chatter_finding channel threshold idxs intervals start_idx count =
      let burst = take count (drop start_idx intervals) in
      let average = fl.div (fl.of_ℕ (sum burst)) (fl.of_ℕ count) in
      record {
        check = "edge_chatter";
        channel = channel;
        start_sample = get_or idxs start_idx 0;
        end_sample = get_or idxs (start_idx + count) 0;
        severity = "warn";
        summary = concat "Edge chatter: " (
            concat (show count) (
              concat " consecutive intervals averaging " (
                concat (fl.fixed 1 average)
                  (concat " samples (< " (concat (fl.fixed 1 threshold) "-sample threshold)")))));
        escalation = "smoke → scope: capture this line with an oscilloscope; expect ringing";
        evidence =
            ("instances", int count)
            ∷ ("avg_interval", float average)
            ∷ ("threshold_samples", float threshold)
            ∷ [];
      }

  unfoldable pub detect_edge_chatter : List Edge → F → String → List (SmokeFinding F)
  unfolding chatter_loop short_run chatter_finding gaps
  detect_edge_chatter edges t_bit channel =
      let idxs = indices edges in
      let intervals = gaps idxs in
      let threshold = fl.mul chatter_fraction t_bit in
      if ltb (length edges) 2 || fl.le t_bit (fl.of_ℕ 0)
      then []
      else chatter_loop (is_short threshold) (chatter_finding channel threshold idxs intervals)
          (length intervals) 0 intervals

-- The maximal runs of short intervals, as (start, count), in one pass: `i` is the index of the next
-- interval and `c` the length of the run that ends before it.
unfoldable pub bursts : ℕ → ℕ → List Bool → List (ℕ × ℕ)
bursts i zero [] = []
bursts i (suc c) [] = (i - suc c, suc c) ∷ []
bursts i c (true ∷ rest) = bursts (i + 1) (suc c) rest
bursts i zero (false ∷ rest) = bursts (i + 1) zero rest
bursts i (suc c) (false ∷ rest) = (i - suc c, suc c) ∷ bursts (i + 1) zero rest

bursts_run :
    (short : ℕ → Bool) (i j c : ℕ) (xs : List ℕ)
    → i ≡ j + suc c
    → bursts i (suc c) (map short xs)
      ≡ (j, suc c + short_run short xs)
        ∷ bursts (i + short_run short xs) zero (map short (drop (short_run short xs) xs))
unfolding bursts short_run
bursts_run short i j c [] e = ground arith
bursts_run short i j c (x ∷ xs) e = elim (Bool-cases (short x)) [
  | inl y ↦ rw y (ground (arith, bursts_run short (i + 1) j (suc c) xs (omega arith)))
  | inr n ↦ ground (arith, n)
]

bursts_start :
    (short : ℕ → Bool) (i x : ℕ) (xs : List ℕ)
    → short x ≡ true
    → let k = short_run short xs in
      bursts i zero (short x ∷ map short xs)
      ≡ (i, suc k) ∷ bursts (i + suc k) zero (map short (drop k xs))
unfolding bursts
bursts_start short i x xs y =
    rw y (ground (arith, bursts_run short (i + 1) i zero xs (omega arith)))

bursts_skip :
    (short : ℕ → Bool) (i x : ℕ) (xs : List ℕ)
    → short x ≡ false
    → bursts i zero (short x ∷ map short xs) ≡ bursts (i + 1) zero (map short xs)
unfolding bursts
bursts_skip short i x xs n = rw n refl

-- A burst that is long enough to be reported.
abbrev pub is_reported : ℕ × ℕ → Bool
is_reported b = leb chatter_min_edges b.1

chatter_loop-bursts {ℓ} :
    {A : Type ℓ} (short : ℕ → Bool) (report : ℕ → ℕ → A) (fuel i : ℕ) (rest : List ℕ)
    → length rest ≤ fuel
    → chatter_loop short report fuel i rest
      ≡ map (λ b. report b.0 b.1) (select is_reported (bursts i zero (map short rest)))
unfolding chatter_loop
chatter_loop-bursts short report zero i [] h = unfold bursts in refl
chatter_loop-bursts short report zero i (x ∷ xs) h = elim h [ ]
chatter_loop-bursts short report (suc fuel) i [] h = unfold bursts in refl
chatter_loop-bursts short report (suc fuel) i (x ∷ xs) h = elim (Bool-cases (short x)) [
  | inl y ↦
      let k = short_run short xs in
      rw (bursts_start short i x xs y) (
        rw y (
          ground (
            arith,
            chatter_loop-bursts short report fuel (i + suc k) (drop k xs)
                (omega (arith, length-drop k xs)),
          )))
  | inr n ↦
      rw (bursts_skip short i x xs n)
        (rw n (chatter_loop-bursts short report fuel (i + 1) xs (omega arith)))
]

module _ {F : Type 0} ⦃fl : Float F⦄ (edges : List Edge) (t_bit : F) (channel : String) where
  -- With at least two edges and a bit time that is not 0 or less, the fuel of the loop is enough,
  -- and `detect_edge_chatter` reports exactly the maximal runs of at least three consecutive
  -- intervals below a quarter of the bit time, in order, one finding for each run.
  pub detect_edge_chatter-bursts :
      2 ≤ length edges
      → fl.le t_bit (fl.of_ℕ 0) ≡ false
      → let idxs = indices edges in
        let threshold = fl.mul chatter_fraction t_bit in
        detect_edge_chatter edges t_bit channel
        ≡ map
            (λ b. chatter_finding channel threshold idxs (gaps idxs) b.0 b.1)
            (select is_reported (bursts 0 0 (map (is_short threshold) (gaps idxs))))
  unfolding detect_edge_chatter
  detect_edge_chatter-bursts h t = rw (enough, t) (chatter_loop-bursts _ _ _ 0 _ (le_refl _))
    where
      enough : ltb (length edges) 2 ≡ false
      enough = ground arith
