-- ===== src/Capture/SrFile/Packing.antt =====
-- The bits of a packed row are its channels' samples.
use slidko.Prelude.{
  ℕ, zero, suc, ◌+◌, ◌/◌, ◌%◌, ◌≤◌, ◌<◌, String, ◌≡◌, refl, sym, ap, ◌∙◌, Bool, true, false, List,
  [], ◌∷◌, map, arith, length, get_or, drop, All, length-map, length-drop,
}
use slidko.Measure.Edges.{Channel}
use slidko.Capture.SrFile.{byte_of, pack_rows, nth_bit, column, columns}

nth_bit-byte_of : (bits : List Bool) (i : ℕ) → nth_bit (byte_of bits) i ≡ get_or bits i false
unfolding nth_bit byte_of
nth_bit-byte_of [] zero = refl
nth_bit-byte_of [] (suc i) = nth_bit-byte_of [] i
nth_bit-byte_of (true ∷ bits) zero = ground arith
nth_bit-byte_of (false ∷ bits) zero = ground arith
nth_bit-byte_of (true ∷ bits) (suc i) = ap (λ n. nth_bit n i) (omega arith) ∙ nth_bit-byte_of bits i
nth_bit-byte_of (false ∷ bits) (suc i) =
    ap (λ n. nth_bit n i) (omega arith) ∙ nth_bit-byte_of bits i

abbrev firsts : List Channel → List Bool
firsts = map (λ c. get_or c 0 false)

abbrev rests : List Channel → List Channel
rests = map (λ c. drop 1 c)

-- Channels of `n` samples.
abbrev pub AreLong : ℕ → List Channel → Type 0
AreLong n = All (λ c. length c ≡ n)

rests-AreLong : (n : ℕ) (all_of : List Channel) → AreLong (suc n) all_of → AreLong n (rests all_of)
rests-AreLong n [] h = tt
rests-AreLong n (c ∷ all_of) (h, hs) =
    let shorter = length-drop 1 c in (omega arith, rests-AreLong n all_of hs)

front :
    (n : ℕ) (all_of : List Channel) (j : ℕ)
    → AreLong (suc n) all_of
    → j < length all_of
    → get_or (firsts all_of) j false ∷ get_or (rests all_of) j [] ≡ get_or all_of j []
front n [] j h lt = let impossible : ⊥ = omega (arith, lt) in absurd impossible
front n ([] ∷ all_of) zero h lt = let impossible : ⊥ = omega (arith, h.0) in absurd impossible
front n ((b ∷ c) ∷ all_of) zero h lt = refl
front n (c ∷ all_of) (suc j) h lt = front n all_of j h.1 (omega arith)

no_samples : (all_of : List Channel) (j : ℕ) → AreLong 0 all_of → get_or all_of j [] ≡ []
no_samples [] j h = refl
no_samples ([] ∷ all_of) zero h = refl
no_samples ((b ∷ c) ∷ all_of) zero h = let impossible : ⊥ = omega (arith, h.0) in absurd impossible
no_samples (c ∷ all_of) (suc j) h = no_samples all_of j h.1

column-pack_rows :
    (n : ℕ) (all_of : List Channel) (j : ℕ)
    → AreLong n all_of
    → j < length all_of
    → column 1 0 j n (pack_rows n all_of) ≡ get_or all_of j []
unfolding column pack_rows
column-pack_rows zero all_of j h lt = sym (no_samples all_of j h)
column-pack_rows (suc n) all_of j h lt =
    let rest =
      column-pack_rows n (rests all_of) j (rests-AreLong n all_of h)
        (rw (length-map (λ c. drop 1 c) all_of) lt) in
    rw (nth_bit-byte_of (firsts all_of) j, rest) (front n all_of j h lt)

get_or-drop :
    (all_of : List Channel) (i : ℕ) (c : Channel) (cs : List Channel)
    → drop i all_of ≡ c ∷ cs
    → (get_or all_of i [] ≡ c) × (i < length all_of) × (drop (suc i) all_of ≡ cs)
get_or-drop [] zero c cs e = cc
get_or-drop [] (suc i) c cs e = cc
get_or-drop (x ∷ all_of) zero c cs e = (cc, omega arith, cc)
get_or-drop (x ∷ all_of) (suc i) c cs e =
    let (here, inside, later) = get_or-drop all_of i c cs e in (here, omega arith, later)

-- Reading the columns of packed rows gives the channels back.
pub columns-pack_rows :
    (n i : ℕ) (all_of : List Channel) (channels : List (String × Channel))
    → AreLong n all_of
    → length all_of ≤ 8
    → drop i all_of ≡ map (λ e. e.1) channels
    → columns 1 n i (pack_rows n all_of) (map (λ e. e.0) channels) ≡ channels
unfolding columns
columns-pack_rows n i all_of [] h few e = refl
columns-pack_rows n i all_of ((name, c) ∷ channels) h few e =
    let (here, inside, later) = get_or-drop all_of i c _ e in
    let one : i / 8 ≡ 0 = omega arith in
    let bit_place : i % 8 ≡ i = omega arith in
    let next : i + 1 ≡ suc i = omega arith in
    let rest = columns-pack_rows n (i + 1) all_of channels h few (rw next later) in
    let column_is = column-pack_rows n all_of i h inside ∙ here in
    rw (one, bit_place, column_is, rest) refl
