-- ===== src/Capture/SrFile/Read/Laws.antt =====
-- The metadata that is written is read back.
use slidko.Prelude.{
  ℕ, ◌+◌, ◌*◌, ◌≤◌, ◌<◌, String, concat, ◌≡◌, refl, sym, ap, ◌∙◌, inl, inr, true, false, ◌&&◌,
  Option, none, some, List, [], ◌∷◌, ◌++◌, map, arith, str_eq, eq_iff, leb, ◌==◌, ==_iff,
  Bool-cases, length, length-map, codes, show, lookup, str_eq_self, Float, read_number, scan_digits,
  digit_in, hex_digit, append-nil, after, codes-concat, read_number-show,
}
use slidko.Prelude.Digits.{scan_digits-show, digit_in-decimal}
use slidko.Result.{Result, ok, ◌>>=◌}
use slidko.Measure.Edges.{Channel}
use slidko.Capture.{Capture}
use slidko.Capture.SrFile.{
  Archive, probes, optional, threshold_text, metadata, metadata_text, write_sr, read_channels,
  stored_bytes, whole, number_after,
}
use slidko.Capture.SrFile.Laws.{IsRegular, write_sr-stored}
use slidko.Capture.SrFile.Read.{
  is_space, int_from, float_from, capture_from, skip_space, numeral, is_numeral, match_unit,
  unit_scale, parse_samplerate, rate_from, int_of, probe_names, threshold_from, read_sr,
}

after-append : (pre xs : List ℕ) → after pre (pre ++ xs) ≡ some xs
after-append [] xs = refl
after-append (p ∷ pre) xs =
    let same : (p == p) ≡ true = ground arith in rw same (after-append pre xs)

whole-show : (n : ℕ) → whole (read_number 10 (codes (show n))) ≡ some n
whole-show n =
    ap (λ cs. whole (read_number 10 cs)) (sym (append-nil (codes (show n))))
    ∙ ap (λ r. whole r) (read_number-show n [] refl)

-- A numbered key gives its number.
numbered_key :
    (pre : String) (k : ℕ) → number_after (after (codes pre) (codes (concat pre (show k)))) ≡ some k
numbered_key pre k =
    ap (λ cs. number_after (after (codes pre) cs)) (codes-concat pre (show k))
    ∙ ap (λ o. number_after o) (after-append (codes pre) (codes (show k)))
    ∙ whole-show k

abbrev probe : ℕ → String
probe k = concat "probe" (show k)

probe-differs : (i j : ℕ) → i < j → str_eq (probe i) (probe j) ≡ false
probe-differs i j h = elim (Bool-cases (str_eq (probe i) (probe j))) [
  | inr n ↦ n
  | inl y ↦
      let same : probe i ≡ probe j = (eq_iff (probe i) (probe j)).0 y in
      let number : some i ≡ some j =
        sym (numbered_key "probe" i)
        ∙ ap (λ t. number_after (after (codes "probe") (codes t))) same
        ∙ numbered_key "probe" j in
      let equal : i ≡ j = cc in let impossible : ⊥ = omega (arith, equal) in absurd impossible
]

abbrev head_code : List ℕ → ℕ
head_code [] = 0
head_code (c ∷ cs) = c

head_code-probe : (j : ℕ) → head_code (codes (probe j)) ≡ 112
head_code-probe j = ap (λ cs. head_code cs) (codes-concat "probe" (show j))

-- A key that does not begin with `p` is none of the numbered ones.
other_key :
    (k : String) (j : ℕ)
    → (head_code (codes k) == 112) ≡ false
    → (str_eq k (probe j) ≡ false) × (str_eq (probe j) k ≡ false)
other_key k j h =
    let differs : k ≡ probe j → ⊥ = λ same.
      let equal : head_code (codes k) ≡ 112 =
        ap (λ t. head_code (codes t)) same ∙ head_code-probe j in
      let yes = (==_iff (head_code (codes k)) 112).1 equal in let no : true ≡ false = cc in cc in
    (
      (elim (Bool-cases (str_eq k (probe j))) [
        | inr n ↦ n
        | inl y ↦ absurd (differs ((eq_iff k (probe j)).0 y))
      ]),
      (elim (Bool-cases (str_eq (probe j) k)) [
        | inr n ↦ n
        | inl y ↦ absurd (differs (sym ((eq_iff (probe j) k).0 y)))
      ]),
    )

lookup-probes_miss :
    (k : String) (i : ℕ) (names : List String) (rest : List (String × String))
    → (head_code (codes k) == 112) ≡ false
    → lookup k (probes i names ++ rest) ≡ lookup k rest
unfolding probes
lookup-probes_miss k i [] rest h = refl
lookup-probes_miss k i (name ∷ names) rest h =
    rw (other_key k i h).1 (lookup-probes_miss k (i + 1) names rest h)

probe_names-probes :
    (i : ℕ) (names : List String) (rest device : List (String × String))
    → ((j : ℕ) → i ≤ j → lookup (probe j) device ≡ lookup (probe j) (probes i names ++ rest))
    → probe_names i (length names) device ≡ names
unfolding probe_names probes
probe_names-probes i [] rest device h = refl
probe_names-probes i (name ∷ names) rest device h =
    let here = h i (omega arith) in
    let found : lookup (probe i) device ≡ some name = here ∙ rw (str_eq_self (probe i)) refl in
    let later =
      probe_names-probes (i + 1) names rest device
        (λ j le. h j (omega arith) ∙ rw (probe-differs i j (omega arith)) refl) in
    rw (found, later) refl

decimal_numeral :
    (c : ℕ) → (leb 48 c && leb c 57) ≡ true → (is_numeral c ≡ true) × (is_space c ≡ false)
unfolding is_numeral is_space
decimal_numeral c h = (ground arith, ground arith)

no_unit : (cs : List ℕ) → match_unit (cs, []) ≡ none
unfolding skip_space unit_scale
no_unit [] = refl
no_unit (c ∷ cs) = refl

lookup_instrument :
    (o t : Option String)
    → lookup "instrument" (optional "instrument" o ++ optional "threshold_v" t) ≡ o
lookup_instrument none none = refl
lookup_instrument none (some t) = refl
lookup_instrument (some name) t = refl

lookup_threshold :
    (o t : Option String)
    → lookup "threshold_v" (optional "instrument" o ++ optional "threshold_v" t) ≡ t
lookup_threshold none none = refl
lookup_threshold none (some t) = refl
lookup_threshold (some name) none = refl
lookup_threshold (some name) (some t) = refl

-- The digits of a number are no numeral with a unit.
scan_digits-numeral :
    (acc v : ℕ) (cs : List ℕ)
    → scan_digits 10 acc cs ≡ (v, [])
    → (numeral cs ≡ (cs, [])) × (skip_space cs ≡ cs)
unfolding numeral skip_space scan_digits
scan_digits-numeral acc v [] e = (refl, refl)
scan_digits-numeral acc v (c ∷ cs) e =
    by_digit (digit_in 10 c) refl (λ a. scan_digits-numeral a v cs)
  where
    by_digit :
        (o : Option ℕ)
        → digit_in 10 c ≡ o
        → ((a : ℕ) → scan_digits 10 a cs ≡ (v, []) → (numeral cs ≡ (cs, [])) × (skip_space cs ≡ cs))
        → (numeral (c ∷ cs) ≡ (c ∷ cs, [])) × (skip_space (c ∷ cs) ≡ c ∷ cs)
    by_digit none is ih =
        let ends : ◌≡◌ {A = ℕ × List ℕ} (acc, c ∷ cs) (v, []) = (rw (scan_digits, is) at e) in
        let no : c ∷ cs ≡ [] = ap (λ (p : ℕ × List ℕ). p.1) ends in cc
    by_digit (some d) is ih =
        let (later, rest) = ih (acc * 10 + d) (rw (scan_digits, is) at e) in
        let (digit, visible) = decimal_numeral c (digit_in-decimal c d is) in
        rw (digit, visible, later) (refl, refl)

bind-ok {ℓ κ} :
    {A : Type ℓ} {B : Type κ} {r : Result A} {a : A} (f : A → Result B) → r ≡ ok a → (r >>= f) ≡ f a
bind-ok f e = rw e refl

int_of-one : int_of "1" ≡ ok 1
unfolding read_number digit_in hex_digit scan_digits
int_of-one = refl

-- The numbered keys are looked for among the numbered entries.
lookup-metadata :
    {F : Type 0} ⦃fl : Float F⦄ (capture : Capture F) (j : ℕ)
    → lookup (probe j) (metadata capture)
      ≡ lookup (probe j) (
          probes 1 (map (λ e. e.0) capture.channels)
          ++ (optional "instrument" capture.instrument
              ++ optional "threshold_v" (threshold_text capture.threshold_v)))
unfolding metadata
lookup-metadata capture j =
    rw
      (
        (other_key "capturefile" j refl).0,
        (other_key "total probes" j refl).0,
        (other_key "samplerate" j refl).0,
        (other_key "unitsize" j refl).0,
      )
      refl

module _ {F : Type 0} ⦃fl : Float F⦄ (to_float : List ℕ → Option F) where
  parse_samplerate-show : (n : ℕ) → parse_samplerate to_float (show n) ≡ ok n
  unfolding parse_samplerate
  parse_samplerate-show n =
      let (digits, text) = scan_digits-numeral 0 n (codes (show n)) (scan_digits-show n) in
      ap (λ cs. rate_from to_float (show n) (match_unit (numeral cs))) text
      ∙ ap (λ r. rate_from to_float (show n) (match_unit r)) digits
      ∙ ap (λ o. rate_from to_float (show n) o) (no_unit (codes (show n)))
      ∙ ap (λ o. int_from (show n) o) (whole-show n)

  threshold_from-text :
      (o : Option F)
      → ((v : F) → o ≡ some v → to_float (codes (fl.repr v)) ≡ some v)
      → threshold_from to_float (threshold_text o) ≡ ok o
  threshold_from-text none h = refl
  threshold_from-text (some v) h =
      bind-ok (λ x. ok (some x)) (ap (λ o. float_from to_float o) (h v refl))

  capture_from-metadata :
      (capture : Capture F) (bytes : List ℕ)
      → read_channels (map (λ e. e.0) capture.channels) 1 bytes ≡ ok capture.channels
      → ((v : F) → capture.threshold_v ≡ some v → to_float (codes (fl.repr v)) ≡ some v)
      → capture_from to_float bytes (metadata capture) ≡ ok capture
  unfolding capture_from metadata
  capture_from-metadata capture bytes samples floats =
      let names : List String = map (λ e. e.0) capture.channels in
      let last : List (String × String) =
        optional "instrument" capture.instrument
        ++ optional "threshold_v" (threshold_text capture.threshold_v) in
      let device : List (String × String) = metadata capture in
      let named : probe_names 1 (length capture.channels) device ≡ names =
        ap (λ n. probe_names 1 n device)
          (sym (length-map (λ (e : String × Channel). e.0) capture.channels))
        ∙ probe_names-probes 1 names last device (λ j le. lookup-metadata capture j) in
      let instrument : lookup "instrument" device ≡ capture.instrument =
        lookup-probes_miss "instrument" 1 names last refl
        ∙ lookup_instrument capture.instrument _ in
      let threshold : lookup "threshold_v" device ≡ threshold_text capture.threshold_v =
        lookup-probes_miss "threshold_v" 1 names last refl
        ∙ lookup_threshold capture.instrument _ in
      bind-ok _ (parse_samplerate-show capture.samplerate_hz)
      ∙ bind-ok _ (
          ap (λ o. int_from (show (length capture.channels)) o)
            (whole-show (length capture.channels)))
      ∙ bind-ok _ int_of-one
      ∙ bind-ok _ (ap (λ ns. read_channels ns 1 bytes) named ∙ samples)
      ∙ bind-ok _ (
          ap (λ o. threshold_from to_float o) threshold
          ∙ threshold_from-text capture.threshold_v floats)
      ∙ ap
          (λ i. ok (record {
            channels = capture.channels;
            samplerate_hz = capture.samplerate_hz;
            instrument = i;
            threshold_v = capture.threshold_v;
          }))
          instrument

  -- A capture whose channels have one length and are at most eight is read back as it was written, in chunks of any
  -- size, if its metadata is parsed as what it is printed from and its threshold is what its text says.
  pub read_sr-write_sr :
      (parse : String → Result (List (String × String))) (capture : Capture F)
      (chunk_size : Option ℕ)
      → IsRegular capture
      → parse (metadata_text capture) ≡ ok (metadata capture)
      → ((v : F) → capture.threshold_v ≡ some v → to_float (codes (fl.repr v)) ≡ some v)
      → (archive : Archive) × (write_sr capture chunk_size ≡ ok archive)
        × (read_sr to_float parse archive ≡ ok capture)
  unfolding read_sr
  read_sr-write_sr parse capture size regular parsed floats =
      let (archive, written, text, samples) = write_sr-stored capture size regular in
      (
        archive,
        written,
        bind-ok _ (ap parse text ∙ parsed)
            ∙ capture_from-metadata capture (stored_bytes archive.chunks) samples floats,
      )
