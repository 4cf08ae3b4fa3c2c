-- ===== src/Decode/NativeUart/Guards.antt =====
-- The guards of the native decoder, each as a condition on what the hypothesis states.
use slidko.Prelude.{
  ℕ, ◌<◌, String, ◌≡◌, refl, ap, ◌↔◌, ◌⊎◌, inl, inr, Bool, true, false, ◌&&◌, Option, none, some,
  List, arith, eq_iff, ◌==◌, if◌then◌else◌, ==_iff, lookup, Float,
}
use slidko.Result.{Error, zero_division_error, ok, err, ok-injective}
use slidko.Decode.Backend.{Value}
use slidko.Decode.NativeUart.{is_8n1, bit_period, is_close, is_none_parity, is_eight, is_one}

-- Missing, or one certain value.
abbrev pub IsAbsentOr : {A : Type 0} → A → Option A → Type 0
IsAbsentOr a v = (v ≡ none) ⊎ (v ≡ some a)

-- A guard that raises.
guard_iff :
    {A : Type 0} (raises : Bool) (raised : Error) (a b : A)
    → ((if raises then err raised else ok a) ≡ ok b) ↔ ((raises ≡ false) × (a ≡ b))
guard_iff true raised a b = (λ e. cc, λ e. cc)
guard_iff false raised a b = (λ e. (refl, ok-injective a b e), λ e. ap ok e.1)

module _ {F : Type 0} ⦃fl : Float F⦄ where
  -- One stop bit: none is stated, or a number close to 1.
  abbrev pub IsOneStop : Option (Value F) → Type 0
  IsOneStop none = Unit
  IsOneStop (some (Value.int n)) = is_close (fl.of_ℕ n) (fl.decimal 10 1) ≡ true
  IsOneStop (some (Value.float x)) = is_close x (fl.decimal 10 1) ≡ true
  IsOneStop (some _) = ⊥

  -- A baud that is not 0, and the samples of a bit at it.
  abbrev pub IsRate : ℕ → Value F → F → Type 0
  IsRate samplerate_hz (Value.int n) period =
      (0 < n) × (fl.div (fl.of_ℕ samplerate_hz) (fl.of_ℕ n) ≡ period)
  IsRate samplerate_hz (Value.float x) period =
      ((fl.le x (fl.of_ℕ 0) && fl.le (fl.of_ℕ 0) x) ≡ false)
      × (fl.div (fl.of_ℕ samplerate_hz) x ≡ period)
  IsRate samplerate_hz _ period = ⊥

  is_none_parity_iff :
      (v : Option (Value F)) → (is_none_parity v ≡ true) ↔ IsAbsentOr (Value.text "none") v
  is_none_parity_iff none = (λ e. inl refl, λ e. refl)
  is_none_parity_iff (some Value.null) = (λ e. cc, λ e. elim e [ inl a ↦ cc | inr a ↦ cc ])
  is_none_parity_iff (some (Value.int n)) = (λ e. cc, λ e. elim e [ inl a ↦ cc | inr a ↦ cc ])
  is_none_parity_iff (some (Value.float x)) = (λ e. cc, λ e. elim e [ inl a ↦ cc | inr a ↦ cc ])
  is_none_parity_iff (some (Value.text s)) = (
    λ e. inr (ap (λ t. some (Value.text t)) ((eq_iff s "none").0 e)),
    λ e. elim e [ inl a ↦ cc | inr a ↦ ap is_none_parity a ],
  )

  -- The parameter is no float.
  abbrev pub IsNoFloat : Option (Value F) → Type 0
  IsNoFloat (some (Value.float x)) = ⊥
  IsNoFloat _ = Unit

  is_eight_iff :
      (v : Option (Value F)) → IsNoFloat v → (is_eight v ≡ true) ↔ IsAbsentOr (Value.int 8) v
  is_eight_iff none whole = (λ e. inl refl, λ e. refl)
  is_eight_iff (some Value.null) whole = (λ e. cc, λ e. elim e [ inl a ↦ cc | inr a ↦ cc ])
  is_eight_iff (some (Value.text s)) whole = (λ e. cc, λ e. elim e [ inl a ↦ cc | inr a ↦ cc ])
  is_eight_iff (some (Value.float x)) whole = absurd whole
  is_eight_iff (some (Value.int n)) whole = (
    λ e. inr (ap (λ t. some (Value.int t)) ((==_iff n 8).0 e)),
    λ e. elim e [ inl a ↦ cc | inr a ↦ ap is_eight a ],
  )

  is_one_iff : (v : Option (Value F)) → (is_one v ≡ ok true) ↔ IsOneStop v
  is_one_iff none = (λ e. tt, λ e. refl)
  is_one_iff (some Value.null) = (λ e. cc, λ e. absurd e)
  is_one_iff (some (Value.text s)) = (λ e. cc, λ e. absurd e)
  is_one_iff (some (Value.float x)) = (λ e. ok-injective _ _ e, λ e. ap ok e)
  is_one_iff (some (Value.int n)) = (λ e. ok-injective _ _ e, λ e. ap ok e)

  pub bit_period_iff :
      (samplerate_hz : ℕ) (v : Value F) (period : F)
      → (bit_period samplerate_hz v ≡ ok period) ↔ IsRate samplerate_hz v period
  unfolding bit_period
  bit_period_iff samplerate_hz Value.null period = (λ e. cc, λ e. absurd e)
  bit_period_iff samplerate_hz (Value.text s) period = (λ e. cc, λ e. absurd e)
  bit_period_iff samplerate_hz (Value.int n) period =
      let guard =
        guard_iff (n == 0) zero_division_error (fl.div (fl.of_ℕ samplerate_hz) (fl.of_ℕ n))
          period in
      (
        λ e. let h = guard.0 e in (ground (arith, h.0), h.1),
        λ e. guard.1 (ground (arith, e.0), e.1),
      )
  bit_period_iff samplerate_hz (Value.float x) period =
      guard_iff _ zero_division_error (fl.div (fl.of_ℕ samplerate_hz) x) period

  abbrev pub AreGuards : Option (Value F) → Option (Value F) → Option (Value F) → Type 0
  AreGuards parity data_bits stop_bits =
      IsAbsentOr (Value.text "none") parity
      × IsAbsentOr (Value.int 8) data_bits
      × IsOneStop stop_bits

  guards_hold :
      (parity data_bits stop_bits : Option (Value F)) (p d : Bool)
      → IsNoFloat data_bits
      → is_none_parity parity ≡ p
      → is_eight data_bits ≡ d
      → (if p && d then is_one stop_bits else ok false) ≡ ok true
      → AreGuards parity data_bits stop_bits
  guards_hold parity data_bits stop_bits true true whole hp hd e = (
    (is_none_parity_iff parity).0 hp,
    (is_eight_iff data_bits whole).0 hd,
    (is_one_iff stop_bits).0 e,
  )
  guards_hold parity data_bits stop_bits true false whole hp hd e =
      let impossible : false ≡ true = ok-injective false true e in cc
  guards_hold parity data_bits stop_bits false d whole hp hd e =
      let impossible : false ≡ true = ok-injective false true e in cc

  pub is_8n1_iff :
      (parameters : List (String × Value F))
      → IsNoFloat (lookup "data_bits" parameters)
      → (is_8n1 parameters ≡ ok true)
        ↔ AreGuards
            (lookup "parity" parameters)
            (lookup "data_bits" parameters)
            (lookup "stop_bits" parameters)
  unfolding is_8n1
  is_8n1_iff parameters whole =
      let parity = lookup "parity" parameters in
      let data_bits = lookup "data_bits" parameters in
      let stop_bits = lookup "stop_bits" parameters in
      (
        λ e. guards_hold parity data_bits stop_bits _ _ whole refl refl e,
        λ h.
            rw ((is_none_parity_iff parity).1 h.0, (is_eight_iff data_bits whole).1 h.1)
              ((is_one_iff stop_bits).1 h.2),
      )
