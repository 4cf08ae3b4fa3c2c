-- ===== src/Measure/Smoke/Run/Lines.antt =====
-- Which lines the checks of `run_smoke` are about.
use slidko.Prelude.{
  String, ◌≡◌, refl, ap, ◌⊎◌, inl, inr, Bool, true, false, ◌||◌, Option, none, some, List, [], ◌∷◌,
  map, str_eq, eq_iff, Bool-cases, All, is_empty, lookup, text_mem, str_eq_self,
}
use slidko.Capture.{Capture}
use slidko.Decode.Backend.{ProtocolHypothesis}
use slidko.Measure.Smoke.Incoherence.{get_channel}
use slidko.Measure.Smoke.Run.{
  protocol_is, singleton_of, chatter_clock_role, chatter_eligible_channels,
}

-- A line whose rate is known: the clock line of the protocol, or, if the protocol is not one with a clock line, any assigned
-- channel.
abbrev pub IsChatterLine : {F : Type 0} → ProtocolHypothesis F → String → Type 0
IsChatterLine h c =
    ((protocol_is "uart" h ≡ true) × (lookup "rx" h.channel_assignments ≡ some c))
    ⊎ ((protocol_is "i2c" h ≡ true) × (lookup "scl" h.channel_assignments ≡ some c))
    ⊎ ((protocol_is "spi" h ≡ true) × (lookup "clk" h.channel_assignments ≡ some c))
    ⊎ ((protocol_is "uart" h ≡ false)
        × (protocol_is "i2c" h ≡ false)
        × (protocol_is "spi" h ≡ false)
        × (text_mem c (map (λ a. a.1) h.channel_assignments) ≡ true))

-- The line whose decoding an incoherence is about.
abbrev pub IsDecodedLine : {F : Type 0} → ProtocolHypothesis F → String → Type 0
IsDecodedLine h c =
    ((protocol_is "uart" h ≡ true) × (c ≡ get_channel "rx" h.channel_assignments))
    ⊎ ((protocol_is "i2c" h ≡ true) × (c ≡ get_channel "sda" h.channel_assignments))

abbrev pub captured_names : {F : Type 0} → Capture F → List String
captured_names capture = map (λ c. c.0) capture.channels

singleton-text_mem :
    (o : Option String) (c : String) → text_mem c (singleton_of o) ≡ true → o ≡ some c
unfolding is_empty
singleton-text_mem none c m = cc
singleton-text_mem (some channel) c m = elim (Bool-cases (is_empty channel)) [
  | inl y ↦ let bad = rw y at m in cc
  | inr n ↦ ap (λ x. some x) ((eq_iff channel c).0 (or_false (str_eq channel c) (rw n at m)))
]
  where
    or_false : (b : Bool) → (b || false) ≡ true → b ≡ true
    or_false true e = refl
    or_false false e = cc

pub eligible-IsChatterLine :
    {F : Type 0} (h : ProtocolHypothesis F) (c : String)
    → text_mem c (chatter_eligible_channels h) ≡ true
    → IsChatterLine h c
unfolding chatter_eligible_channels chatter_clock_role
eligible-IsChatterLine h c m = elim (Bool-cases (protocol_is "uart" h)) [
  | inl uart ↦ inl (uart, singleton-text_mem _ c (rw uart at m))
  | inr no_uart ↦ elim (Bool-cases (protocol_is "i2c" h)) [
    | inl i2c ↦ inr (inl (i2c, singleton-text_mem _ c (rw (no_uart, i2c) at m)))
    | inr no_i2c ↦ elim (Bool-cases (protocol_is "spi" h)) [
      | inl spi ↦ inr (inr (inl (spi, singleton-text_mem _ c (rw (no_uart, no_i2c, spi) at m))))
      | inr no_spi ↦ inr (inr (inr (no_uart, no_i2c, no_spi, (rw (no_uart, no_i2c, no_spi) at m))))
    ]
  ]
]

pub text_mem-All :
    (names xs : List String)
    → ((n : String) → text_mem n xs ≡ true → text_mem n names ≡ true)
    → All (λ n. text_mem n names ≡ true) xs
text_mem-All names [] h = tt
text_mem-All names (x ∷ xs) h = (
  h x (rw (str_eq_self x) refl),
  text_mem-All names xs (λ n m. h n (or_true (str_eq x n) (text_mem n xs) m)),
)
  where
    or_true : (a b : Bool) → b ≡ true → (a || b) ≡ true
    or_true true b e = refl
    or_true false b e = e
