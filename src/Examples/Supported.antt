-- ===== src/Examples/Supported.antt =====
-- Concrete input for what the native decoder accepts, over floats that are whole numbers.
use slidko.Prelude.{
  ℕ, ◌+◌, ◌-◌, ◌*◌, ◌/◌, ◌^◌, ◌≡◌, refl, ◌↔◌, inl, true, false, List, [], ◌∷◌, arith, ltb, leb,
  show, Float,
}
use slidko.Result.{ok}
use slidko.Decode.Backend.{Value}
use slidko.Decode.Events.{DecodedEvent}
use slidko.Decode.NativeUart.{decode}
use slidko.Decode.NativeUart.Transmit.{uart_on, capture_of}
use slidko.Decode.NativeUart.Supported.{Advances, IsSupported, decode-IsSupported}

instance abbrev whole_float : Float ℕ
whole_float = record {
  of_ℕ = λ n. n;
  decimal = λ m e. m / 10 ^ e;
  add = λ a b. a + b;
  sub = λ a b. a - b;
  mul = λ a b. a * b;
  div = λ a b. a / b;
  lt = ltb;
  le = leb;
  round = λ n. n;
  trunc = λ n. n;
  fixed = λ places n. show n;
  percent = λ places n. show (100 * n);
  repr = show;
  abs = λ n. n;
}

whole-Advances : (p : ℕ) → Advances ℕ p
whole-Advances p slow = (λ k h. grind arith, ground (arith, slow))

decode-IsSupported_example :
    ((events : List DecodedEvent) × (decode {F = ℕ}
          (capture_of 440 (true ∷ true ∷ false ∷ []))
          (uart_on 110)
        ≡ ok events))
    ↔ IsSupported {F = ℕ} (capture_of 440 (true ∷ true ∷ false ∷ [])) (uart_on 110)
decode-IsSupported_example =
    decode-IsSupported (capture_of 440 (true ∷ true ∷ false ∷ [])) (uart_on 110) tt
      (λ baud p stated rate. whole-Advances p)

-- The hypothesis is supported.
four_samples-IsSupported :
    IsSupported {F = ℕ} (capture_of 440 (true ∷ true ∷ false ∷ [])) (uart_on 110)
four_samples-IsSupported = record {
  rx_channel = "RX";
  assigned = refl;
  parity = inl refl;
  data_bits = inl refl;
  stop_bits = tt;
  rx_signal = true ∷ true ∷ false ∷ [];
  captured = refl;
  baud = Value.int 110;
  stated = refl;
  period = 4;
  rate = (omega arith, refl);
  slow_enough = refl;
}
