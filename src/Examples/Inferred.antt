-- ===== src/Examples/Inferred.antt =====
-- Concrete input for a line whose baud nobody states: four samples for each bit, at 110 baud.
use slidko.Prelude.{
  ◌/◌, ◌%◌, ◌≡◌, refl, inl, inr, Bool, true, List, [], ◌∷◌, arith, ◌==◌, if◌then◌else◌, Float,
}
use slidko.Prelude.Ratio.{Ratio, ratio, ratio_float}
use slidko.Result.{ok}
use slidko.Numpy.{Statistics, plain_numpy, plain_numpy-laws}
use slidko.Measure.Edges.{gaps}
use slidko.Measure.Edges.Laws.{edge_scan}
use slidko.Measure.Uart.{infer_uart}
use slidko.Decode.NativeUart.{decode}
use slidko.Decode.NativeUart.Frame.{frame}
use slidko.Decode.NativeUart.Scan.{received}
use slidko.Decode.NativeUart.Transmit.{uart_on, capture_of}
use slidko.Decode.NativeUart.Auto.Intervals.{bit_gaps}
use slidko.Decode.NativeUart.Auto.Bytes.{line_with, frames, IsReadable, decode-infer_uart}
use slidko.Examples.Arrays.{plain_statistics}
use slidko.Examples.Decoding.{five, letter, four-IsCentered}
use slidko.Examples.Discriminators.{ratio-LtIsTransitive, ratio-LtIsIrreflexive}

-- A whole number is kept as one.
abbrev reduced : Ratio → Ratio
reduced r = if r.num % r.den == 0 then ratio (r.num / r.den) 1 else r

abbrev exact_float : Float Ratio
exact_float = record ratio_float { div = λ a b. reduced (ratio_float.div a b) }

abbrev exact_statistics : Statistics Ratio
exact_statistics = record plain_statistics { mean = λ xs. reduced (plain_statistics.mean xs) }

abbrev message : List (List Bool)
message = letter ∷ five ∷ []

message_gaps : bit_gaps true (frames message) ≡ 1 ∷ 1 ∷ 5 ∷ 1 ∷ 1 ∷ 1 ∷ 1 ∷ 1 ∷ 1 ∷ 1 ∷ 5 ∷ []
unfolding bit_gaps frame edge_scan gaps
message_gaps = refl

message-IsReadable : IsReadable Ratio ⦃fl = exact_float⦄ ⦃st = exact_statistics⦄ 440 110 3 message
message-IsReadable = record {
  octets = (refl, (refl, tt));
  lone = rw message_gaps refl;
  exact =
      rw message_gaps
        (record { positive = refl; multiples = search; widths = search; mean = refl });
  clear = (refl, search (inl, inr));
  nonzero = omega arith;
  fits = (refl, four-IsCentered, refl);
}

decode-infer_uart_example :
    decode ⦃fl = exact_float⦄ (capture_of {F = Ratio} 440 (line_with 2 3 message)) (
      uart_on
        (infer_uart {F = Ratio} ⦃fl = exact_float⦄ ⦃st = exact_statistics⦄
          (line_with 2 3 message)
          440).baud)
    ≡ ok (received 4 3 message)
decode-infer_uart_example =
    decode-infer_uart Ratio ⦃fl = exact_float⦄ ⦃np = plain_numpy⦄ ⦃st = exact_statistics⦄
      ratio-LtIsTransitive ratio-LtIsIrreflexive plain_numpy-laws 440 110 3 2 message
      message-IsReadable
