-- ===== src/Measure/Smoke/Finding.antt =====
-- A finding of the smoke detector, and the constants of the checks.
use slidko.Prelude.{ℕ, String, List, Float}
use slidko.Decode.Backend.{Value}

abbrev pub chatter_min_edges : ℕ
chatter_min_edges = 3

abbrev pub runt_max_samples : ℕ
runt_max_samples = 2

abbrev pub ws2812_t0h_ns : ℕ
ws2812_t0h_ns = 400

abbrev pub ws2812_t1h_ns : ℕ
ws2812_t1h_ns = 800

abbrev pub ws2812_window_ns : ℕ
ws2812_window_ns = 150

-- 0.25
abbrev pub chatter_fraction : {F : Type 0} ⦃fl : Float F⦄ → F
chatter_fraction ⦃fl⦄ = fl.decimal 25 2

-- 0.0
abbrev pub incoherence_frame_err_rate : {F : Type 0} ⦃fl : Float F⦄ → F
incoherence_frame_err_rate ⦃fl⦄ = fl.decimal 0 1

pub record SmokeFinding (F : Type 0) : Type 0 where
  pub check : String
  pub channel : String
  pub start_sample : ℕ
  pub end_sample : ℕ
  pub severity : String
  pub summary : String
  pub escalation : String
  pub evidence : List (String × Value F)
