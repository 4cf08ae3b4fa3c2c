-- ===== src/Decode/Events.antt =====
-- src/slidko/decode/events.py: the normalised event of every decoder.
use slidko.Prelude.{
  ℕ, String, List, Option, none, some, Bool, false, not, ◌==◌, is_empty, Float, str_eq,
}

-- What a value of `data: dict[str, Any]` may be.
pub data Payload : Type 0 where
  null : Payload
  int : ℕ → Payload
  flag : Bool → Payload
  text : String → Payload

pub record DecodedEvent : Type 0 where
  pub kind : String
  pub start_sample : ℕ
  pub end_sample : ℕ
  pub payload : List (String × Payload)
  pub channel : Option String

-- The truth value of `data.get(key)`.
abbrev pub truthy : Option Payload → Bool
truthy none = false
truthy (some null) = false
truthy (some (int n)) = not (n == 0)
truthy (some (flag b)) = b
truthy (some (text s)) = not (is_empty s)

abbrev pub kind_is : String → DecodedEvent → Bool
kind_is k e = str_eq e.kind k

unfoldable pub seconds : {F : Type 0} ⦃fl : Float F⦄ → DecodedEvent → F → F
seconds ⦃fl⦄ e samplerate_hz = fl.div (fl.of_ℕ e.start_sample) samplerate_hz
