-- ===== src/Capture/SrFile/Read.antt =====
-- `read_sr` and the sample rate of a session file's metadata. Whole numbers are digits.
use slidko.Prelude.{
  ℕ, zero, suc, ◌+◌, String, concat, Bool, false, not, ◌&&◌, ◌||◌, Option, none, some, List, [],
  ◌∷◌, leb, ◌==◌, if◌then◌else◌, length, codes, show, lookup, Float, read_number,
}
use slidko.Result.{Result, ok, err, ◌>>=◌, require, value_error}
use slidko.Measure.Edges.{Channel}
use slidko.Capture.{Capture}
use slidko.Capture.SrFile.{Archive, whole, stored_bytes, read_channels}
pub mod Laws

unfoldable pub is_space : ℕ → Bool
is_space c = c == 32 || (leb 9 c && leb c 13)

unfoldable pub skip_space : List ℕ → List ℕ
unfolding is_space
skip_space [] = []
skip_space (c ∷ cs) = let rest = skip_space cs in if is_space c then rest else c ∷ cs

-- `[0-9.]`
unfoldable pub is_numeral : ℕ → Bool
is_numeral c = (leb 48 c && leb c 57) || c == 46

-- `[0-9.]*`, and what follows.
unfoldable pub numeral : List ℕ → List ℕ × List ℕ
numeral [] = ([], [])
numeral (c ∷ cs) =
    let (here, rest) = numeral cs in
    let found : List ℕ × List ℕ = if is_numeral c then (c ∷ here, rest) else ([], c ∷ cs) in found

-- `_SAMPLERATE_SCALE` of the prefix letter that a text begins with.
abbrev pub scale_of : ℕ → Option ℕ
scale_of c =
    if c == b'k' || c == b'K'
    then some 1000
    else if c == b'm' || c == b'M'
    then some 1000000
    else if c == b'g' || c == b'G'
    then some 1000000000
    else none

-- `Hz\s*$`
abbrev pub is_hertz : List ℕ → Bool
is_hertz (h ∷ z ∷ rest) = h == b'H' && (z == b'z' && length (skip_space rest) == 0)
is_hertz _ = false

-- The scale of a unit, if the text is one.
unfoldable pub unit_scale : List ℕ → Option ℕ
unit_scale [] = none
unit_scale (c ∷ cs) =
    let prefixed = if is_hertz cs then scale_of c else none in
    if is_hertz (c ∷ cs) then some 1 else prefixed

-- `_SAMPLERATE_RE.match`: the numeral and the scale.
abbrev pub match_unit : List ℕ × List ℕ → Option (List ℕ × ℕ)
match_unit ([], rest) = none
match_unit (c ∷ value, rest) = elim (unit_scale (skip_space rest)) [
  | none ↦ none
  | some scale ↦ some (c ∷ value, scale)
]

abbrev pub int_from : String → Option ℕ → Result ℕ
int_from text none = err (value_error text)
int_from text (some n) = ok n

-- `int(text)`
abbrev pub int_of : String → Result ℕ
int_of text = int_from text (whole (read_number 10 (codes text)))

-- `d.get(key, default)`, of what the key gives.
abbrev pub value_or : String → Option String → String
value_or default none = default
value_or default (some value) = value

-- `[device.get(f"probe{i}", f"ch{i}") for i in range(i, i + n)]`
unfoldable pub probe_names : ℕ → ℕ → List (String × String) → List String
probe_names i zero device = []
probe_names i (suc n) device =
    value_or (concat "ch" (show i)) (lookup (concat "probe" (show i)) device)
    ∷ probe_names (i + 1) n device

module _ {F : Type 0} ⦃fl : Float F⦄ (to_float : List ℕ → Option F) where
  abbrev pub float_from : Option F → Result F
  float_from none = err (value_error "could not convert string to float")
  float_from (some x) = ok x

  abbrev pub float_of : List ℕ → Result F
  float_of text = float_from (to_float text)

  abbrev pub rate_from : String → Option (List ℕ × ℕ) → Result ℕ
  rate_from raw none = int_of raw
  rate_from raw (some (value, scale)) =
      float_of value >>= (λ x. ok (fl.trunc (fl.mul x (fl.of_ℕ scale))))

  unfoldable pub parse_samplerate : String → Result ℕ
  parse_samplerate raw = rate_from raw (match_unit (numeral (skip_space (codes raw))))

  abbrev pub threshold_from : Option String → Result (Option F)
  threshold_from none = ok none
  threshold_from (some text) = float_of (codes text) >>= (λ x. ok (some x))

  -- What the metadata and the bytes say.
  unfoldable pub capture_from : List ℕ → List (String × String) → Result (Capture F)
  capture_from bytes device = do
    raw ← require "samplerate" device
    samplerate_hz ← parse_samplerate raw
    total ← require "total probes" device
    n_channels ← int_of total
    unitsize ← int_of (value_or "1" (lookup "unitsize" device))
    channels ← read_channels (probe_names 1 n_channels device) unitsize bytes
    threshold_v ← threshold_from (lookup "threshold_v" device)
    ok (record {
      channels = channels;
      samplerate_hz = samplerate_hz;
      instrument = lookup "instrument" device;
      threshold_v = threshold_v;
    })

  unfoldable pub read_sr : (String → Result (List (String × String))) → Archive → Result (Capture F)
  read_sr parse archive = parse archive.metadata >>= capture_from (stored_bytes archive.chunks)
