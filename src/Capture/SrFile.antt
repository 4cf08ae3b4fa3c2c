-- ===== src/Capture/SrFile.antt =====
-- src/slidko/capture/srfile.py: session files. A sample is one byte, whose bits from the lowest are the channels.
-- A zip archive is its members; how a configuration text is parsed is a parameter, and channel names have no `%`,
-- which it would interpolate. Channel names are distinct.
use slidko.Prelude.{
  ℕ, zero, suc, ◌+◌, ◌-◌, ◌*◌, ◌/◌, ◌%◌, max, String, concat, Bool, false, not, ◌||◌, Option, none,
  some, List, [], ◌∷◌, ◌++◌, map, ltb, leb, ◌==◌, if◌then◌else◌, bit, length, get_or, take, drop,
  replicate, codes, show, Float, read_number, after,
}
use slidko.Result.{Result, ok, err, ◌>>=◌, require, value_error, index_error, zero_division_error}
use slidko.Measure.Edges.{Channel}
use slidko.Capture.{Capture}
pub mod Read
pub mod Packing
pub mod Laws

-- The members, but for the constant `version`.
pub record Archive : Type 0 where
  pub metadata : String
  pub chunks : List (String × List ℕ)

-- `probe1`, `probe2`, ... from a number on.
unfoldable pub probes : ℕ → List String → List (String × String)
probes i [] = []
probes i (name ∷ names) = (concat "probe" (show i), name) ∷ probes (i + 1) names

abbrev pub optional : String → Option String → List (String × String)
optional key none = []
optional key (some value) = (key, value) ∷ []

abbrev pub section_text : List (String × String) → String
section_text [] = ""
section_text ((key, value) ∷ entries) =
    concat key (concat "=" (concat value (concat "\n" (section_text entries))))

-- A byte from its bits, the lowest first.
unfoldable pub byte_of : List Bool → ℕ
byte_of [] = 0
byte_of (b ∷ bits) = bit b + 2 * byte_of bits

-- `np.packbits` of `n` rows, one from each channel.
unfoldable pub pack_rows : ℕ → List Channel → List ℕ
pack_rows zero columns = []
pack_rows (suc n) columns =
    byte_of (map (λ c. get_or c 0 false) columns) ∷ pack_rows n (map (λ c. drop 1 c) columns)

-- `bits[:, col] = channel` for each channel from column `col` on: a channel has `n` samples, or one for all.
unfoldable pub columns_of : ℕ → ℕ → List Channel → Result (List Channel)
columns_of n col [] = ok []
columns_of n col (c ∷ channels) =
    let rest = columns_of n (col + 1) channels in
    if leb 8 col
    then err index_error
    else if length c == n
    then (rest >>= (λ columns. ok (c ∷ columns)))
    else if length c == 1
    then (rest >>= (λ columns. ok (replicate n (get_or c 0 false) ∷ columns)))
    else err (value_error "could not broadcast input array")

abbrev pub first_length : List (String × Channel) → ℕ
first_length [] = 0
first_length ((name, c) ∷ channels) = length c

unfoldable pub packed_bytes : List (String × Channel) → Result (List ℕ)
unfolding columns_of pack_rows
packed_bytes channels =
    let n_samples = first_length channels in
    if length channels == 0 || n_samples == 0
    then ok []
    else (columns_of n_samples 0 (map (λ e. e.1) channels)
        >>= (λ columns. ok (pack_rows n_samples columns)))

abbrev pub chunk_name : ℕ → String
chunk_name k = concat "logic-1-" (show k)

-- The `while`, on as much fuel as there are bytes.
unfoldable pub chunked : ℕ → ℕ → ℕ → List ℕ → List (String × List ℕ)
chunked zero step chunk_index bytes = []
chunked (suc fuel) step chunk_index [] = []
chunked (suc fuel) step chunk_index (b ∷ bytes) =
    (chunk_name chunk_index, take step (b ∷ bytes))
    ∷ chunked fuel step (chunk_index + 1) (drop step (b ∷ bytes))

-- `chunk_size if chunk_size else max(len(packed_bytes), 1)`
abbrev pub step_of : Option ℕ → ℕ → ℕ
step_of none n = max n 1
step_of (some zero) n = max n 1
step_of (some (suc size)) n = suc size

unfoldable pub chunks_of : Option ℕ → List ℕ → List (String × List ℕ)
chunks_of chunk_size [] = ("logic-1-1", []) ∷ []
chunks_of chunk_size (b ∷ bytes) =
    chunked (length (b ∷ bytes)) (step_of chunk_size (length (b ∷ bytes))) 1 (b ∷ bytes)

module _ {F : Type 0} ⦃fl : Float F⦄ where
  abbrev pub threshold_text : Option F → Option String
  threshold_text none = none
  threshold_text (some v) = some (fl.repr v)

  unfoldable pub metadata : Capture F → List (String × String)
  metadata capture =
      ("capturefile", "logic-1")
      ∷ ("total probes", show (length capture.channels))
      ∷ ("samplerate", show capture.samplerate_hz)
      ∷ ("unitsize", "1")
      ∷ (probes 1 (map (λ e. e.0) capture.channels)
          ++ (optional "instrument" capture.instrument
              ++ optional "threshold_v" (threshold_text capture.threshold_v)))

  abbrev pub metadata_text : Capture F → String
  metadata_text capture = concat "[device 1]\n" (section_text (metadata capture))

  unfoldable pub write_sr : Capture F → Option ℕ → Result Archive
  write_sr capture chunk_size = packed_bytes capture.channels >>= (λ bytes.
      ok (record { metadata = metadata_text capture; chunks = chunks_of chunk_size bytes }))

abbrev pub whole : Option (ℕ × List ℕ) → Option ℕ
whole (some (n, [])) = some n
whole _ = none

-- `^logic-1-(\d+)$`
abbrev pub number_after : Option (List ℕ) → Option ℕ
number_after none = none
number_after (some rest) = whole (read_number 10 rest)

unfoldable pub chunk_number : String → Option ℕ
chunk_number name = number_after (after (codes "logic-1-") (codes name))

-- `sorted(..., key=...)` by number, as an insertion sort.
unfoldable pub insert_chunk : ℕ × List ℕ → List (ℕ × List ℕ) → List (ℕ × List ℕ)
insert_chunk c [] = c ∷ []
insert_chunk c (d ∷ chunks) =
    let rest = insert_chunk c chunks in if leb c.0 d.0 then c ∷ d ∷ chunks else d ∷ rest

abbrev pub place : Option ℕ → List ℕ → List (ℕ × List ℕ) → List (ℕ × List ℕ)
place none bytes chunks = chunks
place (some k) bytes chunks = insert_chunk (k, bytes) chunks

unfoldable pub sorted_chunks : List (String × List ℕ) → List (ℕ × List ℕ)
sorted_chunks [] = []
sorted_chunks ((name, bytes) ∷ members) = place (chunk_number name) bytes (sorted_chunks members)

abbrev pub joined : List (ℕ × List ℕ) → List ℕ
joined [] = []
joined ((k, bytes) ∷ chunks) = bytes ++ joined chunks

unfoldable pub stored_bytes : List (String × List ℕ) → List ℕ
unfolding sorted_chunks
stored_bytes members = joined (sorted_chunks members)

-- The bit of a byte at a place from the lowest, as `np.unpackbits` orders them.
unfoldable pub nth_bit : ℕ → ℕ → Bool
nth_bit byte zero = byte % 2 == 1
nth_bit byte (suc i) = nth_bit (byte / 2) i

-- `bits[:, i]` of `n` rows of `unitsize` bytes, with `i` as a byte of the row and a bit of that.
unfoldable pub column : ℕ → ℕ → ℕ → ℕ → List ℕ → Channel
column unitsize j k zero bytes = []
column unitsize j k (suc n) bytes =
    nth_bit (get_or bytes j 0) k ∷ column unitsize j k n (drop unitsize bytes)

unfoldable pub columns : ℕ → ℕ → ℕ → List ℕ → List String → List (String × Channel)
columns unitsize n i bytes [] = []
columns unitsize n i bytes (name ∷ names) =
    (name, column unitsize (i / 8) (i % 8) n bytes) ∷ columns unitsize n (i + 1) bytes names

unfoldable pub read_channels : List String → ℕ → List ℕ → Result (List (String × Channel))
unfolding columns
read_channels names unitsize [] = ok (map (λ name. (name, [])) names)
read_channels names unitsize (b ∷ bytes) =
    if unitsize == 0
    then err zero_division_error
    else if ltb (8 * unitsize) (length names)
    then err index_error
    else ok (columns unitsize (length (b ∷ bytes) / unitsize) 0 (b ∷ bytes) names)
