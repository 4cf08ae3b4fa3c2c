-- ===== src/Capture/SrFile/Laws.antt =====
-- What is written is read back.
use slidko.Prelude.{
  ℕ, zero, suc, ◌+◌, ◌/◌, ◌≤◌, ◌<◌, String, ◌≡◌, refl, sym, ap, ◌∙◌, true, false, Option, none,
  some, List, [], ◌∷◌, ◌++◌, map, arith, ltb, leb, ◌==◌, le→leb, length, take, drop, length-map,
  length-drop, take-append-drop, codes, show, Float, read_number, digit_in, hex_digit, append-nil,
  after, codes-concat, read_number-show,
}
use slidko.Result.{ok}
use slidko.Measure.Edges.{Channel}
use slidko.Capture.{Capture}
use slidko.Capture.SrFile.{
  Archive, metadata_text, packed_bytes, write_sr, columns_of, pack_rows, first_length, chunk_name,
  chunked, step_of, chunks_of, whole, number_after, place, chunk_number, insert_chunk,
  sorted_chunks, joined, stored_bytes, read_channels,
}
use slidko.Capture.SrFile.Packing.{AreLong, columns-pack_rows}

chunk_number-chunk_name : (k : ℕ) → chunk_number (chunk_name k) ≡ some k
unfolding chunk_number
chunk_number-chunk_name k =
    let digits : read_number 10 (codes (show k)) ≡ some (k, []) =
      ap (read_number 10) (sym (append-nil (codes (show k)))) ∙ read_number-show k [] refl in
    let split : codes (chunk_name k) ≡ codes "logic-1-" ++ codes (show k) =
      codes-concat "logic-1-" (show k) in
    ap (λ cs. number_after (after (codes "logic-1-") cs)) split ∙ ap (λ r. whole r) digits

-- Chunks whose numbers increase, all from `k` on.
abbrev AreFrom : ℕ → List (ℕ × List ℕ) → Type 0
AreFrom k [] = Unit
AreFrom k ((j, bytes) ∷ chunks) = (k ≤ j) × AreFrom (suc j) chunks

insert_chunk-first :
    (k : ℕ) (bytes : List ℕ) (chunks : List (ℕ × List ℕ))
    → AreFrom k chunks
    → insert_chunk (k, bytes) chunks ≡ (k, bytes) ∷ chunks
unfolding insert_chunk
insert_chunk-first k bytes [] h = refl
insert_chunk-first k bytes ((j, other) ∷ chunks) (h, hs) = rw (le→leb k j h) refl

AreFrom-lower : (k : ℕ) (chunks : List (ℕ × List ℕ)) → AreFrom (suc k) chunks → AreFrom k chunks
AreFrom-lower k [] h = tt
AreFrom-lower k ((j, bytes) ∷ chunks) (h, hs) = (omega arith, hs)

AreFrom-eq : (j k : ℕ) (chunks : List (ℕ × List ℕ)) → j ≡ k → AreFrom j chunks → AreFrom k chunks
AreFrom-eq j k chunks e h = rw e at h

module _ (step : ℕ) (some_step : 0 < step) where
  chunked-joined :
      (fuel k : ℕ) (bytes : List ℕ)
      → length bytes ≤ fuel
      → AreFrom k (sorted_chunks (chunked fuel step k bytes))
        × (joined (sorted_chunks (chunked fuel step k bytes)) ≡ bytes)
  unfolding chunked sorted_chunks
  chunked-joined zero k [] h = (tt, refl)
  chunked-joined zero k (b ∷ bytes) h = let impossible : ⊥ = omega (arith, h) in absurd impossible
  chunked-joined (suc fuel) k [] h = (tt, refl)
  chunked-joined (suc fuel) k (b ∷ bytes) h =
      let size = length-drop step (b ∷ bytes) in
      let next : k + 1 ≡ suc k = omega arith in
      let (order, kept) = chunked-joined fuel (k + 1) (drop step (b ∷ bytes)) (omega arith) in
      let chunks = sorted_chunks (chunked fuel step (k + 1) (drop step (b ∷ bytes))) in
      let later = AreFrom-eq (k + 1) (suc k) chunks next order in
      let first : List ℕ = take step (b ∷ bytes) in
      let in_order : place (chunk_number (chunk_name k)) first chunks ≡ (k, first) ∷ chunks =
        ap (λ o. place o first chunks) (chunk_number-chunk_name k)
        ∙ insert_chunk-first k first chunks (AreFrom-lower k chunks later) in
      rw in_order ((omega arith, later), rw kept (take-append-drop step (b ∷ bytes)))

step_of-positive : (size : Option ℕ) (n : ℕ) → 0 < step_of size n
step_of-positive none n = omega arith
step_of-positive (some zero) n = omega arith
step_of-positive (some (suc size)) n = omega arith

nothing_stored : joined (sorted_chunks (("logic-1-1", []) ∷ [])) ≡ []
unfolding sorted_chunks chunk_number read_number insert_chunk digit_in hex_digit
nothing_stored = refl

-- The chunks hold the bytes, in whatever sizes they are cut.
stored_bytes-chunks_of :
    (size : Option ℕ) (bytes : List ℕ) → stored_bytes (chunks_of size bytes) ≡ bytes
unfolding stored_bytes chunks_of
stored_bytes-chunks_of size [] = nothing_stored
stored_bytes-chunks_of size (b ∷ bytes) =
    (chunked-joined (step_of size _) (step_of-positive size _) _ 1 (b ∷ bytes) (omega arith)).1

columns_of-ok :
    (n col : ℕ) (channels : List Channel)
    → AreLong n channels
    → col + length channels ≤ 8
    → columns_of n col channels ≡ ok channels
unfolding columns_of
columns_of-ok n col [] h few = refl
columns_of-ok n col (c ∷ channels) (h, hs) few =
    let low : leb 8 col ≡ false = ground arith in
    let long : (length c == n) ≡ true = ground arith in
    rw (low, long, columns_of-ok n (col + 1) channels hs (omega arith)) refl

length-pack_rows : (n : ℕ) (channels : List Channel) → length (pack_rows n channels) ≡ n
unfolding pack_rows
length-pack_rows zero channels = refl
length-pack_rows (suc n) channels = ap suc (length-pack_rows n (map (λ c. drop 1 c) channels))

-- A capture has one length for all its channels, of which there are at most eight.
abbrev pub IsRegular : {F : Type 0} → Capture F → Type 0
IsRegular capture =
    AreLong (first_length capture.channels) (map (λ e. e.1) capture.channels)
    × (length capture.channels ≤ 8)

no_rows :
    (channels : List (String × Channel))
    → AreLong 0 (map (λ e. e.1) channels)
    → map (λ name. (name, [])) (map (λ e. e.0) channels) ≡ channels
no_rows [] h = refl
no_rows ((name, []) ∷ channels) h = ap (◌∷◌ (name, [])) (no_rows channels h.1)
no_rows ((name, b ∷ c) ∷ channels) h = let impossible : ⊥ = omega (arith, h.0) in absurd impossible

read_channels-rows :
    (n : ℕ) (channels : List (String × Channel)) (bytes : List ℕ)
    → AreLong n (map (λ e. e.1) channels)
    → length channels ≤ 8
    → pack_rows n (map (λ e. e.1) channels) ≡ bytes
    → read_channels (map (λ e. e.0) channels) 1 bytes ≡ ok channels
unfolding read_channels
read_channels-rows n channels [] h few e =
    let none_left = length-pack_rows n (map (λ e. e.1) channels) in
    let empty : n ≡ 0 = sym none_left ∙ ap (λ xs. length xs) e in
    ap (λ cs. ok cs) (no_rows channels (rw empty at h))
read_channels-rows n channels (b ∷ bytes) h few e =
    let size : length (b ∷ bytes) ≡ n =
      sym (ap (λ xs. length xs) e) ∙ length-pack_rows n (map (λ e. e.1) channels) in
    let names_long = length-map (λ (e : String × Channel). e.0) channels in
    let channels_long = length-map (λ (e : String × Channel). e.1) channels in
    let fits : ltb 8 (length (map (λ (e : String × Channel). e.0) channels)) ≡ false =
      ground arith in
    let rows : suc (length bytes) / 1 ≡ n = omega arith in
    let back = columns-pack_rows n 0 (map (λ e. e.1) channels) channels h (omega arith) refl in
    rw (fits, rows, ← e) (ap (λ cs. ok cs) back)

packed_bytes-rows :
    (channels : List (String × Channel))
    → AreLong (first_length channels) (map (λ e. e.1) channels)
    → length channels ≤ 8
    → packed_bytes channels ≡ ok (pack_rows (first_length channels) (map (λ e. e.1) channels))
unfolding packed_bytes
packed_bytes-rows [] h few = unfold pack_rows in refl
packed_bytes-rows ((name, []) ∷ channels) h few =
    let some_left : (length ((name, []) ∷ channels) == 0) ≡ false = ground arith in
    rw some_left (unfold pack_rows in refl)
packed_bytes-rows ((name, b ∷ c) ∷ channels) h few =
    let long = length-map (λ (e : String × Channel). e.1) channels in
    let columns_are =
      columns_of-ok (length (b ∷ c)) 0 ((b ∷ c) ∷ map (λ e. e.1) channels) h (omega arith) in
    let some_left : (length ((name, b ∷ c) ∷ channels) == 0) ≡ false = ground arith in
    let some_samples : (length (b ∷ c) == 0) ≡ false = ground arith in
    rw (some_left, some_samples, columns_are) refl

module _ {F : Type 0} ⦃fl : Float F⦄ where
  -- The samples of a capture, written in chunks of any size.
  pub write_sr-stored :
      (capture : Capture F) (chunk_size : Option ℕ)
      → IsRegular capture
      → (archive : Archive) × (write_sr capture chunk_size ≡ ok archive)
        × (archive.metadata ≡ metadata_text capture)
        × (read_channels (map (λ e. e.0) capture.channels) 1 (stored_bytes archive.chunks)
            ≡ ok capture.channels)
  unfolding write_sr
  write_sr-stored capture size (long, few) =
      let cols : List Channel = map (λ e. e.1) capture.channels in
      let bytes : List ℕ = pack_rows (first_length capture.channels) cols in
      let back =
        read_channels-rows (first_length capture.channels) capture.channels bytes long few refl in
      (
        record { metadata = metadata_text capture; chunks = chunks_of size bytes },
        rw (packed_bytes-rows capture.channels long few) refl,
        refl,
        rw (stored_bytes-chunks_of size bytes) back,
      )
