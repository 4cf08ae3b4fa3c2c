-- ===== src/Decode/NativeUart/Frame.antt =====
-- One frame on the wire, and what `_decode_uart_byte` reads of it.
use slidko.Prelude.{
  ℕ, zero, suc, ◌+◌, ◌-◌, ◌*◌, ◌^◌, ◌≤◌, ◌<◌, ◌≡◌, refl, sym, ap, ◌∙◌, Bool, true, false, some,
  List, [], ◌∷◌, ◌++◌, arith, leb, if◌then◌else◌, length, get_or, replicate, length-append,
  length-replicate, Float,
}
use slidko.Result.{ok}
use slidko.Measure.Edges.{Channel}
use slidko.Decode.NativeUart.{
  at, read_bits, center_offset, frame_samples, bit_center, decode_uart_byte,
}

-- The samples of a list of bits, `period` samples for each.
unfoldable pub wave : ℕ → List Bool → Channel
wave period [] = []
wave period (b ∷ bits) = replicate period b ++ wave period bits

-- The start bit, the data bits and the stop bit of a byte.
unfoldable pub frame : List Bool → List Bool
frame byte = false ∷ (byte ++ true ∷ [])

-- The number of bits from the least significant on, the first with the weight 2 ^ i.
unfoldable pub value_from : ℕ → List Bool → ℕ
value_from i [] = 0
value_from i (b ∷ bits) = (if b then 2 ^ i else 0) + value_from (i + 1) bits

-- Each of the first `count` sample points falls into the bit that it reads.
abbrev pub IsCentered : ℕ → (ℕ → ℕ) → ℕ → Type 0
IsCentered period center count =
    (k : ℕ) → k < count → (k * period ≤ center k) × (center k < k * period + period)

suc_add : (n i : ℕ) → suc n + i ≡ suc (n + i)
suc_add n i = omega arith

pub at-append : (pre s : Channel) (i : ℕ) → at (pre ++ s) (length pre + i) ≡ at s i
at-append [] s i = ap (at s) (omega arith)
at-append (b ∷ pre) s i = ap (at (b ∷ pre ++ s)) (suc_add (length pre) i) ∙ at-append pre s i

pub at-replicate :
    (n : ℕ) (b : Bool) (s : Channel) (i : ℕ) → i < n → at (replicate n b ++ s) i ≡ ok b
at-replicate zero b s i h = let impossible : ⊥ = omega arith in absurd impossible
at-replicate (suc n) b s zero h = refl
at-replicate (suc n) b s (suc i) h = at-replicate n b s i (omega arith)

at-replicate_after :
    (n : ℕ) (b : Bool) (s : Channel) (i : ℕ) → n ≤ i → at (replicate n b ++ s) i ≡ at s (i - n)
at-replicate_after zero b s i h = ap (at s) (omega arith)
at-replicate_after (suc n) b s zero h = let impossible : ⊥ = omega arith in absurd impossible
at-replicate_after (suc n) b s (suc i) h =
    at-replicate_after n b s i (omega arith) ∙ ap (at s) (omega arith)

pub ++-assoc_channel : (xs ys zs : Channel) → (xs ++ ys) ++ zs ≡ xs ++ (ys ++ zs)
++-assoc_channel [] ys zs = refl
++-assoc_channel (x ∷ xs) ys zs = ap (◌∷◌ x) (++-assoc_channel xs ys zs)

-- A sample point inside the k-th bit of a wave reads the k-th bit.
pub at-wave :
    (period : ℕ) (bits : List Bool) (s : Channel) (k j : ℕ)
    → k < length bits
    → k * period ≤ j
    → j < k * period + period
    → at (wave period bits ++ s) j ≡ ok (get_or bits k false)
unfolding wave
at-wave period [] s k j h lo hi = let impossible : ⊥ = omega arith in absurd impossible
at-wave period (b ∷ bits) s zero j h lo hi =
    rw (++-assoc_channel (replicate period b) (wave period bits) s)
      (at-replicate period b _ j (grind arith))
at-wave period (b ∷ bits) s (suc k) j h lo hi =
    rw
      (
        ++-assoc_channel (replicate period b) (wave period bits) s,
        at-replicate_after period b (wave period bits ++ s) j (grind arith),
      )
      (at-wave period bits s k (j - period) (omega arith) (grind arith) (grind arith))

pub length-wave : (period : ℕ) (bits : List Bool) → length (wave period bits) ≡ length bits * period
unfolding wave
length-wave period [] = omega arith
length-wave period (b ∷ bits) =
    rw
      (
        length-append (replicate period b) (wave period bits),
        length-replicate period b,
        length-wave period bits,
      )
      (grind arith)

read_bits-value_from :
    (rx_signal : Channel) (center : ℕ → ℕ) (bits : List Bool) (i value : ℕ)
    → ((k : ℕ) → k < length bits → at rx_signal (center (i + k + 1)) ≡ ok (get_or bits k false))
    → read_bits rx_signal center (length bits) i value ≡ ok (value + value_from i bits)
unfolding read_bits value_from
read_bits-value_from rx_signal center [] i value reads = ap ok (omega arith)
read_bits-value_from rx_signal center (b ∷ bits) i value reads = rw first (
    read_bits-value_from rx_signal center bits (i + 1) _
      (λ k h. rw (shifted k) (reads (suc k) (omega arith)))
    ∙ ap ok (ground arith))
  where
    first : at rx_signal (center (i + 1)) ≡ ok b
    first = ap (λ n. at rx_signal (center n)) (omega arith) ∙ reads 0 (omega arith)

    shifted : (k : ℕ) → i + 1 + k + 1 ≡ i + suc k + 1
    shifted k = omega arith

get_or-before :
    (byte rest : List Bool) (k : ℕ)
    → k < length byte
    → get_or (byte ++ rest) k false ≡ get_or byte k false
get_or-before [] rest k h = let impossible : ⊥ = omega arith in absurd impossible
get_or-before (b ∷ byte) rest zero h = refl
get_or-before (b ∷ byte) rest (suc k) h = get_or-before byte rest k (omega arith)

pub get_or-at_end : (byte : List Bool) (b : Bool) → get_or (byte ++ b ∷ []) (length byte) false ≡ b
get_or-at_end [] b = refl
get_or-at_end (x ∷ byte) b = get_or-at_end byte b

pub length-frame : (byte : List Bool) → length byte ≡ 8 → length (frame byte) ≡ 10
unfolding frame
length-frame byte eight = rw (length-append byte (true ∷ [])) (omega arith)

module _ {F : Type 0} ⦃fl : Float F⦄ (bit_period_samples : F) (period : ℕ)
    (centered : IsCentered period (center_offset bit_period_samples) 10) (pre : Channel)
    (byte : List Bool) (post : Channel) (eight : length byte ≡ 8) where
  abbrev signal : Channel
  signal = pre ++ (wave period (frame byte) ++ post)

  reads-frame :
      (k : ℕ)
      → k < 10
      → at signal (bit_center bit_period_samples (length pre) k) ≡ ok (get_or (frame byte) k false)
  unfolding bit_center
  reads-frame k h =
      at-append pre _ _
      ∙ at-wave period (frame byte) post k _ (let ten = length-frame byte eight in omega arith)
          (centered k h).0 (centered k h).1

  stop_in_signal : leb (length signal) (bit_center bit_period_samples (length pre) 9) ≡ false
  unfolding bit_center
  stop_in_signal =
      let inside = (centered 9 (omega arith)).1 in
      let whole : length signal ≡ length pre + (10 * period + length post) =
        rw
          (
            length-append pre (wave period (frame byte) ++ post),
            length-append (wave period (frame byte)) post,
            length-wave period (frame byte),
            length-frame byte eight,
          )
          refl in
      ground (arith, whole, inside)

  last_bit : get_or (frame byte) 9 false ≡ true
  last_bit =
      unfold frame in
      ap (λ n. get_or (byte ++ true ∷ []) n false) (sym eight) ∙ get_or-at_end byte true

  stop_bit : at signal (bit_center bit_period_samples (length pre) 9) ≡ ok true
  stop_bit = reads-frame 9 (omega arith) ∙ ap ok last_bit

  reads :
      (k : ℕ)
      → k < length byte
      → at signal (bit_center bit_period_samples (length pre) (0 + k + 1))
        ≡ ok (get_or byte k false)
  reads k h =
      ap (λ n. at signal (bit_center bit_period_samples (length pre) n)) (omega arith)
      ∙ reads-frame (suc k) (omega arith)
      ∙ ap ok (unfold frame in get_or-before byte (true ∷ []) k h)

  byte_read :
      read_bits signal (bit_center bit_period_samples (length pre)) 8 0 0 ≡ ok (value_from 0 byte)
  byte_read =
      ap (λ n. read_bits signal (bit_center bit_period_samples (length pre)) n 0 0) (sym eight)
      ∙ read_bits-value_from signal (bit_center bit_period_samples (length pre)) byte 0 0 reads
      ∙ ap ok (omega arith)

  -- A frame of 8 data bits in the signal, whatever is before and after it, is decoded to its byte,
  -- with a high stop bit, if each sample point falls into its bit.
  pub decode_uart_byte-frame :
      decode_uart_byte signal (length pre) bit_period_samples 8
      ≡ ok (some (value_from 0 byte, length pre + frame_samples bit_period_samples 8 - 1, true))
  unfolding decode_uart_byte
  decode_uart_byte-frame = rw (stop_in_signal, stop_bit, byte_read) refl
