-- ===== src/Prelude/Digits.antt =====
-- Numbers in texts: `int(text, base)` of the digits that a text begins with, and that it reads what `str` and
-- `f"{n:02x}"` print.
use Prim.Native.Nat.{ℕ, zero, suc, ◌+◌, ◌-◌, ◌*◌, ◌/◌, ◌%◌, ◌≤◌, ◌<◌}
use Prim.Native.Char.{code}
use Prim.Native.String.{String}
use Prim.Native.String.append
use mathlib.Core.Path.{◌≡◌, refl, sym, ap, ◌∙◌}
use mathlib.Core.Logic.{inl, inr}
use mathlib.Core.Bool.{Bool, true, false, ◌&&◌}
use mathlib.Core.List.{List, [], ◌∷◌, ◌++◌, map}
use mathlib.Core.Option.{Option, none, some}
use native.Mathlib.Omega.{arith}
use slidko.Prelude.Tests.{if◌then◌else◌, ltb, leb, ◌==◌, ==_iff, Bool-cases}
use slidko.Prelude.Lists.{append-nil, append_assoc}
use slidko.Prelude.Text.{codes, digit, show, show_go, show_hex2, concat}

-- The value of a hexadecimal digit.
unfoldable pub hex_digit : ℕ → Option ℕ
hex_digit c =
    if leb 48 c && leb c 57
    then some (c - 48)
    else if leb 97 c && leb c 102
    then some (c - 87)
    else if leb 65 c && leb c 70
    then some (c - 55)
    else none

below : ℕ → Option ℕ → Option ℕ
below base none = none
below base (some v) = if ltb v base then some v else none

-- The value of a character as a digit of the base.
unfoldable pub digit_in : ℕ → ℕ → Option ℕ
unfolding below
digit_in base c = below base (hex_digit c)

-- Reads on, from a number read so far: the number, and what follows its digits.
unfoldable pub scan_digits : ℕ → ℕ → List ℕ → ℕ × List ℕ
scan_digits base acc [] = (acc, [])
scan_digits base acc (c ∷ cs) = elim (digit_in base c) [
  | none ↦ (acc, c ∷ cs)
  | some d ↦ scan_digits base (acc * base + d) cs
]

abbrev pub begins_number : ℕ → List ℕ → Bool
begins_number base [] = false
begins_number base (c ∷ cs) = elim (digit_in base c) [ none ↦ false | some d ↦ true ]

-- One digit or more.
unfoldable pub read_number : ℕ → List ℕ → Option (ℕ × List ℕ)
unfolding scan_digits
read_number base cs = if begins_number base cs then some (scan_digits base 0 cs) else none

pub codes-concat : (s t : String) → codes (concat s t) ≡ codes s ++ codes t
codes-concat String.[] t = ap codes (append.nil t)
codes-concat (String.◌∷◌ c s) t =
    ap codes (append.cons c s t) ∙ ap (◌∷◌ (code c)) (codes-concat s t)

-- Capital letters, as `%02X` prints them.
abbrev pub capital : ℕ → ℕ
capital c = if leb 97 c && leb c 122 then c - 32 else c

abbrev pub digits_as : Bool → List ℕ → List ℕ
digits_as true cs = map capital cs
digits_as false cs = cs

-- Each digit is one character, which is read as its value, capital or not.
abbrev digit_check : ℕ → List ℕ → Bool
digit_check v (c ∷ []) = elim (hex_digit c) [
  | none ↦ false
  | some d ↦ elim (hex_digit (capital c)) [ none ↦ false | some e ↦ (d == v) && (e == v) ]
]
digit_check v _ = false

all_below : ℕ → (ℕ → Bool) → Bool
all_below zero p = true
all_below (suc n) p = p n && all_below n p

all_below-holds : (n : ℕ) (p : ℕ → Bool) (v : ℕ) → all_below n p ≡ true → v < n → p v ≡ true
unfolding all_below
all_below-holds zero p v h lt = absurd (omega arith)
all_below-holds (suc n) p v h lt = ground (arith, all_below-holds n p v)

sixteen_digits : all_below 16 (λ v. digit_check v (codes (digit v))) ≡ true
unfolding hex_digit all_below
sixteen_digits = refl

abbrev IsDigit : ℕ → List ℕ → Type 0
IsDigit v cs = (c : ℕ) × (cs ≡ c ∷ []) × (hex_digit c ≡ some v) × (hex_digit (capital c) ≡ some v)

is_value : (v : ℕ) (o : Option ℕ) → (elim o [ none ↦ false | some d ↦ d == v ]) ≡ true → o ≡ some v
is_value v none e = cc
is_value v (some d) e = ap some ((==_iff d v).0 e)

both :
    (v : ℕ) (o p : Option ℕ)
    → (elim o [ none ↦ false | some d ↦ elim p [ none ↦ false | some e ↦ (d == v) && (e == v) ] ])
      ≡ true
    → (o ≡ some v) × (p ≡ some v)
both v none p e = cc
both v (some d) none e = cc
both v (some d) (some x) e = (ap some (ground (arith, e)), ap some (ground (arith, e)))

digit_check-IsDigit : (v : ℕ) (cs : List ℕ) → digit_check v cs ≡ true → IsDigit v cs
digit_check-IsDigit v [] e = cc
digit_check-IsDigit v (c ∷ []) e =
    let (low, high) = both v (hex_digit c) (hex_digit (capital c)) e in (c, refl, low, high)
digit_check-IsDigit v (c ∷ d ∷ cs) e = cc

digit-IsDigit : (v : ℕ) → v < 16 → IsDigit v (codes (digit v))
digit-IsDigit v h =
    digit_check-IsDigit v _
      (all_below-holds 16 (λ w. digit_check w (codes (digit w))) v sixteen_digits h)

digit_in-value : (base c v : ℕ) → hex_digit c ≡ some v → v < base → digit_in base c ≡ some v
unfolding digit_in below
digit_in-value base c v e h = rw e (ground arith)

one_digit :
    (up : Bool) (v : ℕ) (cs : List ℕ)
    → IsDigit v cs
    → (c : ℕ) × (digits_as up cs ≡ c ∷ []) × (hex_digit c ≡ some v)
one_digit true v cs (c, is, low, high) = (capital c, ap (map capital) is, high)
one_digit false v cs (c, is, low, high) = (c, is, low)

digits_as-append :
    (up : Bool) (xs ys : List ℕ) → digits_as up (xs ++ ys) ≡ digits_as up xs ++ digits_as up ys
digits_as-append false xs ys = refl
digits_as-append true [] ys = refl
digits_as-append true (x ∷ xs) ys = ap (◌∷◌ (capital x)) (digits_as-append true xs ys)

module _ (base : ℕ) (up : Bool) where
  -- What reading one printed digit does.
  abbrev Reads : ℕ → List ℕ → Type 0
  Reads n text =
      (rest : List ℕ)
      → (scan_digits base 0 (text ++ rest) ≡ scan_digits base n rest)
        × (begins_number base (text ++ rest) ≡ true)

  scan_one :
      (acc c v n : ℕ) (rest : List ℕ)
      → digit_in base c ≡ some v
      → acc * base + v ≡ n
      → scan_digits base acc (c ∷ rest) ≡ scan_digits base n rest
  unfolding scan_digits
  scan_one acc c v n rest e sum = rw (scan_digits, e) (ap (λ k. scan_digits base k rest) sum)

  begins_one :
      (c v : ℕ) (rest : List ℕ) → digit_in base c ≡ some v → begins_number base (c ∷ rest) ≡ true
  begins_one c v rest e = rw (begins_number, e) refl

  -- A printed digit after a number read so far.
  digit-scan :
      (acc v n : ℕ) (rest : List ℕ)
      → v < 16
      → v < base
      → acc * base + v ≡ n
      → let text = digits_as up (codes (digit v)) ++ rest in
        (scan_digits base acc text ≡ scan_digits base n rest) × (begins_number base text ≡ true)
  digit-scan acc v n rest h lt sum =
      let (c, is, value) = one_digit up v _ (digit-IsDigit v h) in
      let here = digit_in-value base c v value lt in
      rw is (scan_one acc c v n rest here sum, begins_one c v rest here)

  module _ (two : 2 ≤ base) (sixteen : base ≤ 16) (smaller : (n : ℕ) → n / base ≤ n / 2)
      (again : (n : ℕ) → n / base * base + n % base ≡ n) (last : (n : ℕ) → n % base < base) where
    show_go-Reads : (fuel n : ℕ) → n ≤ fuel → Reads n (digits_as up (codes (show_go base fuel n)))
    unfolding show_go
    show_go-Reads zero n h rest = digit-scan 0 n n rest (omega arith) (omega arith) (omega arith)
    show_go-Reads (suc fuel) n h rest = elim (Bool-cases (ltb n base)) [
      | inl small ↦ rw small (digit-scan 0 n n rest (ground arith) (ground arith) (omega arith))
      | inr large ↦
          let first : List ℕ = digits_as up (codes (show_go base fuel (n / base))) in
          let final : List ℕ = digits_as up (codes (digit (n % base))) in
          let apart : digits_as up
                  (codes (concat (show_go base fuel (n / base)) (digit (n % base))))
                ++ rest
              ≡ first ++ (final ++ rest) =
            ap (λ cs. digits_as up cs ++ rest)
              (codes-concat (show_go base fuel (n / base)) (digit (n % base)))
            ∙ ap (λ cs. cs ++ rest) (digits_as-append up (codes (show_go base fuel (n / base))) _)
            ∙ append_assoc first final rest in
          let less = smaller n in
          let left = last n in
          let (before, begins) = show_go-Reads fuel (n / base) (omega arith) (final ++ rest) in
          let after = digit-scan (n / base) (n % base) n rest (omega arith) left (again n) in
          rw (large, apart) (before ∙ after.0, begins)
    ]

  -- The digits end where no digit follows.
  scan_digits-end :
      (n : ℕ) (rest : List ℕ)
      → begins_number base rest ≡ false
      → scan_digits base n rest ≡ (n, rest)
  unfolding scan_digits
  scan_digits-end n [] e = refl
  scan_digits-end n (c ∷ rest) e = ends (digit_in base c) refl
    where
      ends : (o : Option ℕ) → digit_in base c ≡ o → scan_digits base n (c ∷ rest) ≡ (n, c ∷ rest)
      ends none is = rw (scan_digits, is) refl
      ends (some d) is = let no : true ≡ false = (rw (begins_number, is) at e) in cc

  Reads-read_number :
      (n : ℕ) (text rest : List ℕ)
      → Reads n text
      → begins_number base rest ≡ false
      → read_number base (text ++ rest) ≡ some (n, rest)
  unfolding read_number
  Reads-read_number n text rest reads stop =
      let (value, begins) = reads rest in rw begins (ap some (value ∙ scan_digits-end n rest stop))

-- `int(str(n))` is `n`, for what follows the digits of `n`.
pub read_number-show :
    (n : ℕ) (rest : List ℕ)
    → begins_number 10 rest ≡ false
    → read_number 10 (codes (show n) ++ rest) ≡ some (n, rest)
unfolding show
read_number-show n rest stop =
    Reads-read_number 10 false n (codes (show_go 10 n n)) rest
      (show_go-Reads 10 false (omega arith) (omega arith) (λ m. omega arith) (λ m. omega arith)
        (λ m. omega arith) n n (omega arith))
      stop

show_hex2-Reads : (up : Bool) (n : ℕ) → Reads 16 up n (digits_as up (codes (show_hex2 n)))
unfolding show_hex2
show_hex2-Reads up n rest = elim (Bool-cases (ltb n 16)) [
  | inl small ↦
      let final : List ℕ = digits_as up (codes (digit n)) in
      let apart : digits_as up (codes (concat "0" (digit n))) ++ rest
          ≡ digits_as up (codes "0") ++ (final ++ rest) =
        ap (λ cs. digits_as up cs ++ rest) (codes-concat "0" (digit n))
        ∙ ap (λ cs. cs ++ rest) (digits_as-append up (codes "0") _)
        ∙ append_assoc (digits_as up (codes "0")) final rest in
      let zero_first =
        digit-scan 16 up 0 0 0 (final ++ rest) (omega arith) (omega arith) (omega arith) in
      let after = digit-scan 16 up 0 n n rest (ground arith) (ground arith) (omega arith) in
      rw (small, apart) (zero_first.0 ∙ after.0, zero_first.1)
  | inr large ↦ rw large (
      show_go-Reads 16 up (omega arith) (omega arith) (λ m. omega arith) (λ m. omega arith)
        (λ m. omega arith) n n (omega arith) rest)
]

-- `int(f"{n:02x}", 16)` and `int(f"{n:02X}", 16)` are `n`.
pub read_number-show_hex2 :
    (up : Bool) (n : ℕ) (rest : List ℕ)
    → begins_number 16 rest ≡ false
    → read_number 16 (digits_as up (codes (show_hex2 n)) ++ rest) ≡ some (n, rest)
read_number-show_hex2 up n rest stop = Reads-read_number 16 up n _ rest (show_hex2-Reads up n) stop

pub scan_digits-show : (n : ℕ) → scan_digits 10 0 (codes (show n)) ≡ (n, [])
unfolding show
scan_digits-show n =
    let (value, begins) =
      show_go-Reads 10 false (omega arith) (omega arith) (λ m. omega arith) (λ m. omega arith)
        (λ m. omega arith) n n (omega arith) [] in
    ap (λ cs. scan_digits 10 0 cs) (sym (append-nil (codes (show_go 10 n n))))
    ∙ value
    ∙ scan_digits-end 10 false n [] refl

-- A decimal digit is one of ten characters.
pub digit_in-decimal : (c d : ℕ) → digit_in 10 c ≡ some d → (leb 48 c && leb c 57) ≡ true
unfolding digit_in below hex_digit
digit_in-decimal c d e = ground arith
