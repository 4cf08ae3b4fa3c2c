-- ===== src/Prelude/Text.antt =====
-- Python's `str`: texts are native; what walks their characters goes by code points.
-- `str.lower` is modelled on ASCII: other characters are left as they are.
use native.Mathlib.Omega.{arith}
use Prim.Native.Nat.{ℕ, zero, suc, ◌+◌, ◌/◌, ◌%◌}
use Prim.Native.Char.{code}
use Prim.Native.String.{String, ◌++◌, compare}
use mathlib.Core.Path.{◌≡◌, refl}
use mathlib.Core.Logic.{inl, inr}
use mathlib.Core.Bool.{Bool, true, false, ◌&&◌, ◌||◌}
use mathlib.Core.List.{List, [], ◌∷◌, map}
use mathlib.Core.Option.{Option, none, some}
use text.Mathlib.Text.{◌==◌ as str_eq, is_le}
use text.Mathlib.TextEquality.{eq_iff}
use slidko.Prelude.Tests.{Bool-cases, if◌then◌else◌, ltb, leb, ◌==◌}
pub use Prim.Native.String.{◌++◌ as concat}

abbrev pub codes : String → List ℕ
codes String.[] = []
codes (String.◌∷◌ c s) = code c ∷ codes s

abbrev pub codes_eq : List ℕ → List ℕ → Bool
codes_eq [] [] = true
codes_eq (a ∷ as') (b ∷ bs) = a == b && codes_eq as' bs
codes_eq _ _ = false

-- One character of `str.lower`.
unfoldable pub lower_code : ℕ → ℕ
lower_code c = if leb b'A' c && leb c b'Z' then c + 32 else c

-- `s.lower()`, as code points.
unfoldable pub lower : String → List ℕ
unfolding lower_code
lower s = map lower_code (codes s)

-- `xs` begins with `pre`.
abbrev pub begins : List ℕ → List ℕ → Bool
begins [] xs = true
begins (p ∷ pre) [] = false
begins (p ∷ pre) (x ∷ xs) = p == x && begins pre xs

-- The rest of a text after a prefix.
abbrev pub after : List ℕ → List ℕ → Option (List ℕ)
after [] xs = some xs
after (p ∷ pre) [] = none
after (p ∷ pre) (x ∷ xs) = if x == p then after pre xs else none

-- `part in text`.
unfoldable pub contains : List ℕ → List ℕ → Bool
contains part [] = begins part []
contains part (x ∷ xs) = begins part (x ∷ xs) || contains part xs

unfoldable pub is_empty : String → Bool
is_empty String.[] = true
is_empty (String.◌∷◌ c s) = false

abbrev pub digit : ℕ → String
digit n =
    if n == 0
    then "0"
    else if n == 1
    then "1"
    else if n == 2
    then "2"
    else if n == 3
    then "3"
    else if n == 4
    then "4"
    else if n == 5
    then "5"
    else if n == 6
    then "6"
    else if n == 7
    then "7"
    else if n == 8
    then "8"
    else if n == 9
    then "9"
    else if n == 10
    then "a"
    else if n == 11
    then "b"
    else if n == 12
    then "c"
    else if n == 13
    then "d"
    else if n == 14
    then "e"
    else "f"

unfoldable pub show_go : ℕ → ℕ → ℕ → String
show_go base zero n = digit n
show_go base (suc fuel) n =
    let rest = show_go base fuel (n / base) ++ digit (n % base) in
    if ltb n base then digit n else rest

-- `str(n)`: a number is longer than the count of its digits.
unfoldable pub show : ℕ → String
unfolding show_go
show n = show_go 10 n n

-- `f"{n:02x}"`.
unfoldable pub show_hex2 : ℕ → String
unfolding show_go
show_hex2 n = if ltb n 16 then "0" ++ digit n else show_go 16 n n

show_runs : show 1205 ≡ "1205"
unfolding show
show_runs = refl

-- A dictionary with text keys, in insertion order.
module _ {ℓ} {V : Type ℓ} where
  -- `d.get(k)`.
  abbrev pub lookup : String → List (String × V) → Option V
  lookup k [] = none
  lookup k ((j, v) ∷ m) = if str_eq j k then some v else lookup k m

  -- `k in d`.
  abbrev pub has_key : String → List (String × V) → Bool
  has_key k [] = false
  has_key k ((j, v) ∷ m) = str_eq j k || has_key k m

-- `x in xs` of texts.
abbrev pub text_mem : String → List String → Bool
text_mem x [] = false
text_mem x (y ∷ ys) = str_eq y x || text_mem x ys

pub str_eq_self : (s : String) → str_eq s s ≡ true
str_eq_self s = (eq_iff s s).1 refl

-- `sorted(xs)` of texts.
abbrev insert_text : String → List String → List String
insert_text x [] = x ∷ []
insert_text x (y ∷ ys) =
    let rest = y ∷ ys in if is_le (compare x y) then x ∷ rest else y ∷ insert_text x ys

unfoldable pub sorted : List String → List String
sorted [] = []
sorted (x ∷ xs) = insert_text x (sorted xs)

text_mem-insert_text :
    (z x : String) (ys : List String) → text_mem z (insert_text x ys) ≡ text_mem z (x ∷ ys)
text_mem-insert_text z x [] = refl
text_mem-insert_text z x (y ∷ ys) = let ih = text_mem-insert_text z x ys in ground arith

-- Sorting keeps the members.
pub text_mem-sorted : (z : String) (xs : List String) → text_mem z (sorted xs) ≡ text_mem z xs
unfolding sorted
text_mem-sorted z [] = refl
text_mem-sorted z (x ∷ xs) = rw (text_mem-insert_text z x (sorted xs), text_mem-sorted z xs)

pub codes_eq_eq : (xs ys : List ℕ) → codes_eq xs ys ≡ true → xs ≡ ys
codes_eq_eq [] [] e = refl
codes_eq_eq [] (y ∷ ys) e = cc
codes_eq_eq (x ∷ xs) [] e = cc
codes_eq_eq (x ∷ xs) (y ∷ ys) e = elim (Bool-cases (x == y)) [
  | inl h ↦
      let same : x ≡ y = ground (arith, h) in
      let rest : codes_eq xs ys ≡ true = rw h at e in rw (same, codes_eq_eq xs ys rest) refl
  | inr n ↦ let bad = rw n at e in cc
]
