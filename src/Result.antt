-- ===== src/Result.antt =====
-- Exceptions as values: a function that may raise returns a `Result`.
use slidko.Prelude.{
  ℕ, String, ◌≡◌, refl, Bool, true, false, none, some, List, if◌then◌else◌, lookup,
}

pub data Error : Type 0 where
  key_error : String → Error
  value_error : String → Error
  type_error : Error
  product_boundary_error : ℕ → Error
  validation_error : List String → Error
  verdict_required_error : Error
  device_not_found : String → Error
  driver_error : String → Error
  file_not_found : Error
  index_error : Error
  stop_iteration : Error
  zero_division_error : Error

-- What a call gives: an exception, or a value.
pub data Result {ℓ} (V : Type ℓ) : Type ℓ where
  err : Error → Result V
  ok : V → Result V

module _ {ℓ κ} {V : Type ℓ} {W : Type κ} where
  infixl 5 ◌>>=◌
  abbrev pub ◌>>=◌ : Result V → (V → Result W) → Result W
  r >>= next = elim r [ err raised ↦ err raised | ok v ↦ next v ]

  -- A chain that succeeds succeeded at each step.
  pub >>=-eq-ok :
      (r : Result V) (next : V → Result W) {w : W}
      → (r >>= next) ≡ ok w
      → (v : V) × (r ≡ ok v) × (next v ≡ ok w)
  >>=-eq-ok (err raised) next e = cc
  >>=-eq-ok (ok v) next e = (v, refl, e)

-- `d[k]`
abbrev pub require {ℓ} : {V : Type ℓ} → String → List (String × V) → Result V
require k d = elim (lookup k d) [ none ↦ err (key_error k) | some v ↦ ok v ]

-- What holds of the result, if there is one.
abbrev pub Holds {ℓ κ} : {A : Type ℓ} → (A → Type κ) → Result A → Type κ
Holds P (ok a) = P a
Holds P (err e) = Unit

pub Holds-bind {ℓ κ μ ν} :
    {A : Type ℓ} {B : Type κ} (Q : A → Type μ) (P : B → Type ν) (m : Result A) (f : A → Result B)
    → Holds Q m
    → ((a : A) → Q a → Holds P (f a))
    → Holds P (m >>= f)
Holds-bind Q P (ok a) f q k = k a q
Holds-bind Q P (err e) f q k = tt

pub Holds-if {ℓ κ} :
    {A : Type ℓ} (P : A → Type κ) (b : Bool) (m n : Result A)
    → (b ≡ true → Holds P m)
    → (b ≡ false → Holds P n)
    → Holds P (if b then m else n)
Holds-if P true m n p q = p refl
Holds-if P false m n p q = q refl

pub Holds-any {ℓ} : {A : Type ℓ} (m : Result A) → Holds (λ _. Unit {0}) m
Holds-any (ok a) = tt
Holds-any (err e) = tt

pub Holds-ok {ℓ κ} :
    {A : Type ℓ} (P : A → Type κ) (r : Result A) {a : A} → Holds P r → r ≡ ok a → P a
Holds-ok P r h e = rw e at h

pub ok-injective {ℓ} : {A : Type ℓ} (a b : A) → ok a ≡ ok b → a ≡ b
ok-injective a b e = cc

pub require-eq {ℓ} :
    {V : Type ℓ} (k : String) (d : List (String × V)) {v : V}
    → lookup k d ≡ some v
    → require k d ≡ ok v
require-eq k d h = rw (require, h) refl

-- A checked value is the value.
pub checked-eq {ℓ} :
    {V : Type ℓ} (b : Bool) (v w : V) (raised : Error)
    → (if b then ok v else err raised) ≡ ok w
    → v ≡ w
checked-eq true v w raised e = ok-injective v w e
checked-eq false v w raised e = cc
