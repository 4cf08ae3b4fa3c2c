-- ===== src/Json.antt =====
-- JSON values, for the code that reads and writes them with Python's `json`. A number is a natural number or a float.
use slidko.Prelude.{
  ℕ, String, ◌≡◌, refl, ap, inl, inr, Bool, false, ◌&&◌, Option, none, some, List, [], ◌∷◌, map,
  arith, str_eq, eq_iff, if◌then◌else◌, Bool-cases, all, lookup, has_key, text_mem, str_eq_self,
  Float,
}
use slidko.Result.{Result, ok, err, ◌>>=◌, type_error}

mutual
  pub data Json (F : Type 0) : Type 0 where
    null : Json F
    boolean : Bool → Json F
    int : ℕ → Json F
    float : F → Json F
    text : String → Json F
    array : Items F → Json F
    object : Fields F → Json F

  pub data Items (F : Type 0) : Type 0 where
    no_items : Items F
    item : Json F → Items F → Items F

  pub data Fields (F : Type 0) : Type 0 where
    no_fields : Fields F
    field : String → Json F → Fields F → Fields F

-- A dictionary: the keys are distinct.
abbrev pub Dict : Type 0 → Type 0
Dict F = List (String × Json F)

module _ {F : Type 0} where
  abbrev pub items_of : List (Json F) → Items F
  items_of [] = no_items
  items_of (j ∷ js) = item j (items_of js)

  abbrev pub elements : Items F → List (Json F)
  elements no_items = []
  elements (item j js) = j ∷ elements js

  abbrev pub fields_of : Dict F → Fields F
  fields_of [] = no_fields
  fields_of ((k, j) ∷ d) = field k j (fields_of d)

  abbrev pub entries : Fields F → Dict F
  entries no_fields = []
  entries (field k j fields) = (k, j) ∷ entries fields

  pub elements-items_of : (js : List (Json F)) → elements (items_of js) ≡ js
  elements-items_of [] = refl
  elements-items_of (j ∷ js) = rw (elements-items_of js) refl

  pub entries-fields_of : (d : Dict F) → entries (fields_of d) ≡ d
  entries-fields_of [] = refl
  entries-fields_of ((k, j) ∷ d) = rw (entries-fields_of d) refl

  abbrev pub list_of : {A : Type 0} → (A → Json F) → List A → Json F
  list_of to_item xs = array (items_of (map to_item xs))

  abbrev pub dict_of : Dict F → Json F
  dict_of d = object (fields_of d)

  -- A value of the type that an annotation asks for.
  abbrev pub as_text : Json F → Result String
  as_text (text s) = ok s
  as_text _ = err type_error

  abbrev pub as_number : Json F → Result ℕ
  as_number (int n) = ok n
  as_number _ = err type_error

  abbrev pub as_bool : Json F → Result Bool
  as_bool (boolean b) = ok b
  as_bool _ = err type_error

  abbrev pub as_dict : Json F → Result (Dict F)
  as_dict (object fields) = ok (entries fields)
  as_dict _ = err type_error

  abbrev pub as_list : Json F → Result (List (Json F))
  as_list (array items) = ok (elements items)
  as_list _ = err type_error

  pub as_dict-dict_of : (d : Dict F) → as_dict (dict_of d) ≡ ok d
  as_dict-dict_of d = rw (entries-fields_of d) refl

-- An integer is a float too.
abbrev pub as_float : {F : Type 0} ⦃fl : Float F⦄ → Json F → Result F
as_float ⦃fl⦄ (float x) = ok x
as_float ⦃fl⦄ (int n) = ok (fl.of_ℕ n)
as_float ⦃fl⦄ _ = err type_error

abbrev pub with_head {ℓ} : {A : Type ℓ} → A → Result (List A) → Result (List A)
with_head x (err raised) = err raised
with_head x (ok xs) = ok (x ∷ xs)

-- Each item of a list, read in order.
abbrev pub each : {A B : Type 0} → (A → Result B) → List A → Result (List B)
each read [] = ok []
each read (x ∷ xs) = read x >>= (λ y. with_head y (each read xs))

-- What was written item by item is read item by item.
pub each-map :
    {A B : Type 0} (write : A → B) (read : B → Result A)
    → ((x : A) → read (write x) ≡ ok x)
    → (xs : List A) → each read (map write xs) ≡ ok xs
each-map write read law [] = refl
each-map write read law (x ∷ xs) = rw (law x, each-map write read law xs) refl

-- `d.pop(k)` of a key that is there.
unfoldable pub erase : {V : Type 0} → String → List (String × V) → List (String × V)
erase k [] = []
erase k ((j, v) ∷ d) = if str_eq j k then d else (j, v) ∷ erase k d

-- `d[k] = v`
unfoldable pub put : {V : Type 0} → String → V → List (String × V) → List (String × V)
put k v [] = (k, v) ∷ []
put k v ((j, w) ∷ d) = if str_eq j k then (j, v) ∷ d else (j, w) ∷ put k v d

pub lookup-put_self :
    {V : Type 0} (k : String) (v : V) (d : List (String × V)) → lookup k (put k v d) ≡ some v
unfolding put
lookup-put_self k v [] = rw (str_eq_self k) refl
lookup-put_self k v ((j, w) ∷ d) = elim (Bool-cases (str_eq j k)) [
  | inl same ↦ rw (same, same) refl
  | inr other ↦ rw (other, other) (lookup-put_self k v d)
]

pub lookup-put_other :
    {V : Type 0} (k j : String) (v : V) (d : List (String × V))
    → str_eq k j ≡ false
    → lookup j (put k v d) ≡ lookup j d
unfolding put
lookup-put_other k j v [] h = rw h refl
lookup-put_other k j v ((i, w) ∷ d) h = ground (arith, eq_iff i k, lookup-put_other k j v d h)

-- The last value of a key stays.
pub put-put :
    {V : Type 0} (k : String) (v w : V) (d : List (String × V)) → put k v (put k w d) ≡ put k v d
unfolding put
put-put k v w [] = rw (str_eq_self k) refl
put-put k v w ((j, u) ∷ d) = elim (Bool-cases (str_eq j k)) [
  | inl same ↦ rw (same, same) refl
  | inr other ↦ rw (other, other, put-put k v w d) refl
]

-- A new key that is taken out again leaves the dictionary as it was.
pub erase-put :
    {V : Type 0} (k : String) (v : V) (d : List (String × V))
    → has_key k d ≡ false
    → erase k (put k v d) ≡ d
unfolding put erase
erase-put k v [] fresh = rw (str_eq_self k) refl
erase-put k v ((j, u) ∷ d) fresh = elim (Bool-cases (str_eq j k)) [
  | inl same ↦ let h = rw same at fresh in cc
  | inr other ↦ rw (other, other) (ap (◌∷◌ (j, u)) (erase-put k v d (rw other at fresh)))
]

-- `f(**d)` for a dataclass with these fields: another key, or one that is missing, is a TypeError.
unfoldable pub has_exactly : {V : Type 0} → List String → List (String × V) → Bool
has_exactly names d = all (λ name. has_key name d) names && all (λ e. text_mem e.0 names) d

abbrev pub arguments : {V : Type 0} → List String → List (String × V) → Result (List (String × V))
unfolding has_exactly
arguments names d = if has_exactly names d then ok d else err type_error

-- The value of a key that is missing or null is none.
abbrev pub some_value : {F : Type 0} → Option (Json F) → Option (Json F)
some_value none = none
some_value (some null) = none
some_value (some j) = some j

abbrev pub if_present : {A F : Type 0} → (Json F → Result A) → Option (Json F) → Result (Option A)
if_present read none = ok none
if_present read (some j) = read j >>= (λ a. ok (some a))
