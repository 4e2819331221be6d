-- ===== src/Json.antt =====
-- `serde_json::Value`, as the program uses it: an object is its entries in the order of their keys.
pub mod Equality
use auru_pm_core.Prelude.{
  ℕ, Text, Bool, true, false, ◌&&◌, Option, some, none, List, [], ◌∷◌, text_eq, ◌==◌, if◌then◌else◌,
  lookup,
}
use auru_pm_core.Prelude.Int.{ℤ, pos, negsuc}

-- A float is its place among the finite floats; the two zeros, which are equal, have one place.
pub data Number : Type 0 where
  whole : ℤ → Number
  float : ℕ → Number

mutual
  pub data Value : Type 0 where
    null : Value
    bool : Bool → Value
    number : Number → Value
    string : Text → Value
    array : Items → Value
    object : Fields → Value

  pub data Items : Type 0 where
    nil : Items
    cons : Value → Items → Items

  pub data Fields : Type 0 where
    end : Fields
    field : Text → Value → Fields → Fields

abbrev pub items : Items → List Value
items nil = []
items (cons v vs) = v ∷ items vs

abbrev pub of_items : List Value → Items
of_items [] = nil
of_items (v ∷ vs) = cons v (of_items vs)

abbrev pub fields : Fields → List (Text × Value)
fields end = []
fields (field k v fs) = (k, v) ∷ fields fs

abbrev pub of_fields : List (Text × Value) → Fields
of_fields [] = end
of_fields ((k, v) ∷ fs) = field k v (of_fields fs)

abbrev pub bool_eq : Bool → Bool → Bool
bool_eq true true = true
bool_eq false false = true
bool_eq _ _ = false

abbrev pub int_eq : ℤ → ℤ → Bool
int_eq (pos m) (pos n) = m == n
int_eq (negsuc m) (negsuc n) = m == n
int_eq _ _ = false

abbrev pub number_eq : Number → Number → Bool
number_eq (whole m) (whole n) = int_eq m n
number_eq (float m) (float n) = m == n
number_eq _ _ = false

-- `PartialEq` of `Value`.
unfoldable mutual
  pub value_eq : Value → Value → Bool
  value_eq null null = true
  value_eq (bool a) (bool b) = bool_eq a b
  value_eq (number a) (number b) = number_eq a b
  value_eq (string a) (string b) = text_eq a b
  value_eq (array a) (array b) = items_eq a b
  value_eq (object a) (object b) = fields_eq a b
  value_eq _ _ = false

  pub items_eq : Items → Items → Bool
  items_eq nil nil = true
  items_eq (cons a as') (cons b bs) = value_eq a b && items_eq as' bs
  items_eq _ _ = false

  pub fields_eq : Fields → Fields → Bool
  fields_eq end end = true
  fields_eq (field j a as') (field k b bs) = text_eq j k && (value_eq a b && fields_eq as' bs)
  fields_eq _ _ = false

-- `Value::get` with a key: only an object has entries.
abbrev pub get_field : Value → Text → Option Value
get_field (object fs) key = lookup key (fields fs)
get_field _ key = none

-- `Value::as_str`
abbrev pub as_str : Option Value → Option Text
as_str (some (string s)) = some s
as_str _ = none
