-- ===== src/Json/Equality.antt =====
-- The equality of JSON values decides whether they are the same.
use mathlib.Core.Path.{ap₂}
use mathlib.Core.Bool.{and-eq-true_iff}
use auru_pm_core.Json.{
  Value, Items, Fields, null, bool, number, string, array, object, nil, cons, end, field, whole,
  float, value_eq, items_eq, fields_eq,
}
use auru_pm_core.Prelude.{◌≡◌, refl, true, false, arith, text_eq_iff, text_eq_refl, ap}
use auru_pm_core.Prelude.Int.{pos, negsuc}

mutual
  unfolding value_eq

  value_eq_sound : (a b : Value) → value_eq a b ≡ true → a ≡ b
  value_eq_sound null null h = refl
  value_eq_sound (bool true) (bool true) h = refl
  value_eq_sound (bool false) (bool false) h = refl
  value_eq_sound (number (whole (pos m))) (number (whole (pos n))) h = ground arith
  value_eq_sound (number (whole (negsuc m))) (number (whole (negsuc n))) h = ground arith
  value_eq_sound (number (float m)) (number (float n)) h = ground arith
  value_eq_sound (string s) (string t) h = ap string ((text_eq_iff s t).0 h)
  value_eq_sound (array a) (array b) h = ap array (items_eq_sound a b h)
  value_eq_sound (object a) (object b) h = ap object (fields_eq_sound a b h)
  value_eq_sound _ _ h = cc

  items_eq_sound : (a b : Items) → items_eq a b ≡ true → a ≡ b
  items_eq_sound nil nil h = refl
  items_eq_sound (cons a as') (cons b bs) h =
      let (here, later) = (and-eq-true_iff _ _).0 h in
      ap₂ cons (value_eq_sound a b here) (items_eq_sound as' bs later)
  items_eq_sound _ _ h = cc

  fields_eq_sound : (a b : Fields) → fields_eq a b ≡ true → a ≡ b
  fields_eq_sound end end h = refl
  fields_eq_sound (field j a as') (field k b bs) h =
      let (key, rest) = (and-eq-true_iff _ _).0 h in
      let (here, later) = (and-eq-true_iff _ _).0 rest in
      let e : j ≡ k = (text_eq_iff j k).0 key in
      rw (e, value_eq_sound a b here, fields_eq_sound as' bs later) refl
  fields_eq_sound _ _ h = cc

mutual
  unfolding value_eq

  value_eq_same : (a : Value) → value_eq a a ≡ true
  value_eq_same null = refl
  value_eq_same (bool true) = refl
  value_eq_same (bool false) = refl
  value_eq_same (number (whole (pos m))) = ground arith
  value_eq_same (number (whole (negsuc m))) = ground arith
  value_eq_same (number (float m)) = ground arith
  value_eq_same (string s) = text_eq_refl s
  value_eq_same (array a) = items_eq_same a
  value_eq_same (object a) = fields_eq_same a

  items_eq_same : (a : Items) → items_eq a a ≡ true
  items_eq_same nil = refl
  items_eq_same (cons a as') = rw (value_eq_same a, items_eq_same as') refl

  fields_eq_same : (a : Fields) → fields_eq a a ≡ true
  fields_eq_same end = refl
  fields_eq_same (field k a as') = rw (text_eq_refl k, value_eq_same a, fields_eq_same as') refl

pub value_eq_refl : (a : Value) → value_eq a a ≡ true
value_eq_refl a = value_eq_same a

pub eq_of_value_eq : (a b : Value) → value_eq a b ≡ true → a ≡ b
eq_of_value_eq a b h = value_eq_sound a b h
