-- ===== src/Prelude/Results.antt =====
-- `Result<A, E>` with the `?` operator as bind.
use mathlib.Core.Path.{refl, ◌≡◌}
use mathlib.Core.Bool.{true, false, Bool}

pub data Result {ℓ} (E : Type 0) (A : Type ℓ) : Type ℓ where
  err : E → Result E A
  ok : A → Result E A

module _ {E : Type 0} where
  -- An early `return Err(e)` unless the test holds.
  abbrev pub ensure : Bool → E → Result E (Unit {0})
  ensure false reason = err reason
  ensure true reason = ok tt

  infixl 5 ◌>>=◌
  abbrev pub ◌>>=◌ {i j} : {A : Type i} {B : Type j} → Result E A → (A → Result E B) → Result E B
  err reason >>= next = err reason
  ok value >>= next = next value

  -- Inversion of a successful bind.
  pub >>=-eq-ok {i j} :
      {A : Type i} {B : Type j} (first : Result E A) (next : A → Result E B) {b : B}
      → (first >>= next) ≡ ok b
      → (value : A) × (first ≡ ok value) × (next value ≡ ok b)
  >>=-eq-ok (err reason) next done = cc
  >>=-eq-ok (ok value) next done = (value, refl, done)

  infixl 5 ◌>>◌
  abbrev pub ◌>>◌ {j} : {B : Type j} → Result E (Unit {0}) → Result E B → Result E B
  first >> next = first >>= λ nothing. next

  pub ensure-eq-ok {j} :
      {B : Type j} (test : Bool) (reason : E) (next : Result E B) {b : B}
      → (ensure test reason >> next) ≡ ok b
      → (test ≡ true) × (next ≡ ok b)
  ensure-eq-ok false reason next done = cc
  ensure-eq-ok true reason next done = (refl, done)

  pub ok-injective {j} : {A : Type j} {a b : A} → ◌≡◌ {A = Result E A} (ok a) (ok b) → a ≡ b
  ok-injective h = cc

  pub err-ok {j k} :
      {A : Type j} {e : E} {a : A} {C : Type k} → ◌≡◌ {A = Result E A} (err e) (ok a) → C
  err-ok h = cc
