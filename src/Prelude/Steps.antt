-- ===== src/Prelude/Steps.antt =====
-- Code that changes a state and may fail: `?` as bind, with what it ensures on either end.
use mathlib.Core.Path.{◌≡◌, refl, ap, sym, transport}
use mathlib.Core.Option.{Option, none, some}
use mathlib.Core.Bool.{Bool, true, false}
use auru_pm_core.Prelude.Results.{Result, ok, err}

abbrev pub Step {ℓ} : Type 0 → Type 0 → Type ℓ → Type ℓ
Step E S A = S → Result E A × S

module _ {E S : Type 0} where
  abbrev pub and_then {i j} :
      {A : Type i} {B : Type j} → Result E A × S → (A → Step E S B) → Result E B × S
  and_then (err e, t) next = (err e, t)
  and_then (ok a, t) next = next a t

  infixl 5 ◌>>=◌ ◌>>◌
  abbrev pub ◌>>=◌ {i j} : {A : Type i} {B : Type j} → Step E S A → (A → Step E S B) → Step E S B
  ◌>>=◌ first next s = and_then (first s) next

  abbrev pub ◌>>◌ {j} : {B : Type j} → Step E S (Unit {0}) → Step E S B → Step E S B
  first >> next = first >>= λ nothing. next

  abbrev pub done {i} : {A : Type i} → A → Step E S A
  done a s = (ok a, s)

  abbrev pub fail {i} : {A : Type i} → E → Step E S A
  fail e s = (err e, s)

  -- `ok_or`
  abbrev pub some_or_fail {i} : {A : Type i} → E → Option A → Step E S A
  some_or_fail e none = fail e
  some_or_fail e (some a) = done a

  abbrev pub ensure : Bool → E → Step E S (Unit {0})
  ensure false e = fail e
  ensure true e = done tt

  -- What holds of the end of a step, by whether it gives a value or an error.
  abbrev pub Ensures {i k} :
      {A : Type i} → (A → S → Type k) → (E → S → Type k) → Result E A × S → Type k
  Ensures Good Bad (err e, t) = Bad e t
  Ensures Good Bad (ok a, t) = Good a t

  pub Ensures-bind {i j k l} :
      {A : Type i} {B : Type j} (Good : A → S → Type k) (Bad : E → S → Type k)
      (Good' : B → S → Type l) (Bad' : E → S → Type l) (end : Result E A × S)
      (next : A → Step E S B)
      → Ensures Good Bad end
      → ((a : A) (t : S) → Good a t → Ensures Good' Bad' (next a t))
      → ((e : E) (t : S) → Bad e t → Bad' e t)
      → Ensures Good' Bad' (and_then end next)
  Ensures-bind Good Bad Good' Bad' (err e, t) next h good bad = bad e t h
  Ensures-bind Good Bad Good' Bad' (ok a, t) next h good bad = good a t h

  -- What a value found on the way brings with it.
  pub Ensures-some {i j l} :
      {A : Type i} {B : Type j} (Good' : B → S → Type l) (Bad' : E → S → Type l) (e : E)
      (found : Option A) (s : S) (next : A → Step E S B)
      → ((a : A) → found ≡ some a → Ensures Good' Bad' (next a s))
      → Bad' e s
      → Ensures Good' Bad' (and_then (some_or_fail e found s) next)
  Ensures-some Good' Bad' e none s next good bad = bad
  Ensures-some Good' Bad' e (some a) s next good bad = good a refl

  pub Ensures-test {j l} :
      {B : Type j} (Good' : B → S → Type l) (Bad' : E → S → Type l) (e : E) (test : Bool) (s : S)
      (next : Step E S B)
      → (test ≡ true → Ensures Good' Bad' (next s))
      → Bad' e s
      → Ensures Good' Bad' (and_then (ensure test e s) (λ nothing. next))
  Ensures-test Good' Bad' e false s next good bad = bad
  Ensures-test Good' Bad' e true s next good bad = good refl

  -- What is ensured of the value that a step gives.
  pub Ensures-ok {i k} :
      {A : Type i} (Good : A → S → Type k) (Bad : E → S → Type k) (end : Result E A × S) (a : A)
      (t : S)
      → Ensures Good Bad end
      → end ≡ (ok a, t)
      → Good a t
  Ensures-ok Good Bad end a t h e = transport (ap (Ensures Good Bad) e) h

  pub Ensures-found {i j l} :
      {A : Type i} {B : Type j} (Good : B → S → Type l) (Bad : E → S → Type l) (e : E)
      (found : Option A) (a : A) (s : S) (next : A → Step E S B)
      → found ≡ some a
      → Ensures Good Bad (next a s)
      → Ensures Good Bad (and_then (some_or_fail e found s) next)
  Ensures-found Good Bad e found a s next same h =
      transport (ap (λ f. Ensures Good Bad (and_then (some_or_fail e f s) next)) (sym same)) h

  -- What holds of the state at the end, whatever the result is.
  pub Ensures-all {i k} :
      {A : Type i} (P : S → Type k) (end : Result E A × S)
      → P end.1
      → Ensures (λ a t. P t) (λ e t. P t) end
  Ensures-all P (err e, t) h = h
  Ensures-all P (ok a, t) h = h

  pub Ensures-end {i} :
      {A : Type i} (Good : A → S → Type 0) (Bad : E → S → Type 0) (P : S → Type 0)
      (end : Result E A × S)
      → Ensures Good Bad end
      → P end.1
      → Ensures (λ a t. Good a t × P t) (λ e t. Bad e t × P t) end
  Ensures-end Good Bad P (err e, t) g h = (g, h)
  Ensures-end Good Bad P (ok a, t) g h = (g, h)

  pub Ensures-map {i} :
      {A : Type i} (Good : A → S → Type 0) (Bad : E → S → Type 0) (Good' : A → S → Type 0)
      (Bad' : E → S → Type 0) (end : Result E A × S)
      → Ensures Good Bad end
      → ((a : A) (t : S) → Good a t → Good' a t)
      → ((e : E) (t : S) → Bad e t → Bad' e t)
      → Ensures Good' Bad' end
  Ensures-map Good Bad Good' Bad' (err e, t) h good bad = bad e t h
  Ensures-map Good Bad Good' Bad' (ok a, t) h good bad = good a t h
