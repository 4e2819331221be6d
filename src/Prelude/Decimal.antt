-- ===== src/Prelude/Decimal.antt =====
-- Decimal numerals as `{}` writes an unsigned integer and as `str::parse` reads one.
use Prim.Native.Nat.{ℕ, zero, suc, ◌+◌, ◌-◌, ◌*◌, ◌/◌, ◌%◌, ◌≤◌, ◌<◌}
use mathlib.Core.Path.{◌≡◌, refl, ap, sym, ◌∙◌}
use mathlib.Core.Logic.{◌≢◌, inl, inr}
use mathlib.Core.Bool.{Bool, true, false, ◌&&◌}
use mathlib.Core.Option.{Option, none, some, some-injective}
use mathlib.Core.List.{[], ◌∷◌, ◌++◌}
use native.Mathlib.Omega.{arith}
use auru_pm_core.Prelude.Tests.{leb, ◌==◌, if◌then◌else◌, Bool-cases, le→leb, none-some}
use auru_pm_core.Prelude.Lists.{All}
use auru_pm_core.Prelude.Texts.{Text}

-- The digits of `n / 10` and then the last one. A number has no more digits than its value plus
-- one.
unfoldable pub decimal_from : ℕ → ℕ → Text
decimal_from zero n = []
decimal_from (suc fuel) n =
    let more = decimal_from fuel (n / 10) in
    let last = (b'0' + n % 10) ∷ [] in if n / 10 == 0 then last else more ++ last

unfoldable pub decimal : ℕ → Text
unfolding decimal_from
decimal n = decimal_from (suc n) n

abbrev pub is_digit : ℕ → Bool
is_digit c = leb b'0' c && leb c b'9'

-- The number of a text of digits, from the value read so far.
unfoldable pub digits : ℕ → Text → Option ℕ
digits acc [] = some acc
digits acc (c ∷ cs) = if is_digit c then digits (acc * 10 + (c - b'0')) cs else none

abbrev pub at_most : ℕ → Option ℕ → Option ℕ
at_most limit none = none
at_most limit (some n) = if leb n limit then some n else none

-- `str::parse` for an unsigned integer up to `limit`: it takes one leading `+`, as the standard
-- library documents, and no empty text.
unfoldable pub parse_unsigned : ℕ → Text → Option ℕ
unfolding digits
parse_unsigned limit [] = none
parse_unsigned limit (c ∷ []) = at_most limit (digits 0 (c ∷ []))
parse_unsigned limit (c ∷ d ∷ cs) =
    if c == b'+' then at_most limit (digits 0 (d ∷ cs)) else at_most limit (digits 0 (c ∷ d ∷ cs))

-- A text of digits goes on with more of them.
digits-append : (acc n : ℕ) (s t : Text) → digits acc s ≡ some n → digits acc (s ++ t) ≡ digits n t
unfolding digits
digits-append acc n [] t e = ap (λ k. digits k t) (some-injective _ _ e)
digits-append acc n (c ∷ s) t e = elim (Bool-cases (is_digit c)) [
  | inl digit ↦ rw digit (digits-append (acc * 10 + (c - b'0')) n s t (rw digit at e))
  | inr other ↦ absurd (none-some (rw other at e))
]

last_digit : (n k : ℕ) → digits n ((b'0' + k % 10) ∷ []) ≡ some (n * 10 + k % 10)
unfolding digits
last_digit n k =
    let low : k % 10 < 10 = omega arith in
    let digit : is_digit (b'0' + k % 10) ≡ true = ground arith in
    rw digit (ap (λ x. some x) (omega arith))

digits-decimal_from : (fuel n : ℕ) → n < fuel → digits 0 (decimal_from fuel n) ≡ some n
unfolding decimal_from
digits-decimal_from zero n h = absurd (omega arith)
digits-decimal_from (suc fuel) n h = elim (Bool-cases (n / 10 == 0)) [
  | inl small ↦
      let e : n / 10 ≡ 0 = ground arith in
      rw small (last_digit 0 n ∙ ap (λ x. some x) (omega arith))
  | inr more ↦
      let e : n / 10 ≢ 0 = ground arith in
      rw more (
        digits-append 0 (n / 10) (decimal_from fuel (n / 10)) ((b'0' + n % 10) ∷ [])
          (digits-decimal_from fuel (n / 10) (omega arith))
        ∙ last_digit (n / 10) n
        ∙ ap (λ x. some x) (omega arith))
]

pub digits-decimal : (n : ℕ) → digits 0 (decimal n) ≡ some n
unfolding decimal
digits-decimal n = digits-decimal_from (suc n) n (omega arith)

pub decimal-injective : (m n : ℕ) → decimal m ≡ decimal n → m ≡ n
decimal-injective m n e =
    some-injective _ _ (sym (digits-decimal m) ∙ ap (digits 0) e ∙ digits-decimal n)

-- Every character of a numeral is a digit, and there is one.
AllDigits-append :
    (s : Text) (c : ℕ)
    → All (λ d. is_digit d ≡ true) s
    → is_digit c ≡ true
    → All (λ d. is_digit d ≡ true) (s ++ c ∷ [])
AllDigits-append [] c h k = (k, tt)
AllDigits-append (d ∷ s) c h k = (h.0, AllDigits-append s c h.1 k)

decimal_from_digits : (fuel n : ℕ) → All (λ d. is_digit d ≡ true) (decimal_from fuel n)
unfolding decimal_from
decimal_from_digits zero n = tt
decimal_from_digits (suc fuel) n =
    let low : n % 10 < 10 = omega arith in
    let last : is_digit (b'0' + n % 10) ≡ true = ground arith in
    elim (Bool-cases (n / 10 == 0)) [
      | inl small ↦ rw small (last, tt)
      | inr more ↦
          rw more (
            AllDigits-append (decimal_from fuel (n / 10)) _ (decimal_from_digits fuel (n / 10))
              last)
    ]

pub decimal_digits : (n : ℕ) → All (λ d. is_digit d ≡ true) (decimal n)
unfolding decimal
decimal_digits n = decimal_from_digits (suc n) n

parse_digits :
    (limit n : ℕ) (s : Text)
    → All (λ d. is_digit d ≡ true) s
    → s ≢ []
    → digits 0 s ≡ some n
    → n ≤ limit
    → parse_unsigned limit s ≡ some n
unfolding parse_unsigned
parse_digits limit n [] h k e b = absurd (k refl)
parse_digits limit n (c ∷ []) h k e b = rw (e, le→leb n limit b)
parse_digits limit n (c ∷ d ∷ s) h k e b =
    let plain : (c == b'+') ≡ false = ground (arith, h.0) in rw (plain, e, le→leb n limit b)

pub decimal-ne-nil : (n : ℕ) → decimal n ≢ []
unfolding decimal decimal_from
decimal-ne-nil n e = elim (Bool-cases (n / 10 == 0)) [
  | inl small ↦ let never = rw small at e in cc
  | inr more ↦ append_last-ne-nil _ _ (rw more at e)
]
  where
    append_last-ne-nil : (s : Text) (c : ℕ) → s ++ c ∷ [] ≡ [] → ⊥
    append_last-ne-nil [] c e = cc
    append_last-ne-nil (d ∷ s) c e = cc

-- A number within the limit is read back from its numeral.
pub parse_unsigned-decimal : (limit n : ℕ) → n ≤ limit → parse_unsigned limit (decimal n) ≡ some n
parse_unsigned-decimal limit n b =
    parse_digits limit n (decimal n) (decimal_digits n) (decimal-ne-nil n) (digits-decimal n) b
