-- ===== src/FlStudio/Varint.antt =====
-- The 7-bits-per-byte length prefix of crates/auru-pm-kernel/src/flstudio/events.rs
-- (`read_varint`, `write_varint`), and the errors of that file.
use auru_pm_core.Prelude.{
  ℕ, zero, suc, ◌+◌, ◌*◌, ◌/◌, ◌%◌, ◌^◌, ◌≤◌, ◌<◌, ◌≡◌, refl, List, [], ◌∷◌, ◌++◌, arith, ltb, ◌==◌,
  if◌then◌else◌, Result, ok, err, Bool-cases, inl, inr, false, ap, lt→ltb, le→not_ltb, ◌∙◌,
}
use native.Mathlib.Nat.{pow-suc}
use native.Mathlib.Numerals.{towards_suc}

-- `Error::ProjectFormat` with its message as a constructor. `out_of_fuel` is the model's own.
pub data Error : Type 0 where
  too_large missing_header no_data_chunk chunk_overflow mid_chunk too_many_events : Error
  bad_varint varint_past_end out_of_fuel ends_before : Error
  bad_header_len : ℕ → Error
  event_overrun : ℕ → ℕ → ℕ → Error

-- `value |= (byte & 0x7f) << shift`: the groups before set only bits below `shift`, so the bits are
-- disjoint and `|` is `+`. `shift` is at most 28 here, so nothing leaves the 64 bits.
unfoldable pub read_from : ℕ → ℕ → List ℕ → Result Error (ℕ × List ℕ)
read_from value shift [] = err varint_past_end
read_from value shift (byte ∷ rest) =
    let value' = value + byte % 128 * 2 ^ shift in
    let more = read_from value' (shift + 7) rest in
    if ltb 28 shift then err bad_varint else if ltb byte 128 then ok (value', rest) else more

unfoldable pub read_varint : List ℕ → Result Error (ℕ × List ℕ)
unfolding read_from
read_varint bytes = read_from 0 0 bytes

-- The `loop` of `write_varint`, one round for each group of seven bits.
pub write_groups : ℕ → ℕ → List ℕ
write_groups zero value = []
write_groups (suc groups) value =
    let rest = write_groups groups (value / 128) in
    if value / 128 == 0 then value % 128 ∷ [] else (value % 128 + 128) ∷ rest

-- A `usize` has 64 bits, so ten groups of seven are enough.
unfoldable pub write_varint : ℕ → List ℕ
unfolding write_groups
write_varint value = write_groups 10 value

pow2_shift : (s : ℕ) → 2 ^ (s + 7) ≡ 128 * 2 ^ s
pow2_shift s = simp towards_suc (omega arith)

-- One group: the low seven bits at `p`, the others at `128 * p`.
group_sum : (acc v p q : ℕ) → q ≡ 128 * p → acc + v % 128 * p + v / 128 * q ≡ acc + v * p
group_sum acc v p q h =
    let split : v ≡ v / 128 * 128 + v % 128 = omega arith in
    rw h (omega (arith, ap (λ (t : ℕ). t * p) split))

more_groups :
    (value groups : ℕ) → (value / 128 == 0) ≡ false → value / 128 < 128 ^ groups → 0 < groups
more_groups value zero more small = ground arith
more_groups value (suc groups) more small = omega arith

-- The groups of seven bits that are written are read back, whatever follows them: from the
-- offset `shift` on, with room for `groups` more.
read_from-write_groups :
    (fuel groups value acc shift : ℕ) (rest : List ℕ)
    → shift + 7 * groups ≡ 35
    → groups ≤ fuel
    → value < 128 ^ groups
    → 0 < groups
    → read_from acc shift (write_groups fuel value ++ rest) ≡ ok (acc + value * 2 ^ shift, rest)
unfolding read_from write_groups
read_from-write_groups zero groups value acc shift rest h1 h2 h3 h4 = absurd (omega arith)
read_from-write_groups (suc fuel) zero value acc shift rest h1 h2 h3 h4 = absurd (omega arith)
read_from-write_groups (suc fuel) (suc groups) value acc shift rest h1 h2 h3 h4 =
    let small : value / 128 < 128 ^ groups = omega (arith, pow-suc 128 groups) in
    elim (Bool-cases (value / 128 == 0)) [
      | inl done ↦
          let same : value % 128 % 128 ≡ value = ground arith in
          rw (done, le→not_ltb 28 shift (omega arith), lt→ltb (value % 128) 128 (omega arith), same)
      | inr more ↦
          let low : (value % 128 + 128) % 128 ≡ value % 128 = omega arith in
          rw
            (
              more,
              le→not_ltb 28 shift (omega arith),
              le→not_ltb (value % 128 + 128) 128 (omega arith),
              low,
            )
            (read_from-write_groups fuel groups (value / 128) (acc + value % 128 * 2 ^ shift)
                (shift + 7) rest (omega arith) (omega arith) small
                (more_groups value groups more small)
              ∙ ap (λ n. ok (n, rest))
                  (group_sum acc value (2 ^ shift) (2 ^ (shift + 7)) (pow2_shift shift)))
    ]

-- A length below 2^35 is read back from its encoding, and the bytes behind it are left.
pub read_varint-write_varint :
    (value : ℕ) (rest : List ℕ)
    → value < 2 ^ 35
    → read_varint (write_varint value ++ rest) ≡ ok (value, rest)
unfolding read_varint write_varint
read_varint-write_varint value rest h =
    read_from-write_groups 10 5 value 0 0 rest refl (omega arith) (omega arith) (omega arith)
    ∙ ap (λ n. ok (n, rest)) (omega arith)
