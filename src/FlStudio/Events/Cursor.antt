-- ===== src/FlStudio/Events/Cursor.antt =====
-- What the cursor of crates/auru-pm-kernel/src/flstudio/events.rs reads.
use native.Mathlib.Nat.{pow-suc}
use auru_pm_core.Prelude.{
  List, ℕ, drop, ◌++◌, ◌<◌, ◌≡◌, ◌+◌, length, ◌^◌, ◌≤◌, ok, arith, ap, le→leb, suc, length-drop,
  take_append, ◌/◌, length-append, drop_add, ◌∙◌, drop_append, zero,
}
use auru_pm_core.FlStudio.Events.{
  Reader, reader_take, take_u16, take_u32, to_le_bytes, from_le_bytes, usize_max,
}

-- `rest` is what `r` has not read yet.
pub record IsAt (rest : List ℕ) (r : Reader) : Type 0 where
  pub left : drop r.offset r.bytes ≡ rest
  pub inside : r.offset ≤ length r.bytes
  pub fits : length r.bytes ≤ usize_max

module _ (xs ys : List ℕ) (r : Reader) (at : IsAt (xs ++ ys) r) where
  end-le : r.offset + length xs ≤ length r.bytes
  end-le = omega (
    arith,
    ap (λ (l : List ℕ). length l) at.left,
    length-drop r.offset r.bytes,
    length-append xs ys,
    at.inside,
  )

  -- The cursor takes what comes next, and stands behind it.
  pub reader_take_lem : (r' : Reader) × (reader_take (length xs) r ≡ ok (xs, r')) × IsAt ys r'
  unfolding reader_take
  reader_take_lem = (
    record r { offset = r.offset + length xs },
    rw (
      le→leb (r.offset + length xs) usize_max (omega (arith, end-le, at.fits)),
      le→leb (r.offset + length xs) (length r.bytes) end-le,
      at.left,
      take_append xs ys,
    ),
    record {
      left = drop_add r.offset (length xs) r.bytes ∙ rw at.left (drop_append xs ys);
      inside = end-le;
      fits = at.fits;
    },
  )

from_le_bytes-to_le_bytes :
    (width n : ℕ) → n < 256 ^ width → from_le_bytes (to_le_bytes width n) ≡ n
unfolding from_le_bytes to_le_bytes
from_le_bytes-to_le_bytes zero n h = omega arith
from_le_bytes-to_le_bytes (suc width) n h =
    omega (arith, from_le_bytes-to_le_bytes width (n / 256) (omega (arith, pow-suc 256 width)))

module _ (n : ℕ) (ys : List ℕ) (r : Reader) where
  pub take_u16_lem :
      n < 2 ^ 16
      → IsAt (to_le_bytes 2 n ++ ys) r
      → (r' : Reader) × (take_u16 r ≡ ok (n, r')) × IsAt ys r'
  unfolding take_u16 to_le_bytes
  take_u16_lem h at =
      let (r', e, at') = reader_take_lem (to_le_bytes 2 n) ys r at in
      (r', rw e (ap (λ k. ok (k, r')) (from_le_bytes-to_le_bytes 2 n h)), at')

  pub take_u32_lem :
      n < 2 ^ 32
      → IsAt (to_le_bytes 4 n ++ ys) r
      → (r' : Reader) × (take_u32 r ≡ ok (n, r')) × IsAt ys r'
  unfolding take_u32 to_le_bytes
  take_u32_lem h at =
      let (r', e, at') = reader_take_lem (to_le_bytes 4 n) ys r at in
      (r', rw e (ap (λ k. ok (k, r')) (from_le_bytes-to_le_bytes 4 n h)), at')
