-- ===== src/Header/Payload.antt =====
-- The payload of each layout, and the lengths and sizes that are read from it.
use syli.Prelude.{
  ℕ, ◌+◌, ◌*◌, ◌%◌, ◌^◌, ◌≤◌, ◌<◌, bit_or, ◌≡◌, refl, true, some, none, Option-cases, inl, inr, ◌≢◌,
  if◌then◌else◌, ltb, arith, asserting-eq-some,
}
use native.Mathlib.Nat.{mul-le-mul, pow-le-pow_right, le_of_lt}
use syli.Word.Bits.{bit_and-low, bit_and-field, bit_or-add, bit_or_comm}
use syli.Header.{
  make_mono_payload, make_order_payload, make_bitmap_payload, payload, is_mono, is_mono_imm,
  is_mono_ref, is_mixed_order, is_mixed_bitmap, mono_length, order_ptr_count, order_imm_count,
  order_length, bitmap_length, bitmap_bits, object_length, unit_shift, size_bytes, total_bytes,
  is_cyclic_mutable,
}
use syli.Header.Fields.{unit_shift-eq}

-- A mono payload is read back as the length.
pub mono_length-make_mono_payload :
    (w len : ℕ)
    → is_mono w ≡ true
    → make_mono_payload len ≡ some (payload w)
    → mono_length w ≡ some len
unfolding mono_length make_mono_payload
mono_length-make_mono_payload w len m h =
    ground (arith, asserting-eq-some (ltb len (2 ^ 32)) (len % 2 ^ 32) h)

-- The joined counts of `syli_object_make_order_payload`.
order_word :
    (p q : ℕ)
    → p < 2 ^ 16
    → q < 2 ^ 16
    → bit_or (p * 2 ^ 0 % 2 ^ 64) (q * 2 ^ 16 % 2 ^ 64) % 2 ^ 32 ≡ q * 2 ^ 16 + p
order_word p q hp hq =
    let low : p * 2 ^ 0 % 2 ^ 64 ≡ p = omega arith in
    let high : q * 2 ^ 16 % 2 ^ 64 ≡ q * 2 ^ 16 = omega arith in
    rw (low, high, bit_or_comm p (q * 2 ^ 16), bit_or-add 16 q (q * 2 ^ 16) p refl hp) (omega arith)

module _ (w ptr_count imm_count : ℕ) (layout : is_mixed_order w ≡ true)
    (made : make_order_payload ptr_count imm_count ≡ some (payload w)) where
  payload-order :
      (ptr_count < 2 ^ 16) × (imm_count < 2 ^ 16) × (payload w ≡ imm_count * 2 ^ 16 + ptr_count)
  unfolding make_order_payload
  payload-order = ground (arith, order_word ptr_count imm_count)

  -- From a mixed-order header whose payload `syli_object_make_order_payload` made, both counts
  -- are read back, and the length is their sum.
  pub order_counts :
      (order_ptr_count w ≡ some ptr_count)
      × (order_imm_count w ≡ some imm_count)
      × (order_length w ≡ some (ptr_count + imm_count))
  unfolding order_ptr_count order_imm_count order_length
  order_counts =
      rw layout
        (ground (arith, payload-order, bit_and-low 16 (payload w), bit_and-field 16 16 (payload w)))

bitmap_word :
    (len bitmap : ℕ)
    → len < 2 ^ 5
    → bitmap < 2 ^ 27
    → bit_or len (bitmap * 2 ^ 5 % 2 ^ 32) ≡ bitmap * 2 ^ 5 + len
bitmap_word len bitmap hl hb =
    let high : bitmap * 2 ^ 5 % 2 ^ 32 ≡ bitmap * 2 ^ 5 = omega arith in
    rw (high, bit_or_comm len (bitmap * 2 ^ 5)) (bit_or-add 5 bitmap (bitmap * 2 ^ 5) len refl hl)

-- From a mixed-bitmap header whose payload `syli_object_make_bitmap_payload` made, the length and
-- the bits are read back.
pub bitmap_fields :
    (w len bitmap : ℕ)
    → is_mixed_bitmap w ≡ true
    → make_bitmap_payload len bitmap ≡ some (payload w)
    → (bitmap_length w ≡ some len) × (bitmap_bits w ≡ some bitmap)
unfolding bitmap_length bitmap_bits make_bitmap_payload
bitmap_fields w len bitmap layout made =
    rw layout (ground (arith, bitmap_word len bitmap, bit_and-low 5 (payload w)))

payload-lt : (w : ℕ) → payload w < 2 ^ 32
unfolding payload
payload-lt w = omega arith

object_length-ne-none : (w : ℕ) → object_length w ≢ none
unfolding object_length mono_length order_length bitmap_length is_mono is_mono_imm is_mono_ref
    is_mixed_order is_mixed_bitmap
object_length-ne-none w = ground arith

mono_length-lt : (w n : ℕ) → mono_length w ≡ some n → n < 2 ^ 32
unfolding mono_length
mono_length-lt w n h = ground (arith, payload-lt w)

order_length-lt : (w n : ℕ) → order_length w ≡ some n → n < 2 ^ 32
unfolding order_length
order_length-lt w n h = ground (arith, bit_and-low 16 (payload w), bit_and-field 16 16 (payload w))

pub bitmap_length-lt : (w n : ℕ) → bitmap_length w ≡ some n → n < 2 ^ 5
unfolding bitmap_length
bitmap_length-lt w n h = ground (arith, bit_and-low 5 (payload w))

pub order_ptr_count-lt : (w n : ℕ) → order_ptr_count w ≡ some n → n < 2 ^ 16
unfolding order_ptr_count
order_ptr_count-lt w n h = ground (arith, bit_and-low 16 (payload w))

pub object_length-payload : (w : ℕ) → is_mono_ref w ≡ true → object_length w ≡ some (payload w)
unfolding object_length mono_length is_mono is_mono_ref is_mono_imm
object_length-payload w h = ground arith

object_length-lt : (w n : ℕ) → object_length w ≡ some n → n < 2 ^ 32
unfolding object_length
object_length-lt w n h =
    ground (arith, mono_length-lt w n, order_length-lt w n, bitmap_length-lt w n)

-- The `switch` of `syli_object_length` calls each accessor only under the layout that it asserts:
-- it always gives a length, of 32 bits.
pub object_length-total : (w : ℕ) → (n : ℕ) × (object_length w ≡ some n) × (n < 2 ^ 32)
object_length-total w = elim (Option-cases (object_length w)) [
  | inl e ↦ absurd (object_length-ne-none w e)
  | inr (n, e) ↦ (n, e, object_length-lt w n e)
]

-- A length shifted by a unit shift of 4 bits stays far below 64 bits.
size-lt : (n k : ℕ) → n < 2 ^ 32 → k < 16 → n * 2 ^ k ≤ 2 ^ 32 * 2 ^ 15
size-lt n k hn hk =
    let unit_small : 2 ^ k ≤ 2 ^ 15 =
      pow-le-pow_right {n = 2} (omega arith) {j = 15} (omega arith) in
    mul-le-mul (le_of_lt hn) unit_small

-- The byte size of an object is exactly twice a word, its length times the unit, and one more
-- word if it is mutable cyclic: no `size_t` operation of `syli_object_total_bytes` wraps.
pub total_bytes-exact :
    (w n : ℕ)
    → object_length w ≡ some n
    → (size_bytes w ≡ some (n * 2 ^ unit_shift w))
      × (total_bytes w ≡ some (16 + n * 2 ^ unit_shift w + (if is_cyclic_mutable w then 8 else 0)))
unfolding size_bytes total_bytes
total_bytes-exact w n h =
    let small =
      size-lt n (unit_shift w) (object_length-lt w n h) (omega (arith, unit_shift-eq w)) in
    let kept : n * 2 ^ unit_shift w % 2 ^ 64 ≡ n * 2 ^ unit_shift w = omega arith in
    rw (h, kept) (refl, ground arith)
