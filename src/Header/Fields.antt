-- ===== src/Header/Fields.antt =====
-- What the header word made by `syli_object_make_header` reads back as.
use syli.Prelude.{ℕ, ◌+◌, ◌*◌, ◌/◌, ◌%◌, ◌^◌, ◌<◌, bit_or, ◌≡◌, refl, true, ◌||◌, not, ◌==◌, arith}
use syli.Word.Bits.{bit_and-field, bit_and-bit, bit_and-low, bit_or-add}
use syli.Header
use syli.Header.{make_header, is_zone, is_layout, cyclic, acyclic}

-- The six fields at their places.
abbrev pub word_of : (z c t f u p : ℕ) → ℕ
word_of z c t f u p = z * 2 ^ 62 + c * 2 ^ 61 + t * 2 ^ 59 + f * 2 ^ 56 + u * 2 ^ 43 + p

pub join-word_of :
    (z c t f u p : ℕ)
    → z < 4
    → c < 2
    → t < 4
    → f < 8
    → u < 16
    → p < 2 ^ 32
    → bit_or
        (bit_or
          (bit_or (bit_or (bit_or (z * 2 ^ 62) (c * 2 ^ 61)) (t * 2 ^ 59)) (f * 2 ^ 56))
          (u * 2 ^ 43))
        p
      ≡ word_of z c t f u p
join-word_of z c t f u p hz hc ht hf hu hp = rw (
  bit_or-add 62 z (z * 2 ^ 62) (c * 2 ^ 61) refl (omega arith),
  bit_or-add 61 (z * 2 + c) (z * 2 ^ 62 + c * 2 ^ 61) (t * 2 ^ 59) (omega arith) (omega arith),
  bit_or-add 59 (z * 8 + c * 4 + t) (z * 2 ^ 62 + c * 2 ^ 61 + t * 2 ^ 59) (f * 2 ^ 56)
      (omega arith) (omega arith),
  bit_or-add 56 (z * 64 + c * 32 + t * 8 + f) (z * 2 ^ 62 + c * 2 ^ 61 + t * 2 ^ 59 + f * 2 ^ 56)
      (u * 2 ^ 43) (omega arith) (omega arith),
  bit_or-add 43 (z * 2 ^ 19 + c * 2 ^ 18 + t * 2 ^ 16 + f * 2 ^ 13 + u)
      (z * 2 ^ 62 + c * 2 ^ 61 + t * 2 ^ 59 + f * 2 ^ 56 + u * 2 ^ 43) p (omega arith)
      (omega arith),
)

-- Reading the fields, as arithmetic on the word
module _ (w : ℕ) where
  pub get_zone-eq : Header.get_zone w ≡ w / 2 ^ 62 % 4 * 2 ^ 62
  unfolding Header.get_zone
  get_zone-eq = bit_and-field 62 2 w

  pub get_layout-eq : Header.get_layout w ≡ w / 2 ^ 59 % 4 * 2 ^ 59
  unfolding Header.get_layout
  get_layout-eq = bit_and-field 59 2 w

  pub is_cyclic-eq : Header.is_cyclic w ≡ not (w / 2 ^ 61 % 2 == 0)
  unfolding Header.is_cyclic
  is_cyclic-eq = ground (arith, bit_and-bit 61 w)

  pub is_cyclic_mutable-eq : Header.is_cyclic_mutable w ≡ not (w / 2 ^ 47 % 2 == 0)
  unfolding Header.is_cyclic_mutable
  is_cyclic_mutable-eq = ground (arith, bit_and-bit 47 w)

  pub has_finalizer-eq : Header.has_finalizer w ≡ not (w / 2 ^ 58 % 2 == 0)
  unfolding Header.has_finalizer
  has_finalizer-eq = ground (arith, bit_and-bit 58 w)

  pub has_pointers-eq : Header.has_pointers w ≡ not (w / 2 ^ 57 % 2 == 0)
  unfolding Header.has_pointers
  has_pointers-eq = ground (arith, bit_and-bit 57 w)

  pub is_traceable-eq : Header.is_traceable w ≡ not (w / 2 ^ 56 % 2 == 0)
  unfolding Header.is_traceable
  is_traceable-eq = ground (arith, bit_and-bit 56 w)

  pub unit_shift-eq : Header.unit_shift w ≡ w / 2 ^ 43 % 16
  unfolding Header.unit_shift
  unit_shift-eq = omega (arith, bit_and-field 43 4 w)

  pub get_variant_tag-eq : Header.get_variant_tag w ≡ w / 2 ^ 48 % 256
  unfolding Header.get_variant_tag
  get_variant_tag-eq = omega (arith, bit_and-field 48 8 w)

  pub payload-eq : Header.payload w ≡ w % 2 ^ 32
  unfolding Header.payload
  payload-eq = omega (arith, bit_and-low 32 w)

-- What the assertions of `syli_object_make_header` let through.
pub zone_index : (z : ℕ) → is_zone z ≡ true → (k : ℕ) × (k < 4) × (z ≡ k * 2 ^ 62)
unfolding is_zone
zone_index z h = (z / 2 ^ 62, ground arith, ground arith)

pub layout_index : (t : ℕ) → is_layout t ≡ true → (k : ℕ) × (k < 4) × (t ≡ k * 2 ^ 59)
unfolding is_layout
layout_index t h = (t / 2 ^ 59, ground arith, ground arith)

pub cyclic_index :
    (c : ℕ) → (c == cyclic || c == acyclic) ≡ true → (k : ℕ) × (k < 2) × (c ≡ k * 2 ^ 61)
cyclic_index c h = (c / 2 ^ 61, ground arith, ground arith)
