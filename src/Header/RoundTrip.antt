-- ===== src/Header/RoundTrip.antt =====
-- The header word made by `syli_object_make_header` reads back as its arguments.
use syli.Prelude.{
  ℕ, ◌-◌, ◌*◌, ◌/◌, ◌%◌, ◌^◌, ◌≤◌, ◌<◌, bit_and, ◌≡◌, false, some, ◌==◌, asserting-eq-some,
  &&-eq-true, arith,
}
use syli.Word.Bits.{bit_and-low}
use syli.Header
use syli.Header.{make_header, header_word, is_zone, is_layout, cyclic, acyclic}
use syli.Header.Fields.{
  word_of, join-word_of, zone_index, layout_index, cyclic_index, get_zone-eq, get_layout-eq,
  is_cyclic-eq, is_cyclic_mutable-eq, has_finalizer-eq, has_pointers-eq, is_traceable-eq,
  unit_shift-eq, get_variant_tag-eq, payload-eq,
}

-- What the fields of `w` read as.
pub record Reads (zone cyc layout imm shift load w : ℕ) : Type 0 where
  pub zone_read : Header.get_zone w ≡ zone
  pub cyclic_read : Header.is_cyclic w ≡ (cyc == cyclic)
  pub layout_read : Header.get_layout w ≡ layout
  pub finalizer_read : Header.has_finalizer w ≡ Header.has_finalizer imm
  pub pointers_read : Header.has_pointers w ≡ Header.has_pointers imm
  pub traceable_read : Header.is_traceable w ≡ Header.is_traceable imm
  pub shift_read : Header.unit_shift w ≡ shift
  pub payload_read : Header.payload w ≡ load
  pub variant_read : Header.get_variant_tag w ≡ 0
  pub mutable_read : Header.is_cyclic_mutable w ≡ false
  pub fits : w < 2 ^ 64

word_of-Reads :
    (z c t f u p : ℕ)
    → z < 4
    → c < 2
    → t < 4
    → f < 8
    → u < 16
    → p < 2 ^ 32
    → Reads (z * 2 ^ 62) (c * 2 ^ 61) (t * 2 ^ 59) (f * 2 ^ 56) u p (word_of z c t f u p)
word_of-Reads z c t f u p hz hc ht hf hu hp = record {
  zone_read = omega (arith, get_zone-eq (word_of z c t f u p));
  cyclic_read = ground (arith, is_cyclic-eq (word_of z c t f u p));
  layout_read = omega (arith, get_layout-eq (word_of z c t f u p));
  finalizer_read =
      ground (arith, has_finalizer-eq (word_of z c t f u p), has_finalizer-eq (f * 2 ^ 56));
  pointers_read =
      ground (arith, has_pointers-eq (word_of z c t f u p), has_pointers-eq (f * 2 ^ 56));
  traceable_read =
      ground (arith, is_traceable-eq (word_of z c t f u p), is_traceable-eq (f * 2 ^ 56));
  shift_read = omega (arith, unit_shift-eq (word_of z c t f u p));
  payload_read = omega (arith, payload-eq (word_of z c t f u p));
  variant_read = omega (arith, get_variant_tag-eq (word_of z c t f u p));
  mutable_read = ground (arith, is_cyclic_mutable-eq (word_of z c t f u p));
  fits = omega arith;
}

header_word-word_of :
    (z c t f u p : ℕ)
    → z < 4
    → c < 2
    → t < 4
    → f < 8
    → u ≤ 3
    → p < 2 ^ 32
    → header_word (z * 2 ^ 62) (c * 2 ^ 61) (t * 2 ^ 59) (f * 2 ^ 56) u p ≡ word_of z c t f u p
unfolding header_word
header_word-word_of z c t f u p hz hc ht hf hu hp =
    let shift_kept : bit_and u 15 * 2 ^ 43 % 2 ^ 64 ≡ u * 2 ^ 43 = omega (arith, bit_and-low 4 u) in
    let load_kept : bit_and p (2 ^ 32 - 1) ≡ p = omega (arith, bit_and-low 32 p) in
    rw (shift_kept, load_kept) (join-word_of z c t f u p hz hc ht hf (omega arith) hp)

-- The arguments that pass the assertions, at the indices of their enumerations.
from_indices :
    (zone cyc layout imm shift load w : ℕ)
    → imm / 2 ^ 56 < 8
    → imm % 2 ^ 56 ≡ 0
    → load < 2 ^ 32
    → shift ≤ 3
    → (z : ℕ) × (z < 4) × (zone ≡ z * 2 ^ 62)
    → (c : ℕ) × (c < 2) × (cyc ≡ c * 2 ^ 61)
    → (t : ℕ) × (t < 4) × (layout ≡ t * 2 ^ 59)
    → header_word zone cyc layout imm shift load ≡ w
    → Reads zone cyc layout imm shift load w
from_indices zone cyc layout imm shift load w hi he hl hs (z, hz, ez) (c, hc, ec) (t, ht, et) ew =
    let f : ℕ = imm / 2 ^ 56 in
    let ef : imm ≡ f * 2 ^ 56 = omega arith in
    let value : w ≡ word_of z c t f shift load =
      cc (header_word-word_of z c t f shift load hz hc ht hi hs hl) in
    rw (ez, ec, et, ef, value) (word_of-Reads z c t f shift load hz hc ht hi (omega arith) hl)

-- A header word that `syli_object_make_header` returns reads back, field by field, as the
-- arguments it was made from, if the flags are bits 56 to 58 and the payload has 32 bits: zone,
-- cyclic bit, layout type, the three flags, unit shift and payload; the variant tag is 0, the
-- mutable-cyclic bit is clear, and the word fits 64 bits.
pub make_header-Reads :
    (zone cyc layout imm shift load : ℕ) {w : ℕ}
    → imm / 2 ^ 56 < 8
    → imm % 2 ^ 56 ≡ 0
    → load < 2 ^ 32
    → make_header zone cyc layout imm shift load ≡ some w
    → Reads zone cyc layout imm shift load w
unfolding make_header
make_header-Reads zone cyc layout imm shift load hi he hl h =
    let (checks, value) = asserting-eq-some _ _ h in
    let (c1, shift_ok) = &&-eq-true _ _ checks in
    let (c2, layout_ok) = &&-eq-true _ _ c1 in
    let (zone_ok, cyclic_ok) = &&-eq-true _ _ c2 in
    from_indices zone cyc layout imm shift load _ hi he hl (ground arith) (zone_index zone zone_ok)
      (cyclic_index cyc cyclic_ok) (layout_index layout layout_ok) value
