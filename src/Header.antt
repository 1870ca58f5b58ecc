-- ===== src/Header.antt =====
-- runtime/include/syli/header_object.h: the header word of an object, an immutable `uint64_t`
-- that holds zone, cyclic bit, layout type, immutable flags, variant tag, unit shift and payload.
-- The C functions take the object and read `o->header_word`; these take that word. The values of
-- the C enumerations stay the shifted words that they are. An `assert` is a `none`.
pub mod Zone
pub mod Layout
pub mod Fields
pub mod RoundTrip
pub mod Payload
mod Tests
use syli.Prelude.{
  ℕ, ◌+◌, ◌-◌, ◌*◌, ◌/◌, ◌^◌, bit_and, bit_or, Bool, true, false, ◌&&◌, ◌||◌, not, Option, none,
  some, ltb, leb, ◌==◌, if◌then◌else◌, asserting,
}
use mathlib.Core.Option
use syli.Word.{u64, u32, ◌<<<◌, ◌>>>◌}

-- Masks and shifts
abbrev pub gc_zone_mask : ℕ
gc_zone_mask = 3 * 2 ^ 62

abbrev pub gc_cyclic_mask : ℕ
gc_cyclic_mask = 2 ^ 61

abbrev pub gc_type_mask : ℕ
gc_type_mask = 3 * 2 ^ 59

abbrev pub gc_has_finalizer_mask : ℕ
gc_has_finalizer_mask = 2 ^ 58

abbrev pub gc_has_pointers_mask : ℕ
gc_has_pointers_mask = 2 ^ 57

abbrev pub gc_traceable_mask : ℕ
gc_traceable_mask = 2 ^ 56

abbrev pub gc_cyclic_mutable_mask : ℕ
gc_cyclic_mutable_mask = 2 ^ 47

abbrev pub gc_unit_mask : ℕ
gc_unit_mask = 15 * 2 ^ 43

abbrev pub gc_variant_flags_mask : ℕ
gc_variant_flags_mask = 255 * 2 ^ 48

abbrev pub gc_immutable_flags_mask : ℕ
gc_immutable_flags_mask = 3 * 2 ^ 57

abbrev pub gc_payload_mask : ℕ
gc_payload_mask = 2 ^ 32 - 1

-- Payload fields
abbrev pub gc_bitmap_length_mask : ℕ
gc_bitmap_length_mask = 31

abbrev pub gc_order_ptr_count_mask : ℕ
gc_order_ptr_count_mask = 65535

abbrev pub gc_order_imm_count_mask : ℕ
gc_order_imm_count_mask = 65535 * 2 ^ 16

-- Enumerations
abbrev pub acyclic : ℕ
acyclic = 0

abbrev pub cyclic : ℕ
cyclic = 2 ^ 61

abbrev pub gc_unit_shift_i64 : ℕ
gc_unit_shift_i64 = 3

-- An assertion of `syli_object_make_header`: the value is one of the enumeration's.
unfoldable pub is_zone : ℕ → Bool
is_zone z = z == Zone.gc_local || z == Zone.gc_shared || z == Zone.static

unfoldable pub is_layout : ℕ → Bool
is_layout t =
    t == Layout.mono_imm
    || t == Layout.mono_ref
    || t == Layout.mixed_order
    || t == Layout.mixed_bitmap

-- The fields joined, as `syli_object_make_header` returns them.
unfoldable pub header_word : (zone cyclic_flag layout imm_flags unit_shift payload : ℕ) → ℕ
header_word zone cyclic_flag layout imm_flags unit_shift payload =
    bit_or
      (bit_or (bit_or (bit_or (bit_or zone cyclic_flag) layout) imm_flags)
        (bit_and unit_shift 15 <<< 43))
      (bit_and payload gc_payload_mask)

unfoldable pub make_header : (zone cyclic_flag layout imm_flags unit_shift payload : ℕ) → Option ℕ
unfolding is_zone is_layout header_word
make_header zone cyclic_flag layout imm_flags unit_shift payload =
    asserting
      (is_zone zone
        && (cyclic_flag == cyclic || cyclic_flag == acyclic)
        && is_layout layout
        && leb unit_shift gc_unit_shift_i64)
      (header_word zone cyclic_flag layout imm_flags unit_shift payload)

unfoldable pub make_mono_payload : ℕ → Option ℕ
make_mono_payload len = asserting (ltb len (2 ^ 32)) (u32 len)

unfoldable pub make_order_payload : (ptr_count imm_count : ℕ) → Option ℕ
make_order_payload ptr_count imm_count =
    asserting (ltb ptr_count (2 ^ 16) && ltb imm_count (2 ^ 16))
      (u32 (bit_or (ptr_count <<< 0) (imm_count <<< 16)))

unfoldable pub make_bitmap_payload : (len bitmap : ℕ) → Option ℕ
make_bitmap_payload len bitmap =
    asserting (ltb len (2 ^ 5) && ltb bitmap (2 ^ 27)) (bit_or len (u32 (bitmap * 2 ^ 5)))

-- Reading the header word
unfoldable pub get_zone : ℕ → ℕ
get_zone w = bit_and w gc_zone_mask

unfoldable pub is_local : ℕ → Bool
is_local w = bit_and w gc_zone_mask == Zone.gc_local

unfoldable pub is_shared : ℕ → Bool
is_shared w = bit_and w gc_zone_mask == Zone.gc_shared

unfoldable pub is_cyclic : ℕ → Bool
is_cyclic w = not (bit_and w gc_cyclic_mask == 0)

unfoldable pub is_acyclic : ℕ → Bool
is_acyclic w = bit_and w gc_cyclic_mask == 0

unfoldable pub is_cyclic_mutable : ℕ → Bool
is_cyclic_mutable w = not (bit_and w gc_cyclic_mutable_mask == 0)

unfoldable pub has_finalizer : ℕ → Bool
has_finalizer w = not (bit_and w gc_has_finalizer_mask == 0)

unfoldable pub has_pointers : ℕ → Bool
has_pointers w = not (bit_and w gc_has_pointers_mask == 0)

unfoldable pub get_immutable_flags : ℕ → ℕ
get_immutable_flags w = bit_and w gc_immutable_flags_mask

unfoldable pub is_traceable : ℕ → Bool
is_traceable w = not (bit_and w gc_traceable_mask == 0)

unfoldable pub get_layout : ℕ → ℕ
get_layout w = bit_and w gc_type_mask

unfoldable pub is_mono_imm : ℕ → Bool
is_mono_imm w = bit_and w gc_type_mask == Layout.mono_imm

unfoldable pub is_mono_ref : ℕ → Bool
is_mono_ref w = bit_and w gc_type_mask == Layout.mono_ref

unfoldable pub is_mono : ℕ → Bool
is_mono w = is_mono_imm w || is_mono_ref w

unfoldable pub is_mixed_order : ℕ → Bool
is_mixed_order w = bit_and w gc_type_mask == Layout.mixed_order

unfoldable pub is_mixed_bitmap : ℕ → Bool
is_mixed_bitmap w = bit_and w gc_type_mask == Layout.mixed_bitmap

unfoldable pub payload : ℕ → ℕ
payload w = u32 (bit_and w gc_payload_mask)

unfoldable pub mono_length : ℕ → Option ℕ
mono_length w = asserting (is_mono w) (payload w)

unfoldable pub order_ptr_count : ℕ → Option ℕ
order_ptr_count w = asserting (is_mixed_order w) (bit_and (payload w) gc_order_ptr_count_mask)

unfoldable pub order_imm_count : ℕ → Option ℕ
order_imm_count w =
    asserting (is_mixed_order w) (bit_and (payload w) gc_order_imm_count_mask >>> 16)

unfoldable pub order_length : ℕ → Option ℕ
order_length w = asserting (is_mixed_order w) (
    bit_and (payload w) gc_order_ptr_count_mask
    + (bit_and (payload w) gc_order_imm_count_mask >>> 16))

unfoldable pub bitmap_length : ℕ → Option ℕ
bitmap_length w = asserting (is_mixed_bitmap w) (bit_and (payload w) gc_bitmap_length_mask)

unfoldable pub bitmap_bits : ℕ → Option ℕ
bitmap_bits w = asserting (is_mixed_bitmap w) (payload w >>> 5)

-- `1u << index` on 32 bits; the callers' `index` is below 32.
unfoldable pub bitmap_is_ref : (bitmap index : ℕ) → Bool
bitmap_is_ref bitmap index = not (bit_and bitmap (u32 (2 ^ index)) == 0)

-- The `switch` on the type
unfoldable pub object_length : ℕ → Option ℕ
object_length w =
    let layout = bit_and w gc_type_mask in
    if layout == Layout.mono_imm || layout == Layout.mono_ref
    then mono_length w
    else if layout == Layout.mixed_order
    then order_length w
    else if layout == Layout.mixed_bitmap
    then bitmap_length w
    else some 0

unfoldable pub unit_shift : ℕ → ℕ
unit_shift w = bit_and w gc_unit_mask >>> 43

unfoldable pub unit_bytes : ℕ → ℕ
unit_bytes w = 1 <<< unit_shift w

unfoldable pub size_bytes : ℕ → Option ℕ
size_bytes w = Option.map (λ len. len <<< unit_shift w) (object_length w)

unfoldable pub get_variant_tag : ℕ → ℕ
get_variant_tag w = bit_and w gc_variant_flags_mask >>> 48

-- Header word, meta word and data, and the candidate index of a mutable cyclic object.
unfoldable pub total_bytes : ℕ → Option ℕ
total_bytes w =
    Option.map (λ size. u64 (2 * 8 + size + (if is_cyclic_mutable w then 8 else 0))) (size_bytes w)
