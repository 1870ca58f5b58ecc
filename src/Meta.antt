-- ===== src/Meta.antt =====
-- runtime/include/syli/object.h, the second word of an object: marking bit (63), seven flags
-- (56 to 62) and the reference count (0 to 55). The functions of the C code that switch on the
-- zone stand in `Object`; here is what they do to the word.
pub mod Laws
pub mod Count
mod Tests
use syli.Prelude.{ℕ, ◌+◌, ◌-◌, ◌%◌, ◌^◌, bit_and, bit_or, Bool, Option, ◌==◌, asserting}
use syli.Word.{not64, u64, sub64}

abbrev pub initial_refcount : ℕ
initial_refcount = 1

abbrev pub refcount_mask : ℕ
refcount_mask = 2 ^ 56 - 1

abbrev pub mask_marking_bit : ℕ
mask_marking_bit = 2 ^ 63

abbrev pub meta_flags_mask : ℕ
meta_flags_mask = 2 ^ 63 - 2 ^ 56

-- `ObjectMetaFlags`
pub data MetaFlag : Type 0 where
  cyclic_candidate tracing waiting_remove children_released : MetaFlag

abbrev pub flag_bit : MetaFlag → ℕ
flag_bit cyclic_candidate = 2 ^ 56
flag_bit tracing = 2 ^ 58
flag_bit waiting_remove = 2 ^ 59
flag_bit children_released = 2 ^ 60

unfoldable pub make_meta_refcount : (current_state_bit_mark flags : ℕ) → Option ℕ
make_meta_refcount current_state_bit_mark flags =
    asserting (bit_and flags (not64 meta_flags_mask) == 0)
      (bit_or (bit_or current_state_bit_mark flags) initial_refcount)

unfoldable pub refcount : ℕ → ℕ
refcount m = bit_and m refcount_mask

unfoldable pub mark_tag : ℕ → ℕ
mark_tag m = bit_and m mask_marking_bit

unfoldable pub set_flags : ℕ → MetaFlag → ℕ
set_flags m f = bit_or m (flag_bit f)

unfoldable pub has_flags : ℕ → MetaFlag → Bool
has_flags m f = bit_and m (flag_bit f) == flag_bit f

unfoldable pub clear_flags : ℕ → MetaFlag → ℕ
clear_flags m f = bit_and m (not64 (flag_bit f))

unfoldable pub incr : ℕ → ℕ
incr m = u64 (m + 1)

unfoldable pub decr_n : ℕ → ℕ → ℕ
decr_n m n = sub64 m n

-- `gc_mark_tag_object` of gc_helpers.h, at the state's current mark.
unfoldable pub set_mark : (current m : ℕ) → ℕ
set_mark current m = bit_or (bit_and m (not64 mask_marking_bit)) current
