-- ===== src/Pointer.antt =====
-- runtime/include/syli/object.h, tagged pointers: the two low bits of an `obj_ptr` say who owns
-- the object. A pointer is its `uintptr_t`.
pub mod Tags
use syli.Prelude.{ℕ, ◌-◌, ◌^◌, bit_and, bit_or, Bool, ◌==◌}
use syli.Word.{not64}

abbrev pub null : ℕ
null = 0

abbrev pub own_ref_tag : ℕ
own_ref_tag = 1

abbrev pub always_borrow_tag : ℕ
always_borrow_tag = 2

abbrev pub immediate_tag : ℕ
immediate_tag = 3

abbrev pub own_tag_mask : ℕ
own_tag_mask = 3

unfoldable pub untag : ℕ → ℕ
untag ptr = bit_and ptr (not64 own_tag_mask)

unfoldable pub is_own_ref : ℕ → Bool
is_own_ref ptr = bit_and ptr own_tag_mask == own_ref_tag

unfoldable pub is_always_borrow : ℕ → Bool
is_always_borrow ptr = bit_and ptr own_tag_mask == always_borrow_tag

unfoldable pub is_immediate : ℕ → Bool
is_immediate ptr = bit_and ptr own_tag_mask == immediate_tag

unfoldable pub set_own : ℕ → ℕ
set_own ptr = bit_or ptr own_ref_tag
