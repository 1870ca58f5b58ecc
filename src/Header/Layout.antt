-- ===== src/Header/Layout.antt =====
-- `ObjectType` of runtime/include/syli/header_object.h
use syli.Prelude.{ℕ, ◌*◌, ◌^◌}

abbrev pub mono_imm : ℕ
mono_imm = 0

abbrev pub mono_ref : ℕ
mono_ref = 1 * 2 ^ 59

abbrev pub mixed_order : ℕ
mixed_order = 2 * 2 ^ 59

abbrev pub mixed_bitmap : ℕ
mixed_bitmap = 3 * 2 ^ 59
