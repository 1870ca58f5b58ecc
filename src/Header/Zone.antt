-- ===== src/Header/Zone.antt =====
-- `ObjectZone` of runtime/include/syli/header_object.h
use syli.Prelude.{ℕ, ◌*◌, ◌^◌}

abbrev pub gc_local : ℕ
gc_local = 0

abbrev pub gc_shared : ℕ
gc_shared = 1 * 2 ^ 62

abbrev pub static : ℕ
static = 2 * 2 ^ 62
