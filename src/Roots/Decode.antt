-- ===== src/Roots/Decode.antt =====
-- runtime/src/syli_state_gc_roots.c: the address that a location names.
use syli.Prelude.{
  ℕ, ◌+◌, ◌^◌, ◌≤◌, ◌<◌, ◌≡◌, ◌≢◌, ◌⊎◌, inl, inr, refl, ap, Option, some, false, ◌==◌, arith,
}
use syli.Roots.Section.{Location}
use syli.Roots.Frames.{
  get_register_value, add_offset, decode_location, loc_register, loc_direct, loc_indirect,
}

-- `a` is `base` with a signed offset of 32 bits added, which `offset` is the pattern of.
abbrev pub IsDisplaced : (base offset a : ℕ) → Type 0
IsDisplaced base offset a =
    ((offset < 2 ^ 31) × (a ≡ base + offset)) ⊎ ((2 ^ 31 ≤ offset) × (a + 2 ^ 32 ≡ base + offset))

add_offset-IsDisplaced :
    (base offset a : ℕ)
    → offset < 2 ^ 32
    → a < 2 ^ 64
    → IsDisplaced base offset a
    → add_offset base offset ≡ a
add_offset-IsDisplaced base offset a fits word_fits (inl (up, e)) = ground arith
add_offset-IsDisplaced base offset a fits word_fits (inr (down, e)) = ground arith

get_register_value-some :
    (register : ℕ → Option ℕ) (dwarf base : ℕ)
    → register dwarf ≡ some base
    → get_register_value register dwarf ≡ base
unfolding get_register_value
get_register_value-some register dwarf base held = rw (get_register_value, held) refl

-- When the register of a location holds `base`, not null, and `a` is a 64-bit address and `base`
-- with the signed offset of the location added: a location of the kind register names `base`, a
-- direct one `a`, and an indirect one the word at `a`.
pub decode_location_lem :
    (word register : ℕ → Option ℕ) (l : Location) (base a : ℕ)
    → register l.dwarf_reg ≡ some base
    → base ≢ 0
    → l.offset < 2 ^ 32
    → a < 2 ^ 64
    → IsDisplaced base l.offset a
    → ((l.kind ≡ loc_register) → decode_location word register l ≡ some base)
      × ((l.kind ≡ loc_direct) → decode_location word register l ≡ some a)
      × ((l.kind ≡ loc_indirect) → decode_location word register l ≡ word a)
unfolding decode_location
decode_location_lem word register l base a held real fits word_fits displaced =
    let there : (base == 0) ≡ false = ground arith in
    let address : add_offset base l.offset ≡ a =
      add_offset-IsDisplaced base l.offset a fits word_fits displaced in
    let value = get_register_value-some register l.dwarf_reg base held in
    (
      λ kind. rw (kind, value) refl,
      λ kind. rw (kind, value, there) (ap some address),
      λ kind. rw (kind, value, there) (ap word address),
    )
