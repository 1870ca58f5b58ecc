-- ===== src/Pointer/Tags.antt =====
-- What tagging and untagging do to a pointer.
use syli.Prelude.{ℕ, ◌+◌, ◌-◌, ◌%◌, ◌^◌, ◌<◌, ◌≡◌, true, ◌==◌, if◌then◌else◌, arith}
use syli.Word.Bits.{bit_and-low, bit_or-bit, bit_and-not}
use syli.Pointer.{untag, is_own_ref, is_always_borrow, is_immediate, set_own}

module _ (p : ℕ) where
  pub is_own_ref-eq : is_own_ref p ≡ (p % 4 == 1)
  unfolding is_own_ref
  is_own_ref-eq = ground (arith, bit_and-low 2 p)

  pub is_always_borrow-eq : is_always_borrow p ≡ (p % 4 == 2)
  unfolding is_always_borrow
  is_always_borrow-eq = ground (arith, bit_and-low 2 p)

  pub is_immediate-eq : is_immediate p ≡ (p % 4 == 3)
  unfolding is_immediate
  is_immediate-eq = ground (arith, bit_and-low 2 p)

  pub untag-eq : p < 2 ^ 64 → untag p ≡ p - p % 4
  unfolding untag
  untag-eq h = omega (arith, bit_and-not 64 3 p (omega arith), bit_and-low 2 p)

  pub set_own-eq : set_own p ≡ (if p % 2 == 0 then p + 1 else p)
  unfolding set_own
  set_own-eq = ground (arith, bit_or-bit 0 p)

-- An aligned address, once tagged as owned, reads as owned and untags to the address.
pub untag-set_own :
    (p : ℕ)
    → p < 2 ^ 64
    → p % 8 ≡ 0
    → (is_own_ref (set_own p) ≡ true) × (untag (set_own p) ≡ p) × (untag p ≡ p)
untag-set_own p h a =
    ground (arith, is_own_ref-eq (set_own p), untag-eq (set_own p), set_own-eq p, untag-eq p)

-- The owned pointer to an aligned address is the address plus one.
pub set_own-aligned : (p : ℕ) → p % 8 ≡ 0 → set_own p ≡ p + 1
set_own-aligned p a = ground (arith, set_own-eq p)
