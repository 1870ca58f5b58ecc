-- ===== src/Meta/Laws.antt =====
-- The three parts of the meta word are independent: counting, flagging and marking leave the
-- other two parts alone.
use syli.Prelude.{ℕ, ◌+◌, ◌*◌, ◌/◌, ◌%◌, ◌^◌, ◌<◌, ◌≡◌, Bool, ◌||◌, ◌&&◌, not, ◌==◌, arith}
use syli.Word.Bits.{bit_and-low, bit_and-bit, bit_or-bit, bit_and-not}
use syli.Meta.{
  MetaFlag, cyclic_candidate, tracing, waiting_remove, children_released, refcount, mark_tag,
  set_flags, has_flags, clear_flags,
}

abbrev pub flag_pos : MetaFlag → ℕ
flag_pos cyclic_candidate = 56
flag_pos tracing = 58
flag_pos waiting_remove = 59
flag_pos children_released = 60

abbrev pub flag_eq : MetaFlag → MetaFlag → Bool
flag_eq f g = flag_pos f == flag_pos g

pub refcount-eq : (m : ℕ) → refcount m ≡ m % 2 ^ 56
unfolding refcount
refcount-eq m = bit_and-low 56 m

pub mark_tag-eq : (m : ℕ) → mark_tag m ≡ m / 2 ^ 63 % 2 * 2 ^ 63
unfolding mark_tag
mark_tag-eq m = bit_and-bit 63 m

pub has_flags-eq : (m : ℕ) (f : MetaFlag) → has_flags m f ≡ (m / 2 ^ flag_pos f % 2 == 1)
unfolding has_flags
has_flags-eq m cyclic_candidate = ground (arith, bit_and-bit 56 m)
has_flags-eq m tracing = ground (arith, bit_and-bit 58 m)
has_flags-eq m waiting_remove = ground (arith, bit_and-bit 59 m)
has_flags-eq m children_released = ground (arith, bit_and-bit 60 m)

pub set_flags-eq :
    (m : ℕ) (f : MetaFlag)
    → set_flags m f + m / 2 ^ flag_pos f % 2 * 2 ^ flag_pos f ≡ m + 2 ^ flag_pos f
unfolding set_flags
set_flags-eq m cyclic_candidate = bit_or-bit 56 m
set_flags-eq m tracing = bit_or-bit 58 m
set_flags-eq m waiting_remove = bit_or-bit 59 m
set_flags-eq m children_released = bit_or-bit 60 m

pub clear_flags-eq :
    (m : ℕ) (f : MetaFlag)
    → m < 2 ^ 64
    → clear_flags m f + m / 2 ^ flag_pos f % 2 * 2 ^ flag_pos f ≡ m
unfolding clear_flags
clear_flags-eq m cyclic_candidate h =
    omega (arith, bit_and-not 64 (2 ^ 56) m (omega arith), bit_and-bit 56 m)
clear_flags-eq m tracing h =
    omega (arith, bit_and-not 64 (2 ^ 58) m (omega arith), bit_and-bit 58 m)
clear_flags-eq m waiting_remove h =
    omega (arith, bit_and-not 64 (2 ^ 59) m (omega arith), bit_and-bit 59 m)
clear_flags-eq m children_released h =
    omega (arith, bit_and-not 64 (2 ^ 60) m (omega arith), bit_and-bit 60 m)

-- The parts of `m'` other than its flags are those of `m`.
pub record SameCountMark (m m' : ℕ) : Type 0 where
  pub refcount_same : refcount m' ≡ refcount m
  pub mark_same : mark_tag m' ≡ mark_tag m
  pub fits : m' < 2 ^ 64

pub set_flags-flag :
    (m : ℕ) (f g : MetaFlag) → has_flags (set_flags m f) g ≡ (flag_eq f g || has_flags m g)
set_flags-flag m cyclic_candidate cyclic_candidate = ground (
  arith,
  has_flags-eq (set_flags m cyclic_candidate) cyclic_candidate,
  has_flags-eq m cyclic_candidate,
  set_flags-eq m cyclic_candidate,
)
set_flags-flag m tracing cyclic_candidate = ground (
  arith,
  has_flags-eq (set_flags m tracing) cyclic_candidate,
  has_flags-eq m cyclic_candidate,
  set_flags-eq m tracing,
)
set_flags-flag m waiting_remove cyclic_candidate = ground (
  arith,
  has_flags-eq (set_flags m waiting_remove) cyclic_candidate,
  has_flags-eq m cyclic_candidate,
  set_flags-eq m waiting_remove,
)
set_flags-flag m children_released cyclic_candidate = ground (
  arith,
  has_flags-eq (set_flags m children_released) cyclic_candidate,
  has_flags-eq m cyclic_candidate,
  set_flags-eq m children_released,
)
set_flags-flag m f g =
    ground (arith, has_flags-eq (set_flags m f) g, has_flags-eq m g, set_flags-eq m f)

pub clear_flags-flag :
    (m : ℕ) (f g : MetaFlag)
    → m < 2 ^ 64
    → has_flags (clear_flags m f) g ≡ (not (flag_eq f g) && has_flags m g)
clear_flags-flag m cyclic_candidate cyclic_candidate h = ground (
  arith,
  has_flags-eq (clear_flags m cyclic_candidate) cyclic_candidate,
  has_flags-eq m cyclic_candidate,
  clear_flags-eq m cyclic_candidate,
)
clear_flags-flag m tracing cyclic_candidate h = ground (
  arith,
  has_flags-eq (clear_flags m tracing) cyclic_candidate,
  has_flags-eq m cyclic_candidate,
  clear_flags-eq m tracing,
)
clear_flags-flag m waiting_remove cyclic_candidate h = ground (
  arith,
  has_flags-eq (clear_flags m waiting_remove) cyclic_candidate,
  has_flags-eq m cyclic_candidate,
  clear_flags-eq m waiting_remove,
)
clear_flags-flag m children_released cyclic_candidate h = ground (
  arith,
  has_flags-eq (clear_flags m children_released) cyclic_candidate,
  has_flags-eq m cyclic_candidate,
  clear_flags-eq m children_released,
)
clear_flags-flag m f g h =
    ground (arith, has_flags-eq (clear_flags m f) g, has_flags-eq m g, clear_flags-eq m f)

set_flags-SameCountMark : (m : ℕ) (f : MetaFlag) → m < 2 ^ 64 → SameCountMark m (set_flags m f)
set_flags-SameCountMark m cyclic_candidate h = ground (
  arith,
  set_flags-eq m cyclic_candidate,
  refcount-eq m,
  refcount-eq (set_flags m cyclic_candidate),
  mark_tag-eq m,
  mark_tag-eq (set_flags m cyclic_candidate),
)
set_flags-SameCountMark m f h = ground (
  arith,
  set_flags-eq m f,
  refcount-eq m,
  refcount-eq (set_flags m f),
  mark_tag-eq m,
  mark_tag-eq (set_flags m f),
)

clear_flags-SameCountMark : (m : ℕ) (f : MetaFlag) → m < 2 ^ 64 → SameCountMark m (clear_flags m f)
clear_flags-SameCountMark m cyclic_candidate h = ground (
  arith,
  clear_flags-eq m cyclic_candidate,
  refcount-eq m,
  refcount-eq (clear_flags m cyclic_candidate),
  mark_tag-eq m,
  mark_tag-eq (clear_flags m cyclic_candidate),
)
clear_flags-SameCountMark m f h = ground (
  arith,
  clear_flags-eq m f,
  refcount-eq m,
  refcount-eq (clear_flags m f),
  mark_tag-eq m,
  mark_tag-eq (clear_flags m f),
)

-- Setting the flag `f` of a 64-bit meta word sets `f`, and changes no other flag, nor the count,
-- nor the mark.
pub set_flags_lem :
    (m : ℕ) (f g : MetaFlag)
    → m < 2 ^ 64
    → (has_flags (set_flags m f) g ≡ (flag_eq f g || has_flags m g))
      × SameCountMark m (set_flags m f)
set_flags_lem m f g h = (set_flags-flag m f g, set_flags-SameCountMark m f h)

-- Clearing the flag `f` of a 64-bit meta word clears `f`, and changes no other flag, nor the
-- count, nor the mark.
pub clear_flags_lem :
    (m : ℕ) (f g : MetaFlag)
    → m < 2 ^ 64
    → (has_flags (clear_flags m f) g ≡ (not (flag_eq f g) && has_flags m g))
      × SameCountMark m (clear_flags m f)
clear_flags_lem m f g h = (clear_flags-flag m f g h, clear_flags-SameCountMark m f h)
