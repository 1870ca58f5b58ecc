-- ===== src/Meta/Count.antt =====
-- Counting and marking change their part of the meta word alone.
use syli.Prelude.{ℕ, ◌+◌, ◌-◌, ◌*◌, ◌%◌, ◌^◌, bit_and, ◌≤◌, ◌<◌, ◌≡◌, refl, sym, arith}
use syli.Word.Bits.{bit_and-bit, bit_and-not, bit_or-add, bit_or_comm}
use syli.Meta.{MetaFlag, cyclic_candidate, refcount, mark_tag, has_flags, incr, decr_n, set_mark}
use syli.Meta.Laws.{refcount-eq, mark_tag-eq, has_flags-eq}

-- `m'` has the count `n`, and the flags and the mark of `m`.
pub record Counts (m n m' : ℕ) : Type 0 where
  pub count : refcount m' ≡ n
  pub flags_same : (f : MetaFlag) → has_flags m' f ≡ has_flags m f
  pub mark_same : mark_tag m' ≡ mark_tag m
  pub fits : m' < 2 ^ 64

incr-eq : (m : ℕ) → m < 2 ^ 64 → refcount m + 1 < 2 ^ 56 → incr m ≡ m + 1
unfolding incr
incr-eq m h r = omega (arith, refcount-eq m)

decr_n-eq : (m n : ℕ) → m < 2 ^ 64 → n ≤ refcount m → decr_n m n + n ≡ m
unfolding decr_n
decr_n-eq m n h r = omega (arith, refcount-eq m)

add-flag : (m n : ℕ) (f : MetaFlag) → m % 2 ^ 56 + n < 2 ^ 56 → has_flags (m + n) f ≡ has_flags m f
add-flag m n cyclic_candidate r =
    ground (arith, has_flags-eq (m + n) cyclic_candidate, has_flags-eq m cyclic_candidate)
add-flag m n f r = ground (arith, has_flags-eq (m + n) f, has_flags-eq m f)

add-Counts :
    (m n : ℕ) → m + n < 2 ^ 64 → m % 2 ^ 56 + n < 2 ^ 56 → Counts m (refcount m + n) (m + n)
add-Counts m n h r = record {
  count = omega (arith, refcount-eq m, refcount-eq (m + n));
  flags_same = λ f. add-flag m n f r;
  mark_same = omega (arith, mark_tag-eq m, mark_tag-eq (m + n));
  fits = h;
}

-- Counting up a 64-bit meta word whose count is not the largest adds one to the count, and
-- changes neither a flag nor the mark.
pub incr_lem : (m : ℕ) → m < 2 ^ 64 → refcount m + 1 < 2 ^ 56 → Counts m (refcount m + 1) (incr m)
incr_lem m h r =
    rw (incr-eq m h r)
      (add-Counts m 1 (omega (arith, refcount-eq m)) (omega (arith, refcount-eq m)))

-- Counting a 64-bit meta word down by no more than its count takes that from the count, and
-- changes neither a flag nor the mark.
pub decr_n_lem : (m n : ℕ) → m < 2 ^ 64 → n ≤ refcount m → Counts m (refcount m - n) (decr_n m n)
decr_n_lem m n h r =
    let less : decr_n m n + n ≡ m = decr_n-eq m n h r in
    let parts =
      rw less at (add-Counts (decr_n m n) n (omega arith) (omega (arith, refcount-eq m))) in
    record {
      count = omega (arith, parts.count);
      flags_same = λ f. sym (parts.flags_same f);
      mark_same = sym parts.mark_same;
      fits = omega arith;
    }

set_mark-eq : (b m : ℕ) → m < 2 ^ 64 → set_mark (b * 2 ^ 63) m ≡ b * 2 ^ 63 + m % 2 ^ 63
unfolding set_mark
set_mark-eq b m h =
    let kept : bit_and m (2 ^ 64 - 1 - 2 ^ 63) ≡ m % 2 ^ 63 =
      omega (arith, bit_and-not 64 (2 ^ 63) m (omega arith), bit_and-bit 63 m) in
    rw (kept, bit_or_comm (m % 2 ^ 63) (b * 2 ^ 63))
      (bit_or-add 63 b (b * 2 ^ 63) (m % 2 ^ 63) refl (omega arith))

marked-flag : (b m : ℕ) (f : MetaFlag) → has_flags (b * 2 ^ 63 + m % 2 ^ 63) f ≡ has_flags m f
marked-flag b m cyclic_candidate = ground (
  arith,
  has_flags-eq (b * 2 ^ 63 + m % 2 ^ 63) cyclic_candidate,
  has_flags-eq m cyclic_candidate,
)
marked-flag b m f = ground (arith, has_flags-eq (b * 2 ^ 63 + m % 2 ^ 63) f, has_flags-eq m f)

-- Marking a 64-bit meta word with 0 or the marking bit leaves that mark, and changes neither the
-- count nor a flag.
pub set_mark_lem :
    (b m : ℕ)
    → m < 2 ^ 64
    → b < 2
    → (mark_tag (set_mark (b * 2 ^ 63) m) ≡ b * 2 ^ 63)
      × (refcount (set_mark (b * 2 ^ 63) m) ≡ refcount m)
      × ((f : MetaFlag) → has_flags (set_mark (b * 2 ^ 63) m) f ≡ has_flags m f)
      × (set_mark (b * 2 ^ 63) m < 2 ^ 64)
set_mark_lem b m h hb = rw (set_mark-eq b m h) (
  omega (arith, mark_tag-eq (b * 2 ^ 63 + m % 2 ^ 63)),
  omega (arith, refcount-eq (b * 2 ^ 63 + m % 2 ^ 63), refcount-eq m),
  (λ f. marked-flag b m f),
  omega arith,
)
