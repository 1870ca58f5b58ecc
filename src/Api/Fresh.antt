-- ===== src/Api/Fresh.antt =====
-- Allocation of an object, and then the release of its only reference.
use syli.Prelude.{
  ℕ, ◌+◌, ◌*◌, ◌%◌, ◌^◌, ◌<◌, ◌≡◌, ◌≢◌, ◌∙◌, refl, true, false, none, some, inl, inr, Bool-cases,
  bit_or, ◌==◌, ltb, if◌then◌else◌, arith,
}
use syli.Word.Bits.{bit_or-add, bit_or_comm}
use syli.Header
use syli.Header.Zone
use syli.Meta
use syli.Meta.Laws.{refcount-eq}
use syli.Stack
use syli.State.{Block, State}
use syli.State.Monad.{ok, update, ◌>>=◌}
use syli.Object.{header_bytes}
use syli.Object.Heap.{IsLocal, update-at, update-update, update_self}
use syli.Api.{ownership_alloc_object, ownership_release}
use syli.Api.Alloc.{filled, data_bytes, ownership_alloc_object_lem}
use syli.Api.Release.{release_lem, dropped}

-- A local object that is neither cyclic nor mutable cyclic, at an aligned address of the machine
-- where nothing is allocated, and of a size that fits a `size_t`
pub record IsFresh (header len fresh bit : ℕ) (s : State) : Type 0 where
  pub zone : Header.get_zone header ≡ Zone.gc_local
  pub acyclic : Header.is_cyclic header ≡ false
  pub fixed : Header.is_cyclic_mutable header ≡ false
  pub not_null : fresh ≢ 0
  pub aligned : fresh % 8 ≡ 0
  pub address : fresh + 1 < 2 ^ 64
  pub unused : s.heap fresh ≡ none
  pub fits : header_bytes + data_bytes header len < 2 ^ 64
  pub current : s.tracing_current_bit_mark ≡ bit * 2 ^ 63
  pub is_bit : bit < 2

module _ (header len fresh junk bit : ℕ) (s : State) (i : IsFresh header len fresh bit s) where
  -- The object, with a meta word
  abbrev object : ℕ → Block
  object meta = filled header meta (data_bytes header len) 0 0

  abbrev allocated : State
  allocated = record s { heap = update s.heap fresh (some (object (bit * 2 ^ 63 + 1))) }

  first_meta : bit_or 1 s.tracing_current_bit_mark ≡ bit * 2 ^ 63 + 1
  first_meta =
      rw (i.current, bit_or_comm 1 (bit * 2 ^ 63))
        (bit_or-add 63 bit (bit * 2 ^ 63) 1 refl (omega arith))

  alloc-allocated : ownership_alloc_object fresh junk header 1 len s ≡ ok (fresh + 1) allocated
  alloc-allocated =
      let room : ltb (header_bytes + data_bytes header len) (2 ^ 64) ≡ true =
        ground (arith, i.fits) in
      ownership_alloc_object_lem header len i.fixed fresh junk 1 s i.not_null i.aligned i.acyclic
      ∙ rw (room, first_meta) refl

  allocated-IsLocal : IsLocal allocated.heap fresh (object (bit * 2 ^ 63 + 1))
  allocated-IsLocal = record {
    object = record {
      aligned = i.aligned;
      not_null = i.not_null;
      address = i.address;
      holds = update-at s.heap fresh _;
      meta_fits = omega (arith, i.is_bit);
    };
    zone = i.zone;
  }

  dropped-first : dropped (bit * 2 ^ 63 + 1) ≡ bit * 2 ^ 63
  unfolding Meta.decr_n
  dropped-first = omega (arith, i.is_bit)

  none_left : (Meta.refcount (bit * 2 ^ 63) == 0) ≡ true
  none_left = ground (arith, refcount-eq (bit * 2 ^ 63))

  -- A local object, neither cyclic nor mutable cyclic and of a size that fits a `size_t`, that is
  -- allocated with one reference at an aligned address where nothing was allocated, and then
  -- released, at a current mark of 0 or the marking bit: an object without pointers is freed, and nothing is left of it but that it is counted as freed.
  -- Any other is left with the count 0 and all of its fields zero, and waits for its children to be
  -- released.
  pub release-alloc :
      (ownership_alloc_object fresh junk header 1 len >>= ownership_release) s
      ≡ ok tt (
          if Header.is_mono_imm header
          then record s { total_objects_freed = (s.total_objects_freed + 1) % 2 ^ 64 }
          else record s {
            heap = update s.heap fresh (some (object (bit * 2 ^ 63)));
            releasing_waitlist = Stack.push (fresh + 1) s.releasing_waitlist;
          })
  release-alloc =
      rw (alloc-allocated, release_lem allocated allocated-IsLocal, dropped-first, none_left)
        (elim (Bool-cases (Header.is_mono_imm header)) [
          | inl imm ↦ rw (imm, update-update, update_self s.heap fresh none i.unused) refl
          | inr refs ↦ rw (refs, i.fixed, update-update) refl
        ])
