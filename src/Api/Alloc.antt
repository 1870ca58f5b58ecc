-- ===== src/Api/Alloc.antt =====
-- Allocation of an object that is not cyclic.
use syli.Prelude.{
  ℕ, zero, suc, ◌+◌, ◌-◌, ◌*◌, ◌/◌, ◌%◌, ◌^◌, ◌<◌, ◌≤◌, bit_and, bit_or, ◌≡◌, ◌≢◌, refl, true,
  false, some, inl, inr, Bool-cases, if◌then◌else◌, replicate, length-replicate, leb, ltb, ◌==◌,
  ==_refl, arith,
}
use syli.Word.{u64, ◌<<<◌, ◌>>>◌}
use syli.Header
use syli.Header.{gc_cyclic_mutable_mask, gc_unit_mask}
use syli.Pointer.Tags.{set_own-aligned}
use syli.State.{Block, State}
use syli.State.Monad.{ok, fault, update, load, store}
use syli.Object
use syli.Object.{header_bytes, block_bytes}
use syli.Object.Heap.{update-at, update-update}
use syli.Api.{
  zero_bytes, zero_trailing, zero_block, rc_alloc_object, track_cyclic, ownership_alloc_object,
}

zero_bytes-replicate : (n k junk : ℕ) → 8 * k ≤ n → zero_bytes n (replicate k junk) ≡ replicate k 0
unfolding zero_bytes
zero_bytes-replicate n zero junk h = refl
zero_bytes-replicate n (suc k) junk h =
    let whole : leb 8 n ≡ true = ground arith in
    rw (whole, zero_bytes-replicate (n - 8) k junk (omega arith))

zero_trailing-replicate :
    (n k junk : ℕ) → k ≤ n → zero_trailing n (replicate k junk) ≡ replicate k 0
unfolding zero_trailing
zero_trailing-replicate n zero junk h = refl
zero_trailing-replicate n (suc k) junk h =
    let some_left : (n == 0) ≡ false = ground arith in
    rw (some_left, zero_trailing-replicate (n - 1) k junk (omega arith))

-- A block of `n` bytes behind its header words, all of them `word` and `byte`
abbrev pub filled : (header meta n word byte : ℕ) → Block
filled header meta n word byte = record {
  header = header;
  meta = meta;
  value = replicate (n / 8) word;
  trailing = replicate (n % 8) byte;
}

zero_block-filled :
    (header meta n word byte : ℕ)
    → zero_block n (filled header meta n word byte) ≡ some (filled header meta n 0 0)
unfolding zero_block
zero_block-filled header meta n word byte =
    let all : leb n (8 * (n / 8) + n % 8) ≡ true = ground arith in
    rw (
      length-replicate (n / 8) word,
      length-replicate (n % 8) byte,
      all,
      zero_bytes-replicate n (n / 8) word (omega arith),
      zero_trailing-replicate (n - 8 * (n / 8)) (n % 8) byte (omega arith),
    )

-- The bytes of the fields, as the source computes them
abbrev pub data_bytes : (header len : ℕ) → ℕ
data_bytes header len = len <<< (bit_and header gc_unit_mask >>> 43)

module _ (header len : ℕ) (fixed : Header.is_cyclic_mutable header ≡ false) where
  block_bytes-data_bytes : block_bytes header len ≡ u64 (header_bytes + data_bytes header len)
  unfolding block_bytes Header.is_cyclic_mutable
  block_bytes-data_bytes =
      let no_index : (bit_and header gc_cyclic_mutable_mask == 0) ≡ true = ground arith in
      rw no_index (omega arith)

  module _ (fresh junk refcount : ℕ) (s : State) (real : fresh ≢ 0) where
    rc_alloc-fits :
        header_bytes + data_bytes header len < 2 ^ 64
        → rc_alloc_object fresh junk header refcount len s
          ≡ ok fresh (record s {
            heap = update s.heap fresh (
                some (
                  filled header
                    (bit_or refcount s.tracing_current_bit_mark)
                    (data_bytes header len)
                    0
                    0));
          })
    unfolding rc_alloc_object Object.alloc load store
    rc_alloc-fits fits =
        let here : (fresh == 0) ≡ false = ground arith in
        let size : block_bytes header len ≡ header_bytes + data_bytes header len =
          rw block_bytes-data_bytes (omega arith) in
        let room : ltb (header_bytes + data_bytes header len) header_bytes ≡ false = ground arith in
        let rest : header_bytes + data_bytes header len - header_bytes ≡ data_bytes header len =
          omega arith in
        rw (
          here,
          size,
          room,
          rest,
          ==_refl fresh,
          zero_block-filled header (bit_or refcount s.tracing_current_bit_mark)
              (data_bytes header len) junk (junk % 256),
          update-update,
        )

    rc_alloc-wraps :
        2 ^ 64 ≤ header_bytes + data_bytes header len
        → rc_alloc_object fresh junk header refcount len s ≡ fault
    unfolding rc_alloc_object Object.alloc
    rc_alloc-wraps wraps =
        let here : (fresh == 0) ≡ false = ground arith in
        let short : ltb (block_bytes header len) header_bytes ≡ true =
          rw block_bytes-data_bytes (ground arith) in
        rw (here, short)

  pub ownership_alloc_object_lem :
      (fresh junk refcount : ℕ) (s : State)
      → fresh ≢ 0
      → fresh % 8 ≡ 0
      → Header.is_cyclic header ≡ false
      → ownership_alloc_object fresh junk header refcount len s ≡ (
          if ltb (header_bytes + data_bytes header len) (2 ^ 64)
          then ok (fresh + 1) (record s {
            heap = update s.heap fresh (
                some (
                  filled header
                    (bit_or refcount s.tracing_current_bit_mark)
                    (data_bytes header len)
                    0
                    0));
          })
          else fault)
  unfolding ownership_alloc_object track_cyclic load
  ownership_alloc_object_lem fresh junk refcount s real aligned acyclic =
      elim (Bool-cases (ltb (header_bytes + data_bytes header len) (2 ^ 64))) [
        | inl fits ↦ rw (
          fits,
          rc_alloc-fits fresh junk refcount s real (ground arith),
          update-at,
          acyclic,
          set_own-aligned fresh aligned,
        )
        | inr wraps ↦ rw (wraps, rc_alloc-wraps fresh junk refcount s real (ground arith))
      ]
