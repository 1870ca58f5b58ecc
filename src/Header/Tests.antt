-- ===== src/Header/Tests.antt =====
-- Concrete header words, and the theorems applied to them.
use syli.Prelude.{ℕ, ◌+◌, ◌*◌, ◌^◌, ◌<◌, ◌≡◌, refl, some, arith}
use syli.Header
use syli.Header.{make_header, make_order_payload, make_bitmap_payload, payload}
use syli.Header.Layout
use syli.Header.RoundTrip.{Reads, make_header-Reads}
use syli.Header.Payload.{
  mono_length-make_mono_payload, order_counts, object_length-total, total_bytes-exact,
}

-- A local cyclic object of five words, of which the second and the fourth are references
abbrev bitmap_header : ℕ
bitmap_header = 2 ^ 61 + 3 * 2 ^ 59 + 3 * 2 ^ 56 + 3 * 2 ^ 43 + 10 * 2 ^ 5 + 5

-- A local object of two references and three other words, mutable cyclic
abbrev order_header : ℕ
order_header = 2 ^ 61 + 2 * 2 ^ 59 + 3 * 2 ^ 56 + 2 ^ 47 + 3 * 2 ^ 43 + 3 * 2 ^ 16 + 2

-- A local array of 1000 bytes
abbrev bytes_header : ℕ
bytes_header = 1000

make_header-Reads_example :
    Reads 0 (2 ^ 61) Layout.mixed_bitmap (3 * 2 ^ 56) 3 (10 * 2 ^ 5 + 5) bitmap_header
unfolding make_header
make_header-Reads_example =
    make_header-Reads 0 (2 ^ 61) Layout.mixed_bitmap (3 * 2 ^ 56) 3 (10 * 2 ^ 5 + 5) (omega arith)
      refl (omega arith) refl

mono_length-make_mono_payload_example : Header.mono_length bytes_header ≡ some 1000
unfolding Header.make_mono_payload Header.payload Header.is_mono Header.is_mono_imm
mono_length-make_mono_payload_example = mono_length-make_mono_payload bytes_header 1000 refl refl

order_counts_example :
    (Header.order_ptr_count order_header ≡ some 2)
    × (Header.order_imm_count order_header ≡ some 3)
    × (Header.order_length order_header ≡ some 5)
unfolding make_order_payload payload Header.is_mixed_order
order_counts_example = order_counts order_header 2 3 refl refl

object_length-total_example : (n : ℕ) × (Header.object_length order_header ≡ some n) × (n < 2 ^ 32)
object_length-total_example = object_length-total order_header

total_bytes-exact_example :
    (Header.size_bytes order_header ≡ some 40) × (Header.total_bytes order_header ≡ some 64)
unfolding Header.object_length Header.unit_shift Header.is_cyclic_mutable Header.order_length
    payload Header.is_mixed_order
total_bytes-exact_example = total_bytes-exact order_header 5 refl
