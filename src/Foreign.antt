-- ===== src/Foreign.antt =====
-- runtime/src/syli_foreign_primitives.c: the strings of the language. What is printed is the
-- result, as bytes. The words of an object are little-endian.
pub mod Literal
pub mod Bytes
pub mod RoundTrip
pub mod Report
mod Tests
use mathlib.Core.Option
use syli.Prelude.{
  ℕ, zero, suc, ◌+◌, ◌-◌, ◌*◌, ◌/◌, ◌%◌, ◌^◌, Option, none, some, List, [], ◌∷◌, get_elem?, ltb,
}
use syli.Word.{u64}
use syli.Header
use syli.Pointer
use syli.State.Monad.{M, pure, ◌>>=◌, ◌>>◌, assert, asserted, or_fault, load_object}
use syli.Object

-- `data[k]`, of the words `data`
unfoldable pub byte_at : (words : List ℕ) → ℕ → Option ℕ
byte_at words k = Option.map (λ word. word / 256 ^ (k % 8) % 256) (get_elem? words (k / 8))

-- `left` bytes from the position `k`
unfoldable pub read_bytes : (words : List ℕ) → (left k : ℕ) → Option (List ℕ)
read_bytes words zero k = some []
read_bytes words (suc left) k =
    Option.bind (byte_at words k)
      (λ b. Option.map (λ rest. b ∷ rest) (read_bytes words left (k + 1)))

unfoldable pub string_bytes_length : ℕ → M ℕ
string_bytes_length o = do
  b ← load_object o
  assert (Header.is_mono_imm b.header)
  words ← asserted (Header.mono_length b.header)
  let word_bytes = u64 (words * 8)
  assert (ltb 0 word_bytes)
  value ← Object.object_data o
  marker ← or_fault (byte_at value (word_bytes - 1))
  assert (ltb marker 8)
  pure (word_bytes - 1 - marker)

unfoldable pub print_string : ℕ → M (List ℕ)
print_string ptr = do
  value ← Object.object_data (Pointer.untag ptr)
  len ← string_bytes_length (Pointer.untag ptr)
  or_fault (read_bytes value len 0)
