-- ===== src/Foreign/Literal.antt =====
-- compiler/target_llvm/gen_llvm.ml: the object that the compiler lays out for a string literal.
use syli.Prelude.{ℕ, ◌+◌, ◌-◌, ◌*◌, ◌/◌, ◌^◌, bit_or, List, [], ◌∷◌, ◌++◌, length, replicate, set}
use syli.Word.{u64}
use syli.State.{Block}

-- `Int64.shift_left 2L 62`, as an unsigned word
abbrev pub static_string_zone : ℕ
static_string_zone = 2 * 2 ^ 62

unfoldable pub string_word_count : ℕ → ℕ
string_word_count len = (len + 8) / 8

unfoldable pub string_padded_bytes : ℕ → ℕ
string_padded_bytes len = string_word_count len * 8

unfoldable pub static_string_header : ℕ → ℕ
static_string_header len = bit_or static_string_zone (u64 (string_word_count len))

-- The content, a terminator, zeros, and the marker in the last byte
unfoldable pub string_bytes : List ℕ → List ℕ
string_bytes text =
    let len = length text in
    let total = string_padded_bytes len in
    set (text ++ replicate (total - len) 0) (total - 1) (total - 1 - len)

-- The bytes as little-endian words
unfoldable pub pack : List ℕ → List ℕ
pack (a ∷ b ∷ c ∷ d ∷ e ∷ f ∷ g ∷ h ∷ bytes) =
    (a + 256 * (b + 256 * (c + 256 * (d + 256 * (e + 256 * (f + 256 * (g + 256 * h)))))))
    ∷ pack bytes
pack bytes = []

unfoldable pub string_object_init : List ℕ → Block
string_object_init text = record {
  header = static_string_header (length text);
  meta = 0;
  value = pack (string_bytes text);
  trailing = [];
}
