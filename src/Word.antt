-- ===== src/Word.antt =====
-- Machine words of C as native numbers: `uint64_t` and `uint32_t` are kept below their modulus by
-- a written `%`, shifts are `*` and `/` by a power of two, and the bit operators are the native
-- ones.
pub mod Bits
use syli.Prelude.{ℕ, ◌+◌, ◌-◌, ◌*◌, ◌/◌, ◌%◌, ◌^◌, bit_and}

abbrev pub word_mod : ℕ
word_mod = 2 ^ 64

abbrev pub u64 : ℕ → ℕ
u64 n = n % 2 ^ 64

abbrev pub u32 : ℕ → ℕ
u32 n = n % 2 ^ 32

-- `a - b` on `uint64_t`
abbrev pub sub64 : ℕ → ℕ → ℕ
sub64 a b = (a + 2 ^ 64 - b) % 2 ^ 64

infixl 75 ◌<<<◌ ◌>>>◌
abbrev pub ◌<<<◌ : ℕ → ℕ → ℕ
x <<< k = x * 2 ^ k % 2 ^ 64

abbrev pub ◌>>>◌ : ℕ → ℕ → ℕ
x >>> k = x / 2 ^ k

-- `~m` on `uint64_t`, at a mask `m` below `2 ^ 64`
abbrev pub not64 : ℕ → ℕ
not64 m = 2 ^ 64 - 1 - m
