-- ===== src/Foreign/RoundTrip.antt =====
-- A string literal as the compiler lays it out, read by the runtime.
use mathlib.Core.Option
use syli.Prelude.{
  ℕ, zero, suc, ◌+◌, ◌-◌, ◌*◌, ◌%◌, ◌^◌, ◌<◌, ◌≤◌, ◌≡◌, ◌≢◌, refl, ap, ◌∙◌, some, List, [], ◌∷◌,
  ◌++◌, length, get_elem?, replicate, set, length-append, length-set, length-replicate,
  get_elem?-set_self, get_elem?-set_ne, true, ltb, arith,
}
use syli.Word.{u64}
use syli.Word.Bits.{bit_or-fields, bit_and-low, bit_and-field}
use syli.Header
use syli.Header.Zone
use syli.Pointer
use syli.Pointer.Tags.{untag-eq}
use syli.State.{State}
use syli.State.Monad.{ok}
use syli.Object
use syli.Object.Heap.{load_object-ok}
use syli.Foreign.{byte_at, read_bytes, string_bytes_length, print_string}
use syli.Foreign.Literal.{
  string_word_count, string_padded_bytes, static_string_header, string_bytes, pack,
  string_object_init,
}
use syli.Foreign.Bytes.{AreBytes, byte_at-pack}

AreBytes-append : (xs ys : List ℕ) → AreBytes xs → AreBytes ys → AreBytes (xs ++ ys)
AreBytes-append [] ys hx hy = hy
AreBytes-append (x ∷ xs) ys (h, hx) hy = (h, AreBytes-append xs ys hx hy)

AreBytes-replicate : (n : ℕ) → AreBytes (replicate n 0)
AreBytes-replicate zero = tt
AreBytes-replicate (suc n) = (omega arith, AreBytes-replicate n)

AreBytes-set : (xs : List ℕ) (i v : ℕ) → v < 256 → AreBytes xs → AreBytes (set xs i v)
AreBytes-set [] i v small h = tt
AreBytes-set (x ∷ xs) zero v small (h, hx) = (small, hx)
AreBytes-set (x ∷ xs) (suc i) v small (h, hx) = (h, AreBytes-set xs i v small hx)

get_elem?-front :
    (xs ys : List ℕ) (i x : ℕ)
    → get_elem? xs i ≡ some x
    → (get_elem? (xs ++ ys) i ≡ some x) × (i < length xs)
get_elem?-front [] ys i x h = cc
get_elem?-front (y ∷ xs) ys zero x h = (h, omega arith)
get_elem?-front (y ∷ xs) ys (suc i) x h =
    let (found, below) = get_elem?-front xs ys i x h in (found, omega arith)

read_bytes-segment :
    (words xs : List ℕ) (k : ℕ)
    → ((i x : ℕ) → get_elem? xs i ≡ some x → byte_at words (k + i) ≡ some x)
    → read_bytes words (length xs) k ≡ some xs
unfolding read_bytes Option.bind
read_bytes-segment words [] k h = refl
read_bytes-segment words (x ∷ xs) k h =
    let here : k ≡ k + 0 = omega arith in
    let first : byte_at words k ≡ some x = ap (byte_at words) here ∙ h 0 x refl in
    let rest : read_bytes words (length xs) (k + 1) ≡ some xs =
      read_bytes-segment words xs (k + 1) (λ i y at.
        let there : k + 1 + i ≡ k + suc i = omega arith in
        ap (byte_at words) there ∙ h (suc i) y at) in
    rw (first, rest) refl

module _ (text : List ℕ) where
  padded : length text + 1 ≤ string_padded_bytes (length text)
  unfolding string_padded_bytes string_word_count
  padded = omega arith

  unpadded : string_padded_bytes (length text) ≤ length text + 8
  unfolding string_padded_bytes string_word_count
  unpadded = omega arith

  length-string_bytes : length (string_bytes text) ≡ string_padded_bytes (length text)
  unfolding string_bytes
  length-string_bytes =
      let total = string_padded_bytes (length text) in
      let zeros : List ℕ = replicate (total - length text) 0 in
      omega (
        arith,
        length-set (text ++ zeros) (total - 1) (total - 1 - length text),
        length-append text zeros,
        length-replicate {A = ℕ} (total - length text) 0,
        padded,
      )

  string_bytes-AreBytes : AreBytes text → AreBytes (string_bytes text)
  unfolding string_bytes
  string_bytes-AreBytes h =
      AreBytes-set _ _ _ (omega (arith, unpadded)) (AreBytes-append text _ h (AreBytes-replicate _))

  string_bytes-content :
      (i x : ℕ) → get_elem? text i ≡ some x → get_elem? (string_bytes text) i ≡ some x
  unfolding string_bytes
  string_bytes-content i x h =
      let (found, below) =
        get_elem?-front text (replicate (string_padded_bytes (length text) - length text) 0) i x
          h in
      get_elem?-set_ne _ (string_padded_bytes (length text) - 1) i _
        (λ e. absurd (omega (arith, e, below, padded)))
      ∙ found

  string_bytes-marker :
      let total = string_padded_bytes (length text) in
      get_elem? (string_bytes text) (total - 1) ≡ some (total - 1 - length text)
  unfolding string_bytes
  string_bytes-marker =
      let total = string_padded_bytes (length text) in
      let zeros : List ℕ = replicate (total - length text) 0 in
      get_elem?-set_self (text ++ zeros) (total - 1) (total - 1 - length text) (
        omega (
          arith,
          length-append text zeros,
          length-replicate {A = ℕ} (total - length text) 0,
          padded,
        ))

  byte_at-string :
      (k x : ℕ)
      → AreBytes text
      → get_elem? (string_bytes text) k ≡ some x
      → byte_at (pack (string_bytes text)) k ≡ some x
  unfolding string_padded_bytes
  byte_at-string k x are h =
      byte_at-pack (string_word_count (length text)) (string_bytes text) k x
        (string_bytes-AreBytes are) (omega (arith, length-string_bytes)) h

  -- The header that the compiler writes
  module _ (small : string_word_count (length text) < 2 ^ 32) where
    words-padded : u64 (string_word_count (length text) * 8) ≡ string_padded_bytes (length text)
    unfolding string_padded_bytes
    words-padded = omega arith

    header-eq : static_string_header (length text) ≡ 2 ^ 63 + string_word_count (length text)
    unfolding static_string_header
    header-eq =
        let n = string_word_count (length text) in
        let whole : u64 n ≡ n = omega arith in rw whole (bit_or-fields 63 1 n (omega arith))

    header-reads :
        (Header.is_mono_imm (static_string_header (length text)) ≡ true)
        × (Header.mono_length (static_string_header (length text))
            ≡ some (string_word_count (length text)))
        × (Header.get_zone (static_string_header (length text)) ≡ Zone.static)
    unfolding Header.is_mono_imm Header.mono_length Header.is_mono Header.payload Header.get_zone
    header-reads =
        let n = string_word_count (length text) in
        let w = 2 ^ 63 + n in
        rw header-eq (
          ground (
            arith,
            bit_and-field 59 2 (2 ^ 63 + n),
            bit_and-low 32 (2 ^ 63 + n),
            bit_and-field 62 2 (2 ^ 63 + n),
          ))

module _ (s : State) (o : ℕ) (text : List ℕ) (are : AreBytes text)
    (small : string_word_count (length text) < 2 ^ 32) (real : o ≢ 0)
    (held : s.heap o ≡ some (string_object_init text)) where
  data_lem : Object.object_data o s ≡ ok (pack (string_bytes text)) s
  unfolding Object.object_data string_object_init
  data_lem =
      let (_, _, zone) = header-reads text small in rw (load_object-ok s o real held, zone) refl

  -- Of a literal of fewer than `2 ^ 32` words, the length is read back from the marker.
  pub string_bytes_length_lem : string_bytes_length o s ≡ ok (length text) s
  unfolding string_bytes_length string_object_init
  string_bytes_length_lem =
      let n = string_word_count (length text) in
      let total = string_padded_bytes (length text) in
      let (imm, len, _) = header-reads text small in
      let marker =
        byte_at-string text (total - 1) (total - 1 - length text) are (string_bytes-marker text) in
      let size : u64 (n * 8) ≡ total = words-padded text small in
      let positive : ltb 0 total ≡ true = ground (arith, padded text) in
      let low : ltb (total - 1 - length text) 8 ≡ true =
        ground (arith, unpadded text, padded text) in
      rw (load_object-ok s o real held, imm, len, size, positive, data_lem, marker, low)
        (ap (λ len. ok len s) (omega (arith, padded text)))

-- What the compiler lays out for a string literal, at an aligned address that is not null and of
-- fewer than `2 ^ 32` words, the runtime prints as the bytes of the literal, through the pointer
-- of a permanent borrow, and changes nothing.
pub print_string-string_object_init :
    (s : State) (o : ℕ) (text : List ℕ)
    → AreBytes text
    → string_word_count (length text) < 2 ^ 32
    → o ≢ 0
    → o % 8 ≡ 0
    → o + 2 < 2 ^ 64
    → s.heap o ≡ some (string_object_init text)
    → print_string (o + 2) s ≡ ok text s
unfolding print_string
print_string-string_object_init s o text are small real aligned fits held =
    let untagged : Pointer.untag (o + 2) ≡ o = omega (arith, untag-eq (o + 2) fits) in
    let whole = read_bytes-segment (pack (string_bytes text)) text 0 (λ i x at.
      let here : 0 + i ≡ i = omega arith in
      ap (byte_at (pack (string_bytes text))) here
      ∙ byte_at-string text i x are (string_bytes-content text i x at)) in
    rw
      (
        untagged,
        data_lem s o text are small real held,
        string_bytes_length_lem s o text are small real held,
        whole,
      )
      refl
