-- ===== src/Roots/Bytes.antt =====
-- Segments of a list of bytes, and what the little-endian reads of runtime/src/syli_state_gc_roots.c
-- give on them.
use mathlib.Core.List.{append-nil, append_assoc}
use syli.Prelude.{
  ℕ, zero, suc, ◌+◌, ◌/◌, ◌%◌, ◌^◌, ◌<◌, ◌≡◌, refl, sym, ap, ◌∙◌, some, List, [], ◌∷◌, ◌++◌,
  get_elem?, length, length-append, arith,
}
use syli.Roots.Section.{read_le}
use syli.Roots.Format.{le_bytes}

-- `segment` stands in `bytes` from the position `i`.
pub record At (bytes : List ℕ) (i : ℕ) (segment : List ℕ) : Type 0 where
  before : List ℕ
  behind : List ℕ
  split : bytes ≡ before ++ (segment ++ behind)
  position : i ≡ length before

module _ {bytes : List ℕ} {i : ℕ} where
  pub At-front : (a b : List ℕ) → At bytes i (a ++ b) → At bytes i a
  At-front a b at = record {
    before = at.before;
    behind = b ++ at.behind;
    split = at.split ∙ ap (λ rest. at.before ++ rest) (append_assoc a b at.behind);
    position = at.position;
  }

  pub At-back : (a b : List ℕ) {j : ℕ} → j ≡ i + length a → At bytes i (a ++ b) → At bytes j b
  At-back a b e at = record {
    before = at.before ++ a;
    behind = at.behind;
    split =
        at.split
        ∙ ap (λ rest. at.before ++ rest) (append_assoc a b at.behind)
        ∙ sym (append_assoc at.before a (b ++ at.behind));
    position = omega (arith, e, at.position, length-append at.before a);
  }

pub whole-At : (bytes : List ℕ) → At bytes 0 bytes
whole-At bytes = record {
  before = [];
  behind = [];
  split = sym (append-nil bytes);
  position = refl;
}

get_elem?-append_length :
    {A : Type 0} (before : List A) (a : A) (behind : List A)
    → get_elem? (before ++ (a ∷ behind)) (length before) ≡ some a
get_elem?-append_length [] a behind = refl
get_elem?-append_length (x ∷ before) a behind = get_elem?-append_length before a behind

get_elem?-At :
    {bytes : List ℕ} {i : ℕ} (b : ℕ) (segment : List ℕ)
    → At bytes i (b ∷ segment)
    → get_elem? bytes i ≡ some b
get_elem?-At b segment at =
    rw (at.split, at.position) (get_elem?-append_length at.before b (segment ++ at.behind))

pub length-le_bytes : (w v : ℕ) → length (le_bytes w v) ≡ w
length-le_bytes zero v = refl
length-le_bytes (suc w) v = ap suc (length-le_bytes w (v / 256))

pub read_le-le_bytes :
    (w v : ℕ) {bytes : List ℕ} {i : ℕ}
    → v < 256 ^ w
    → At bytes i (le_bytes w v)
    → read_le w bytes i ≡ some v
unfolding read_le
read_le-le_bytes zero v h at = ap some (omega arith)
read_le-le_bytes (suc w) v h at =
    rw
      (
        get_elem?-At (v % 256) (le_bytes w (v / 256)) at,
        read_le-le_bytes w (v / 256) (omega (arith, h))
            (At-back (v % 256 ∷ []) (le_bytes w (v / 256)) refl at),
      )
      (ap some (omega arith))
