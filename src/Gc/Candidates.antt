-- ===== src/Gc/Candidates.antt =====
-- The cyclic candidates and the objects know of each other: runtime/include/syli/gc_helpers.h keeps
-- the number of a candidate in the word behind the fields of its object.
use syli.Prelude.{
  Bool-cases, inl, inr, ℕ, ◌^◌, ◌<◌, ◌≡◌, ◌≢◌, refl, sym, ap, ◌∙◌, true, false, Option, some,
  get_elem?, set, length, ltb, ◌==◌, length-set, arith,
}
use syli.Prelude.Options.{some-inj}
use syli.Header
use syli.Meta
use syli.Meta.{cyclic_candidate}
use syli.Pointer
use syli.Stack
use syli.State.{Block, Heap, State}
use syli.State.Monad.{ok, update, store}
use syli.Object
use syli.Object.Heap.{load-ok, load_object-ok}

-- A counted object of the mutable cyclic kind, with a word for the number of a candidate at `slot`
pub record HasSlot (b : Block) (slot : ℕ) : Type 0 where
  pub mutable : Header.is_cyclic_mutable b.header ≡ true
  pub counted : Object.is_counted b.header ≡ true
  pub behind : Header.object_length b.header ≡ some slot
  pub inside : slot < length b.value

-- The block of the candidate of the number `i`
pub record Numbered (b : Block) (i : ℕ) : Type 0 where
  pub slot : ℕ
  pub has_slot : HasSlot b slot
  pub number : get_elem? b.value slot ≡ some i
  pub flagged : Meta.has_flags b.meta cyclic_candidate ≡ true

-- What the heap `h` has at `o` for the candidate of the number `i`
pub record IsCandidate (h : Heap) (o i : ℕ) : Type 0 where
  pub block : Block
  pub real : o ≢ 0
  pub held : h o ≡ some block
  pub numbered : Numbered block i

-- Each candidate is an object that stores its number and has the flag, and each counted object with
-- the flag is a candidate.
pub record Registered (s : State) : Type 0 where
  pub each :
      (i p : ℕ) → Stack.at s.cyclic_candidates i ≡ some p → IsCandidate s.heap (Pointer.untag p) i
  pub every :
      (o : ℕ) (b : Block)
      → s.heap o ≡ some b
      → Object.is_counted b.header ≡ true
      → Meta.has_flags b.meta cyclic_candidate ≡ true
      → (i : ℕ) × (p : ℕ) × (Stack.at s.cyclic_candidates i ≡ some p) × (Pointer.untag p ≡ o)
  pub bounded : length s.cyclic_candidates < 2 ^ 64

pub update-other : (h : Heap) (o : ℕ) (b : Option Block) (q : ℕ) → o ≢ q → update h o b q ≡ h q
update-other h o b q e = let other : (o == q) ≡ false = ground arith in rw other refl

pub IsCandidate-other :
    {h : Heap} {q i : ℕ} (o : ℕ) (b : Option Block)
    → o ≢ q
    → IsCandidate h q i
    → IsCandidate (update h o b) q i
IsCandidate-other {h} {q} o b e c = record {
  block = c.block;
  real = c.real;
  held = update-other h o b q e ∙ c.held;
  numbered = c.numbered;
}

-- An object is the candidate of one number.
pub IsCandidate-unique : {h : Heap} {o i j : ℕ} → IsCandidate h o i → IsCandidate h o j → i ≡ j
IsCandidate-unique c d =
    let blocks : c.block ≡ d.block = some-inj (sym c.held ∙ d.held) in
    let slots : c.numbered.slot ≡ d.numbered.slot = some-inj (
      sym c.numbered.has_slot.behind
      ∙ ap (λ (b : Block). Header.object_length b.header) blocks
      ∙ d.numbered.has_slot.behind) in
    some-inj
      (sym c.numbered.number ∙ (λ x. get_elem? (blocks x).value (slots x)) ∙ d.numbered.number)

-- The object with a number stored
abbrev pub with_number : Block → (slot i : ℕ) → Block
with_number b slot i = record b { value = set b.value slot i }

pub set_candidate_index-ok :
    (s : State) (o i : ℕ) {b : Block} {slot : ℕ}
    → o ≢ 0
    → s.heap o ≡ some b
    → HasSlot b slot
    → Object.set_candidate_index o i s
      ≡ ok tt (record s { heap = update s.heap o (some (with_number b slot i)) })
unfolding Object.set_candidate_index Object.set_value store
set_candidate_index-ok s o i {b} {slot} real held h =
    let room : ltb slot (length b.value) ≡ true = ground (arith, h.inside) in
    rw (load_object-ok s o real held, h.mutable, h.counted, h.behind, load-ok s o held, room) refl

pub get_candidate_index-ok :
    (s : State) (o i : ℕ) → IsCandidate s.heap o i → Object.get_candidate_index o s ≡ ok i s
unfolding Object.get_candidate_index Object.get_value
get_candidate_index-ok s o i c =
    let h = c.numbered.has_slot in
    rw
      (
        load_object-ok s o c.real c.held,
        h.mutable,
        h.counted,
        h.behind,
        load-ok s o c.held,
        c.numbered.number,
      )
      refl

pub HasSlot-with_number :
    (b : Block) (slot i : ℕ) → HasSlot b slot → HasSlot (with_number b slot i) slot
HasSlot-with_number b slot i h = record {
  mutable = h.mutable;
  counted = h.counted;
  behind = h.behind;
  inside = omega (arith, h.inside, length-set b.value slot i);
}

pub at-lt_length : (xs : Stack.Stack ℕ) (i p : ℕ) → Stack.at xs i ≡ some p → i < length xs
at-lt_length xs i p h = elim (Bool-cases (ltb i (length xs))) [
  | inl below ↦ ground arith
  | inr past ↦ absurd (ground (arith, h, Stack.at-ge_length xs i (ground arith)))
]
