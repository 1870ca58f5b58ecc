-- ===== src/Tracing/Colours/Written.antt =====
-- A field of an object in use written: the graph with the word in its place, and the state.
use syli.Prelude.{
  ℕ, zero, suc, ◌+◌, ◌<◌, ◌≡◌, ◌≢◌, refl, sym, ap, ◌∙◌, Bool, Bool-cases, Option-cases, inl, inr,
  true, false, none, some, List, [], ◌∷◌, All, get_elem?, set, length, length-set, ltb, ◌==◌,
  if◌then◌else◌, arith,
}
use syli.Prelude.Options.{some-inj}
use syli.Meta
use syli.Meta.{tracing}
use syli.State.{Block, State}
use syli.State.Monad
use syli.State.Monad.{ok, update}
use syli.Object
use syli.Object.Heap.{load-ok, update-at}
use syli.Gc.Candidates.{update-other}
use syli.Traverse.References.{references}
use syli.Tracing.Mark.{has_references, field_count, is_reference}
use syli.Tracing.Queue.{Listed}
use syli.Tracing.Colours.{Graph, Closed, Alive, has_mark, is_marked, words, words_of}
use syli.Tracing.Colours.Push.{Owns}

get_elem?-set :
    (xs : List ℕ) (i j : ℕ) (x : ℕ)
    → get_elem? (set xs i x) j
      ≡ (elim (get_elem? xs j) [ none ↦ none | some y ↦ some (if i == j then x else y) ])
get_elem?-set [] i j x = refl
get_elem?-set (y ∷ ys) zero zero x = refl
get_elem?-set (y ∷ ys) zero (suc j) x = elim (Option-cases (get_elem? ys j)) [
  | inl e ↦ rw e refl
  | inr (z, e) ↦ rw e (ground arith)
]
get_elem?-set (y ∷ ys) (suc i) zero x = ground arith
get_elem?-set (y ∷ ys) (suc i) (suc j) x = elim (Option-cases (get_elem? ys j)) [
  | inl e ↦ get_elem?-set ys i j x ∙ rw e refl
  | inr (z, e) ↦ get_elem?-set ys i j x ∙ rw e (ground arith)
]

of_either : (P : ℕ → Type 0) (b : Bool) {x y : ℕ} → P x → P y → P (if b then x else y)
of_either P true px py = px
of_either P false px py = py

references-set :
    (P : ℕ → Type 0) (is_ref : ℕ → Bool) (v : List ℕ) (i x left j : ℕ)
    → P x
    → All P (references is_ref v left j)
    → All P (references is_ref (set v i x) left j)
unfolding references
references-set P is_ref v i x zero j px ps = tt
references-set P is_ref v i x (suc left) j px ps = elim (Bool-cases (is_ref j)) [
  | inr skipped ↦ rw skipped (references-set P is_ref v i x left (j + 1) px (rw skipped at ps))
  | inl is ↦ elim (Option-cases (get_elem? v j)) [
    | inl e ↦
        rw (is, get_elem?-set v i j x, e)
          (references-set P is_ref v i x left (j + 1) px (rw (is, e) at ps))
    | inr (y, e) ↦
        let both : P y × All P (references is_ref v left (j + 1)) = rw (is, e) at ps in
        rw (is, get_elem?-set v i j x, e)
          (of_either P (i == j) px both.0, references-set P is_ref v i x left (j + 1) px both.1)
  ]
]

-- The words of an object with one field written are its old ones, and the new one.
pub words_of-set :
    (P : ℕ → Type 0) (header : ℕ) (v : List ℕ) (i x : ℕ)
    → P x
    → All P (words_of header v)
    → All P (words_of header (set v i x))
words_of-set P header v i x px ps = elim (Bool-cases (has_references header)) [
  | inr leaf ↦ rw leaf tt
  | inl has ↦ elim (Option-cases (field_count header)) [
    | inl none_given ↦ rw (has, none_given) tt
    | inr (n, count) ↦
        rw (has, count)
          (references-set P (is_reference header) v i x n 0 px (rw (has, count) at ps))
  ]
]

abbrev pub written : Graph → (o i p : ℕ) → Graph
written g o i p = record g { value = λ q. if o == q then set (g.value o) i p else g.value q }

-- The state with the field of an object written
abbrev pub with_field : State → ℕ → Block → (i p : ℕ) → State
with_field s o b i p = record s {
  heap = update s.heap o (some (record b { value = set b.value i p }));
}

module _ (g : Graph) (o i p : ℕ) where
  words-same : (q : ℕ) → (o == q) ≡ false → words (written g o i p) q ≡ words g q
  words-same q other = ap (λ v. words_of (g.header q) v) (rw other refl)

  words-here :
      (q : ℕ)
      → (o == q) ≡ true
      → words (written g o i p) q ≡ words_of (g.header q) (set (g.value q) i p)
  words-here q same =
      let at_q : o ≡ q = ground arith in
      ap (λ v. words_of (g.header q) v) (rw same (ap (λ x. set (g.value x) i p) at_q))

  -- What holds of the old words and the new one holds of all.
  pub All-written :
      (P : ℕ → Type 0) (q : ℕ) → P p → All P (words g q) → All P (words (written g o i p) q)
  All-written P q pp ps = elim (Bool-cases (o == q)) [
    | inl same ↦ rw (words-here q same) (words_of-set P (g.header q) (g.value q) i p pp ps)
    | inr other ↦ rw (words-same q other) ps
  ]

  pub All-unwritten :
      (P : ℕ → Type 0) (q : ℕ) → o ≢ q → All P (words g q) → All P (words (written g o i p) q)
  All-unwritten P q e ps = let other : (o == q) ≡ false = ground arith in rw (words-same q other) ps

  written-length : (q : ℕ) → length ((written g o i p).value q) ≡ length (g.value q)
  written-length q = elim (Bool-cases (o == q)) [
    | inl same ↦
        let at_q : o ≡ q = ground arith in
        rw same (length-set (g.value o) i p ∙ ap (λ x. length (g.value x)) at_q)
    | inr other ↦ rw other refl
  ]

  pub written-Closed : Closed g → Owns g p → Closed (written g o i p)
  written-Closed closed owns = record {
    real = closed.real;
    counted = closed.counted;
    layout = λ q k has.
        let (n, count, fits) = closed.layout q k has in
        (n, count, omega (arith, fits, written-length q));
    owns = λ q k. All-written (Owns g) q owns (closed.owns q k);
  }

module _ (g : Graph) {s : State} (o i p : ℕ) (a : Alive g s o) where
  abbrev after : State
  after = with_field s o a.block i p

  abbrev block_after : Block
  block_after = record a.block { value = set a.block.value i p }

  written-at : after.heap o ≡ some block_after
  written-at = update-at s.heap o (some block_after)

  written-other : (q : ℕ) → o ≢ q → after.heap q ≡ s.heap q
  written-other q e = update-other s.heap o (some block_after) q e

  pub set_value-ok : i < length (g.value o) → Object.set_value o i p s ≡ ok tt after
  unfolding Object.set_value Monad.store
  set_value-ok lt =
      let inside : ltb i (length a.block.value) ≡ true = ground (arith, ap length a.fields, lt) in
      rw (load-ok s o a.held, inside) refl

  pub written-marked : (q : ℕ) → is_marked after q ≡ is_marked s q
  written-marked q = elim (Bool-cases (o == q)) [
    | inl same ↦
        let at_q : o ≡ q = ground arith in
        ap (is_marked after) (sym at_q)
        ∙ ap (has_mark s.tracing_current_bit_mark) written-at
        ∙ sym (ap (has_mark s.tracing_current_bit_mark) a.held)
        ∙ ap (is_marked s) at_q
    | inr other ↦ ap (has_mark s.tracing_current_bit_mark) (written-other q (λ e. ground arith))
  ]

  pub written-Alive : (q : ℕ) → Alive g s q → Alive (written g o i p) after q
  written-Alive q d = elim (Bool-cases (o == q)) [
    | inl same ↦
        let at_q : o ≡ q = ground arith in
        record {
          block = block_after;
          held = sym (ap after.heap at_q) ∙ written-at;
          headed = a.headed ∙ ap g.header at_q;
          fields = rw same (ap (λ v. set v i p) a.fields);
          referred = a.referred;
          stays = a.stays;
          fits = a.fits;
        }
    | inr other ↦ record {
      block = d.block;
      held = written-other q (λ e. ground arith) ∙ d.held;
      headed = d.headed;
      fields = rw other d.fields;
      referred = d.referred;
      stays = d.stays;
      fits = d.fits;
    }
  ]

  pub written-Listed : Listed s → Listed after
  written-Listed listed q d there counted flagged = elim (Bool-cases (o == q)) [
    | inl same ↦
        let at_q : o ≡ q = ground arith in
        let blocks : block_after ≡ d = some-inj (sym written-at ∙ ap after.heap at_q ∙ there) in
        listed q a.block (ap s.heap (sym at_q) ∙ a.held)
          (ap (λ (x : Block). Object.is_counted x.header) blocks ∙ counted)
          (ap (λ (x : Block). Meta.has_flags x.meta tracing) blocks ∙ flagged)
    | inr other ↦ listed q d (sym (written-other q (λ e. ground arith)) ∙ there) counted flagged
  ]
