-- ===== src/Tracing/Colours/Paint.antt =====
-- Another meta word in one object: the objects in use stay so, and no other one is marked by it.
use mathlib.Core.Path.{ap₂, subst}
use syli.Prelude.{
  ◌*◌, ℕ, ◌^◌, ◌<◌, ◌≡◌, ◌≢◌, sym, ap, ◌∙◌, true, some, Bool-cases, inl, inr, ◌⊎◌, ◌==◌, ==_refl,
  arith,
}
use syli.Prelude.Options.{some-inj}
use syli.Meta
use syli.Meta.{waiting_remove}
use syli.Meta.Count.{set_mark_lem}
use syli.State.{Block, State}
use syli.State.Monad.{update}
use syli.Object.Heap.{update-at}
use syli.Gc.Candidates.{update-other}
use syli.Tracing.Colours.{Graph, Alive, has_mark, is_marked}

-- `u` is `s` with the meta word `m` in the object `b` at `o`, up to what the marking does not read.
pub record Painted (s u : State) (o : ℕ) (b : Block) (m : ℕ) : Type 0 where
  pub before : s.heap o ≡ some b
  pub heap : u.heap ≡ update s.heap o (some (record b { meta = m }))
  pub bit_same : u.tracing_current_bit_mark ≡ s.tracing_current_bit_mark
  pub count_same : Meta.refcount m ≡ Meta.refcount b.meta
  pub stays_same : Meta.has_flags m waiting_remove ≡ Meta.has_flags b.meta waiting_remove
  pub mark :
      (Meta.mark_tag m ≡ Meta.mark_tag b.meta) ⊎ (Meta.mark_tag m ≡ s.tracing_current_bit_mark)
  pub fits : m < 2 ^ 64

-- What setting the mark to `k` does to the meta word `m`
abbrev pub MarkOf : (m k : ℕ) → Type 0
MarkOf m k =
    (Meta.mark_tag (Meta.set_mark k m) ≡ k)
    × (Meta.refcount (Meta.set_mark k m) ≡ Meta.refcount m)
    × ((f : Meta.MetaFlag) → Meta.has_flags (Meta.set_mark k m) f ≡ Meta.has_flags m f)
    × (Meta.set_mark k m < 2 ^ 64)

pub set_mark-MarkOf : (bit k m : ℕ) → m < 2 ^ 64 → bit < 2 → k ≡ bit * 2 ^ 63 → MarkOf m k
set_mark-MarkOf bit k m fits bit_fits e =
    subst (MarkOf m) (sym e) (set_mark_lem bit m fits bit_fits)

pub block-marked :
    (s : State) (o : ℕ) {b : Block}
    → s.heap o ≡ some b
    → is_marked s o ≡ (Meta.mark_tag b.meta == s.tracing_current_bit_mark)
block-marked s o h = ap (has_mark s.tracing_current_bit_mark) h

module _ {s u : State} {o : ℕ} {b : Block} {m : ℕ} (paint : Painted s u o b m) where
  open paint use {before, heap, bit_same, count_same, stays_same, mark, fits}

  pub painted-at : u.heap o ≡ some (record b { meta = m })
  painted-at = ap (λ h. h o) heap ∙ update-at s.heap o (some (record b { meta = m }))

  pub painted-other : (q : ℕ) → o ≢ q → u.heap q ≡ s.heap q
  painted-other q e = ap (λ h. h q) heap ∙ update-other s.heap o (some (record b { meta = m })) q e

  pub painted-Alive : (g : Graph) (q : ℕ) → Alive g s q → Alive g u q
  painted-Alive g q a = elim (Bool-cases (o == q)) [
    | inl here ↦
        let at_q : o ≡ q = ground arith in
        let blocks : b ≡ a.block = some-inj (sym before ∙ ap s.heap at_q ∙ a.held) in
        record {
          block = record b { meta = m };
          held = ap u.heap (sym at_q) ∙ painted-at;
          headed = ap (λ (x : Block). x.header) blocks ∙ a.headed;
          fields = ap (λ (x : Block). x.value) blocks ∙ a.fields;
          referred =
              ap (λ n. n == 0) (count_same ∙ ap (λ (x : Block). Meta.refcount x.meta) blocks)
              ∙ a.referred;
          stays =
              stays_same
              ∙ ap (λ (x : Block). Meta.has_flags x.meta waiting_remove) blocks
              ∙ a.stays;
          fits = fits;
        }
    | inr elsewhere ↦ record {
      block = a.block;
      held = painted-other q (λ e. ground arith) ∙ a.held;
      headed = a.headed;
      fields = a.fields;
      referred = a.referred;
      stays = a.stays;
      fits = a.fits;
    }
  ]

  pub painted-same : (q : ℕ) → o ≢ q → is_marked u q ≡ is_marked s q
  painted-same q e = ap₂ has_mark bit_same (painted-other q e)

  at-marked : is_marked u o ≡ (Meta.mark_tag m == s.tracing_current_bit_mark)
  at-marked = block-marked u o painted-at ∙ ap (λ c. Meta.mark_tag m == c) bit_same

  pub painted-kept :
      Meta.mark_tag m ≡ Meta.mark_tag b.meta → (q : ℕ) → is_marked u q ≡ is_marked s q
  painted-kept e q = elim (Bool-cases (o == q)) [
    | inl here ↦
        let at_q : o ≡ q = ground arith in
        ap (is_marked u) (sym at_q)
        ∙ at-marked
        ∙ ap (λ t. t == s.tracing_current_bit_mark) e
        ∙ sym (block-marked s o before)
        ∙ ap (is_marked s) at_q
    | inr elsewhere ↦ painted-same q (λ e. ground arith)
  ]

  pub painted-marks : Meta.mark_tag m ≡ s.tracing_current_bit_mark → is_marked u o ≡ true
  painted-marks e =
      at-marked ∙ ap (λ t. t == s.tracing_current_bit_mark) e ∙ ==_refl s.tracing_current_bit_mark

  -- A marked object stays so.
  pub painted-marked : (q : ℕ) → is_marked s q ≡ true → is_marked u q ≡ true
  painted-marked q h = elim mark [
    | inl same ↦ painted-kept same q ∙ h
    | inr set ↦ elim (Bool-cases (o == q)) [
      | inl here ↦
          let at_q : o ≡ q = ground arith in ap (is_marked u) (sym at_q) ∙ painted-marks set
      | inr elsewhere ↦ painted-same q (λ e. ground arith) ∙ h
    ]
  ]
