-- ===== src/Releasing/Budget.antt =====
-- What one step of releasing takes from its budget.
use syli.Prelude.{
  ℕ, ◌^◌, ◌<◌, ◌≡◌, refl, Bool, Bool-cases, Option-cases, inl, inr, true, some, List, [], ◌∷◌, ◌==◌,
  if◌then◌else◌, arith,
}
use syli.Header
use syli.Header.Payload.{bitmap_length-lt, order_ptr_count-lt, object_length-payload}
use syli.Pointer
use syli.State.{Block, State, spend}
use syli.State.Monad.{ok, pure, ◌>>=◌, ◌>>◌, assert, load_object}
use syli.State.Frame.{
  Frame, Frame-trans, Keeps, and_then-ok, pure-Keeps, bind-Keeps, then-Keeps, if-Keeps,
  assert-Keeps, load-Keeps, load_object-inv,
}
use syli.Object
use syli.Object.Frame.{decr_local-Keeps, refcount-Keeps}
use syli.Gc
use syli.Gc.Frame.{same-Frame, free_released_object-Keeps, releasing_worklist_push-Keeps}
use syli.Traverse.{each_field, walk_mono_ref, walk_mixed_bitmap, walk_mixed_order, traverse}
use syli.Traverse.Frame.{each_field-Keeps}
use syli.Releasing.{
  child_dead, child_release_object, spend_releasing, pop_releasing, release_popped,
  one_step_releasing,
}

child_dead-Keeps : (o p : ℕ) → Keeps (child_dead o p)
unfolding child_dead
child_dead-Keeps o p =
    bind-Keeps (load-Keeps o)
      (λ b. if-Keeps _ (releasing_worklist_push-Keeps p) (free_released_object-Keeps o))

child_release_object-Keeps : (p : ℕ) → Keeps (child_release_object p)
unfolding child_release_object
child_release_object-Keeps p = then-Keeps (assert-Keeps _) (
    then-Keeps (decr_local-Keeps _)
      (bind-Keeps (refcount-Keeps _) (λ count. if-Keeps _ (pure-Keeps tt) (child_dead-Keeps _ p))))

abbrev pub spent : State → ℕ → State
spent s n = record s { releasing_budget = spend s.releasing_budget n }

-- The step keeps the frame but for a charge below `2 ^ 31`.
pub record Spends (s t : State) : Type 0 where
  pub charge : ℕ
  pub small : charge < 2 ^ 31
  pub frame : Frame (spent s charge) t

-- No object has `2 ^ 31` fields.
abbrev pub Small : State → Type 0
Small s = (o : ℕ) (b : Block) → s.heap o ≡ some b → Header.payload b.header < 2 ^ 31

charged :
    (is_ref : ℕ → Bool) (o n : ℕ) (s t : State) {a : Unit {0}}
    → n < 2 ^ 31
    → each_field child_release_object is_ref o n 0 (spent s n) ≡ ok a t
    → Spends s t
charged is_ref o n s t {a} small h = record {
  charge = n;
  small = small;
  frame = each_field-Keeps child_release_object-Keeps is_ref o n 0 (spent s n) a t h;
}

module _ (o header : ℕ) (s t : State) {a : Unit {0}} where
  walk_mono_ref-Spends :
      Header.payload header < 2 ^ 31
      → Header.is_mono_ref header ≡ true
      → walk_mono_ref child_release_object spend_releasing o header s ≡ ok a t
      → Spends s t
  unfolding walk_mono_ref spend_releasing
  walk_mono_ref-Spends small layout h = elim (Option-cases (Header.object_length header)) [
    | inl e ↦ absurd (ground (arith, rw e at h))
    | inr (n, e) ↦
        charged (λ i. true) o n s t (ground (arith, object_length-payload header layout))
          (rw e at h)
  ]

  walk_mixed_bitmap-Spends :
      walk_mixed_bitmap child_release_object spend_releasing o header s ≡ ok a t → Spends s t
  unfolding walk_mixed_bitmap spend_releasing
  walk_mixed_bitmap-Spends h = elim (Option-cases (Header.bitmap_length header)) [
    | inl e ↦ absurd (ground (arith, rw e at h))
    | inr (n, e) ↦ elim (Option-cases (Header.bitmap_bits header)) [
      | inl none_left ↦ absurd (ground (arith, rw (e, none_left) at h))
      | inr (bits, e') ↦
          charged (Header.bitmap_is_ref bits) o n s t (ground (arith, bitmap_length-lt header n e))
            (rw (e, e') at h)
    ]
  ]

  walk_mixed_order-Spends :
      walk_mixed_order child_release_object spend_releasing o header s ≡ ok a t → Spends s t
  unfolding walk_mixed_order spend_releasing
  walk_mixed_order-Spends h = elim (Option-cases (Header.order_ptr_count header)) [
    | inl e ↦ absurd (ground (arith, rw e at h))
    | inr (n, e) ↦
        charged (λ i. true) o n s t (ground (arith, order_ptr_count-lt header n e)) (rw e at h)
  ]

unchanged : (s : State) → s.releasing_budget < 2 ^ 32 → Spends s s
unchanged s h = record {
  charge = 0;
  small = omega arith;
  frame = same-Frame refl refl refl (omega arith);
}

layout-Spends :
    (o header : ℕ) (s t : State) {a : Unit {0}}
    → Header.payload header < 2 ^ 31
    → s.releasing_budget < 2 ^ 32
    → (if Header.is_mono_ref header
          then walk_mono_ref child_release_object spend_releasing o header
          else if Header.is_mixed_bitmap header
          then walk_mixed_bitmap child_release_object spend_releasing o header
          else if Header.is_mixed_order header
          then walk_mixed_order child_release_object spend_releasing o header
          else pure tt)
        s
      ≡ ok a t
    → Spends s t
layout-Spends o header s t {a} small budget h = elim (Bool-cases (Header.is_mono_ref header)) [
  | inl mono ↦ walk_mono_ref-Spends o header s t small mono (rw mono at h)
  | inr not_mono ↦ elim (Bool-cases (Header.is_mixed_bitmap header)) [
    | inl bitmap ↦ walk_mixed_bitmap-Spends o header s t (rw (not_mono, bitmap) at h)
    | inr not_bitmap ↦ elim (Bool-cases (Header.is_mixed_order header)) [
      | inl order ↦ walk_mixed_order-Spends o header s t (rw (not_mono, not_bitmap, order) at h)
      | inr imm ↦
          let nothing = rw (not_mono, not_bitmap, imm) at h in
          let e : t ≡ s = ground arith in rw e (unchanged s budget)
    ]
  ]
]

traverse-Spends :
    (o : ℕ) (s t : State) {a : Unit {0}}
    → Small s
    → s.releasing_budget < 2 ^ 32
    → traverse child_release_object spend_releasing spend_releasing o s ≡ ok a t
    → Spends s t
unfolding traverse
traverse-Spends o s t small budget h =
    let (b, u, h₁, h₂) = and_then-ok (load_object o s) _ h in
    let (held, same) = load_object-inv o s u h₁ in
    layout-Spends o b.header s t (small o b held) budget (rw same at h₂)

freeing-Keeps :
    (o : ℕ)
    → Keeps (Object.refcount o >>= λ count. assert (count == 0) >> Gc.free_released_object o)
freeing-Keeps o =
    bind-Keeps (refcount-Keeps o)
      (λ count. then-Keeps (assert-Keeps _) (free_released_object-Keeps o))

release_popped-Spends :
    (p : ℕ) (s t : State) {a : Unit {0}}
    → Small s
    → s.releasing_budget < 2 ^ 32
    → release_popped p s ≡ ok a t
    → Spends s t
unfolding release_popped
release_popped-Spends p s t {a} small budget h =
    let (b, u, h₁, h₂) =
      and_then-ok
        (traverse child_release_object spend_releasing spend_releasing (Pointer.untag p) s) _ h in
    let taken = traverse-Spends (Pointer.untag p) s u small budget h₁ in
    record {
      charge = taken.charge;
      small = taken.small;
      frame = Frame-trans taken.frame (freeing-Keeps (Pointer.untag p) u a t h₂);
    }

-- A step takes one and a charge, from a budget of which some is left.
pub one_step_releasing-Spends :
    (s t : State) {a : Unit {0}} → Small s → one_step_releasing s ≡ ok a t → Spends (spent s 1) t
unfolding one_step_releasing spend_releasing pop_releasing
one_step_releasing-Spends s t {a} small h = popped s.releasing_worklist refl
  where
    popped : (ps : List ℕ) → s.releasing_worklist ≡ ps → Spends (spent s 1) t
    popped [] e = absurd (ground (arith, rw e at h))
    popped (p ∷ ps) e =
        let s₁ : State = record (spent s 1) { releasing_worklist = ps } in
        let taken = release_popped-Spends p s₁ t small (omega arith) (rw e at h) in
        record {
          charge = taken.charge;
          small = taken.small;
          frame = Frame-trans (same-Frame refl refl refl refl) taken.frame;
        }
