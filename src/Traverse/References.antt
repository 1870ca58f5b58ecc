-- ===== src/Traverse/References.antt =====
-- The references of an object, by its layout, and that tracing walks over them in order.
use syli.Prelude.{
  Bool-cases, inl, inr, ℕ, zero, suc, ◌+◌, ◌<◌, ◌≤◌, ◌≡◌, refl, sym, ap, ◌∙◌, Bool, none, some,
  List, [], ◌∷◌, get_elem?, ◌==◌, if◌then◌else◌, arith,
}
use syli.Pointer
use syli.State.{State}
use syli.State.Monad.{M, Result, ok, fault, assert_failed, pure, and_then}
use syli.Object
use syli.Object.Heap.{load-ok}
use syli.Gc
use syli.Tracing.{push_roots}
use syli.Traverse.{visit_field, each_field}
use syli.Traverse.Fields.{FieldsAt, ok-state, tracing_worklist_push-FieldsAt}

-- The words of `value` from `i` on that are references
unfoldable pub references : (is_ref : ℕ → Bool) → (value : List ℕ) → (left i : ℕ) → List ℕ
references is_ref value zero i = []
references is_ref value (suc left) i =
    let rest = references is_ref value left (i + 1) in
    if is_ref i then (elim (get_elem? value i) [ none ↦ rest | some v ↦ v ∷ rest ]) else rest

and_then-cong :
    {A B : Type 0} (r : Result A) (k l : A → M B)
    → ((a : A) (t : State) → r ≡ ok a t → k a t ≡ l a t)
    → and_then r k ≡ and_then r l
and_then-cong (ok a t) k l h = h a t refl
and_then-cong fault k l h = refl
and_then-cong assert_failed k l h = refl

-- What a field is acted on for, a root is pushed for.
visit_field-push :
    (v : ℕ)
    → visit_field Gc.tracing_worklist_push v
      ≡ (if v == 0 then pure tt else Gc.tracing_worklist_push v)
unfolding visit_field Gc.tracing_worklist_push
visit_field-push v = elim (Bool-cases (v == 0)) [
  | inl null ↦ rw null refl
  | inr real ↦ elim (Bool-cases (Pointer.is_own_ref v)) [
    | inl owned ↦ rw (real, owned) refl
    | inr borrowed ↦ rw (real, borrowed) refl
  ]
]

pushed-FieldsAt :
    (o header : ℕ) (value : List ℕ) (v : ℕ) (s t : State) {a : Unit {0}}
    → FieldsAt o header value s
    → (if v == 0 then pure tt else Gc.tracing_worklist_push v) s ≡ ok a t
    → FieldsAt o header value t
pushed-FieldsAt o header value v s t at_o h = elim (Bool-cases (v == 0)) [
  | inl null ↦ rw (sym (ok-state (rw null at h))) at_o
  | inr real ↦ tracing_worklist_push-FieldsAt o header value v s t at_o (rw real at h)
]

-- The whole of the fields from `i` is there.
abbrev pub AllThere : (value : List ℕ) → (left i : ℕ) → Type 0
AllThere value left i = (j : ℕ) → i ≤ j → j < i + left → (v : ℕ) × (get_elem? value j ≡ some v)

pub each_field-push_roots :
    (is_ref : ℕ → Bool) (o header : ℕ) (value : List ℕ) (left i : ℕ) (s : State)
    → FieldsAt o header value s
    → AllThere value left i
    → each_field Gc.tracing_worklist_push is_ref o left i s
      ≡ push_roots (references is_ref value left i) s
unfolding each_field references push_roots Object.get_value
each_field-push_roots is_ref o header value zero i s at_o there = refl
each_field-push_roots is_ref o header value (suc left) i s at_o there =
    let rest : AllThere value left (i + 1) = λ j from to. there j (omega arith) (omega arith) in
    elim (Bool-cases (is_ref i)) [
      | inr skipped ↦
          rw skipped (each_field-push_roots is_ref o header value left (i + 1) s at_o rest)
      | inl is ↦
          let (v, found) = there i (omega arith) (omega arith) in
          let here : get_elem? at_o.block.value i ≡ some v =
            ap (λ x. get_elem? x i) at_o.fields ∙ found in
          rw (is, found, load-ok s o at_o.held, here, visit_field-push v)
            (and_then-cong ((if v == 0 then pure tt else Gc.tracing_worklist_push v) s)
              (λ a. each_field Gc.tracing_worklist_push is_ref o left (i + 1))
              (λ a. push_roots (references is_ref value left (i + 1)))
              (λ a t pushed.
                each_field-push_roots is_ref o header value left (i + 1) t
                  (pushed-FieldsAt o header value v s t at_o pushed) rest))
    ]
