-- ===== src/Api/Release.antt =====
-- `release` of an owned pointer to a live local object, at every count and layout.
use syli.Prelude.{
  arith, ℕ, ◌+◌, ◌%◌, ◌^◌, ◌≡◌, inl, inr, Bool-cases, true, false, some, none, ◌==◌, if◌then◌else◌,
}
use syli.Header
use syli.Meta
use syli.State.{Block, State}
use syli.State.Monad.{ok, update}
use syli.Object
use syli.Object.Heap.{
  IsLocal, with_meta, load-ok, load_object-ok, update-at, free-ok, update-update, modify_meta-ok,
  pointer_to-Tagged,
}
use syli.Gc
use syli.Stack
use syli.Api.{object_decr, object_decr_local, object_dead, ownership_release}
use syli.Api.Ownership.{release-object_decr}

-- The meta word after one reference is dropped
abbrev pub dropped : ℕ → ℕ
dropped m = Meta.decr_n m 1

-- An object without pointers is freed at once.
abbrev pub freed : State → ℕ → State
freed s o = record s {
  heap = update s.heap o none;
  total_objects_freed = (s.total_objects_freed + 1) % 2 ^ 64;
}

-- Any other waits for its children to be released; a mutable cyclic one is marked.
abbrev pub waiting : State → ℕ → Block → State
waiting s o b = record s {
  heap = update s.heap o (
      some (record b {
        meta =
            if Header.is_cyclic_mutable b.header
            then Meta.set_mark s.tracing_current_bit_mark (dropped b.meta)
            else dropped b.meta;
      }));
  releasing_waitlist = Stack.push (o + 1) s.releasing_waitlist;
}

abbrev pub released : State → ℕ → Block → State
released s o b =
    if Meta.refcount (dropped b.meta) == 0
    then (if Header.is_mono_imm b.header then freed s o else waiting s o b)
    else with_meta s o b (dropped b.meta)

module _ (s : State) {o : ℕ} {b : Block} (l : IsLocal s.heap o b) where
  counted : Object.is_counted b.header ≡ true
  unfolding Object.is_counted
  counted = rw l.zone

  -- The state and the block after the count has gone down
  abbrev s₁ : State
  s₁ = with_meta s o b (dropped b.meta)

  held : s₁.heap o ≡ some (record b { meta = dropped b.meta })
  held = update-at s.heap o _

  dead-free : Header.is_mono_imm b.header ≡ true → object_dead o (o + 1) s₁ ≡ ok tt (freed s o)
  unfolding object_dead
  dead-free imm =
      let s₂ = record s₁ { total_objects_freed = (s.total_objects_freed + 1) % 2 ^ 64 } in
      rw (load-ok s₁ o held, imm, free-ok s₂ o held, update-update)

  dead-wait :
      Header.is_mono_imm b.header ≡ false
      → (Meta.refcount (dropped b.meta) == 0) ≡ true
      → object_dead o (o + 1) s₁ ≡ ok tt (waiting s o b)
  unfolding object_dead Gc.releasing_worklist_push Object.refcount Gc.mark_tag_object
  dead-wait imm none_left =
      let t = pointer_to-Tagged true l.object in
      rw
        (
          load-ok s₁ o held,
          imm,
          t.untagged,
          load_object-ok s₁ o l.object.not_null held,
          counted,
          none_left,
          load-ok s₁ o held,
        )
        (elim (Bool-cases (Header.is_cyclic_mutable b.header)) [
          | inl cyclic ↦ rw (cyclic, modify_meta-ok s₁ o _ l.object.not_null held, update-update)
          | inr plain ↦ rw plain
        ])

  refcount-s₁ : Object.refcount o s₁ ≡ ok (Meta.refcount (dropped b.meta)) s₁
  unfolding Object.refcount
  refcount-s₁ = rw (load_object-ok s₁ o l.object.not_null held, counted)

  decr_local_lem : object_decr_local o (o + 1) s ≡ ok tt (released s o b)
  unfolding object_decr_local Meta.decr_n
  decr_local_lem =
      rw (modify_meta-ok s o _ l.object.not_null l.object.holds, refcount-s₁)
        (elim (Bool-cases (Meta.refcount (dropped b.meta) == 0)) [
          | inl none_left ↦ rw none_left (elim (Bool-cases (Header.is_mono_imm b.header)) [
            | inl imm ↦ rw imm (dead-free imm)
            | inr refs ↦ rw refs (dead-wait refs none_left)
          ])
          | inr some_left ↦ rw some_left
        ])

  -- `release` of the owned pointer drops one reference. While others are left the count goes down;
  -- with the last one an object without pointers is freed and counted as freed, and any other is
  -- queued for its children to be released, marked if it is mutable cyclic.
  pub release_lem : ownership_release (o + 1) s ≡ ok tt (released s o b)
  unfolding object_decr
  release_lem =
      let real : (o == 0) ≡ false = ground (arith, l.object.not_null) in
      rw (release-object_decr s l, real, load-ok s o l.object.holds, l.zone) decr_local_lem
