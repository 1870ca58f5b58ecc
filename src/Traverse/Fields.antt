-- ===== src/Traverse/Fields.antt =====
-- Queueing objects to be traced leaves the fields of every object.
use syli.Prelude.{Bool-cases, inl, inr, ℕ, ◌≡◌, sym, ap, ◌∙◌, Bool, some, List, ◌==◌, arith}
use syli.Prelude.Options.{some-inj}
use syli.Meta.{MetaFlag, tracing}
use syli.Pointer
use syli.State.{Block, State}
use syli.State.Monad.{ok, update, load_object, store}
use syli.State.Frame.{and_then-ok, load_object-inv}
use syli.Object
use syli.Object.Heap.{update-at}
use syli.Gc
use syli.Gc.Candidates.{update-other}

-- The object at `o` has the header `header` and the fields `value`.
pub record FieldsAt (o header : ℕ) (value : List ℕ) (s : State) : Type 0 where
  pub block : Block
  pub held : s.heap o ≡ some block
  pub headed : block.header ≡ header
  pub fields : block.value ≡ value

pub ok-state : {A : Type 0} {a b : A} {s t : State} → ok a s ≡ ok b t → s ≡ t
ok-state e = ground arith

module _ (o header : ℕ) (value : List ℕ) where
  has_flags-reads :
      (q : ℕ) (f : MetaFlag) (s t : State) {a : Bool} → Object.has_flags q f s ≡ ok a t → t ≡ s
  unfolding Object.has_flags
  has_flags-reads q f s t h =
      let (b, s', loaded, rest) = and_then-ok (load_object q s) _ h in
      let (_, same) = load_object-inv q s s' loaded in ground (arith, rest, same)

  pub modify_meta-FieldsAt :
      (q : ℕ) (f : ℕ → ℕ) (s t : State) {a : Unit {0}}
      → FieldsAt o header value s
      → Object.modify_meta q f s ≡ ok a t
      → FieldsAt o header value t
  unfolding Object.modify_meta store
  modify_meta-FieldsAt q f s t at_o h =
      let (b, s', loaded, rest) = and_then-ok (load_object q s) _ h in
      let (there, same) = load_object-inv q s s' loaded in
      let after : State = record s {
        heap = update s.heap q (some (record b { meta = f b.meta }));
      } in
      let is_after : t ≡ after = sym (ok-state (rw same at rest)) in
      elim (Bool-cases (q == o)) [
        | inl here ↦
            let at_q : q ≡ o = ground arith in
            let blocks : b ≡ at_o.block = some-inj (sym there ∙ ap s.heap at_q ∙ at_o.held) in
            rw is_after (record {
              block = record b { meta = f b.meta };
              held =
                  sym (ap (update s.heap q (some (record b { meta = f b.meta }))) at_q)
                  ∙ update-at s.heap q _;
              headed = ap (λ (x : Block). x.header) blocks ∙ at_o.headed;
              fields = ap (λ (x : Block). x.value) blocks ∙ at_o.fields;
            })
        | inr elsewhere ↦ rw is_after (record {
          block = at_o.block;
          held = update-other s.heap q _ o (λ e. ground arith) ∙ at_o.held;
          headed = at_o.headed;
          fields = at_o.fields;
        })
      ]

  pub set_flags-FieldsAt :
      (q : ℕ) (f : MetaFlag) (s t : State) {a : Unit {0}}
      → FieldsAt o header value s
      → Object.set_flags q f s ≡ ok a t
      → FieldsAt o header value t
  unfolding Object.set_flags
  set_flags-FieldsAt q f s t at_o h =
      let (b, s', loaded, rest) = and_then-ok (load_object q s) _ h in
      let (_, same) = load_object-inv q s s' loaded in
      elim (Bool-cases (Object.is_counted b.header)) [
        | inl counted ↦ modify_meta-FieldsAt q _ s t at_o (rw (same, counted) at rest)
        | inr uncounted ↦ rw (sym (ok-state (rw (same, uncounted) at rest))) at_o
      ]

  pub tracing_worklist_push-FieldsAt :
      (ptr : ℕ) (s t : State) {a : Unit {0}}
      → FieldsAt o header value s
      → Gc.tracing_worklist_push ptr s ≡ ok a t
      → FieldsAt o header value t
  unfolding Gc.tracing_worklist_push
  tracing_worklist_push-FieldsAt ptr s t at_o h = elim (Bool-cases (Pointer.is_own_ref ptr)) [
    | inr borrowed ↦ rw (sym (ok-state (rw borrowed at h))) at_o
    | inl owned ↦
        let q = Pointer.untag ptr in
        let (queued, s', flagged, rest) =
          and_then-ok (Object.has_flags q tracing s) _ (rw owned at h) in
        let same = has_flags-reads q tracing s s' flagged in
        elim (Bool-cases queued) [
          | inl known ↦ rw (sym (ok-state (rw (same, known) at rest))) at_o
          | inr unknown ↦
              let (_, u, set, pushed) =
                and_then-ok (Object.set_flags q tracing s) _ (rw (same, unknown) at rest) in
              let kept = set_flags-FieldsAt q tracing s u at_o set in
              rw (sym (ok-state pushed)) (record {
                block = kept.block;
                held = kept.held;
                headed = kept.headed;
                fields = kept.fields;
              })
        ]
  ]
