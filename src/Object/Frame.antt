-- ===== src/Object/Frame.antt =====
-- The operations on one object keep every header and both state machines.
use syli.Prelude.{
  ℕ, ◌≡◌, refl, Bool, true, false, Bool-cases, inl, inr, Option, none, some, length, ltb, ◌==◌,
  if◌then◌else◌, set, arith,
}
use syli.Meta.{MetaFlag}
use syli.State.{Block, State}
use syli.State.Monad.{ok, M, ◌>>=◌, or_fault, update, load, load_object, store, free}
use syli.State.Frame.{
  Frame, Keeps, and_then-ok, pure-Keeps, bind-Keeps, then-Keeps, if-Keeps, asserted-Keeps,
  or_fault-Keeps, assert-Keeps, modify-Keeps, load-Keeps, load_object-Keeps, load_object-inv,
}
use syli.Object

-- The state with the block at one address replaced
abbrev with_block : State → ℕ → Option Block → State
with_block s o b = record s { heap = update s.heap o b }

replaced-Frame :
    (s : State) (o : ℕ) (b b' : Block)
    → s.heap o ≡ some b
    → b'.header ≡ b.header
    → Frame s (with_block s o (some b'))
replaced-Frame s o b b' held same = record {
  headers = λ q c h. elim (Bool-cases (o == q)) [
    | inl e ↦ (b, ground arith, ground arith)
    | inr e ↦ (c, ground arith, refl)
  ];
  tracing_same = refl;
  releasing_same = refl;
  budget_same = refl;
}

freed-Frame : (s : State) (o : ℕ) → Frame s (with_block s o none)
freed-Frame s o = record {
  headers = λ q c h. (c, ground arith, refl);
  tracing_same = refl;
  releasing_same = refl;
  budget_same = refl;
}

module _ (o : ℕ) where
  -- What follows a load knows the block.
  pub load-then-Keeps :
      {A : Type 0} (k : Block → M A)
      → ((b : Block) (s : State) (a : A) (s' : State)
          → s.heap o ≡ some b
          → k b s ≡ ok a s'
          → Frame s s')
      → Keeps (load o >>= k)
  unfolding load
  load-then-Keeps {A} k f s a s' h =
      let (b, t, h₁, h₂) = and_then-ok (or_fault (s.heap o) s) _ h in
      let (held, e) = loaded b t h₁ in f b s a s' held (rw e at h₂)
    where
      loaded :
          (b : Block) (t : State) → or_fault (s.heap o) s ≡ ok b t → (s.heap o ≡ some b) × (t ≡ s)
      loaded b t h = ground arith

  pub store-Frame :
      (b b' : Block) (s : State) (a : Unit {0}) (s' : State)
      → b'.header ≡ b.header
      → s.heap o ≡ some b
      → store o b' s ≡ ok a s'
      → Frame s s'
  unfolding store
  store-Frame b b' s a s' same held h =
      let e : s' ≡ with_block s o (some b') = ground arith in
      rw e (replaced-Frame s o b b' held same)

  pub load_object-then-Keeps :
      {A : Type 0} (k : Block → M A)
      → ((b : Block) (s : State) (a : A) (s' : State)
          → s.heap o ≡ some b
          → k b s ≡ ok a s'
          → Frame s s')
      → Keeps (load_object o >>= k)
  load_object-then-Keeps k f s a s' h =
      let (b, t, h₁, h₂) = and_then-ok (load_object o s) k h in
      let (held, e) = load_object-inv o s t h₁ in f b s a s' held (rw e at h₂)

  pub modify_meta-Keeps : (f : ℕ → ℕ) → Keeps (Object.modify_meta o f)
  unfolding Object.modify_meta
  modify_meta-Keeps f =
      load_object-then-Keeps _ (λ b s a s' held h. store-Frame b _ s a s' refl held h)

  pub free-Keeps : Keeps (free o)
  unfolding free
  free-Keeps = bind-Keeps (load-Keeps o) (λ b. modify-Keeps _ (λ s. freed-Frame s o))

  pub set_flags-Keeps : (f : MetaFlag) → Keeps (Object.set_flags o f)
  unfolding Object.set_flags
  set_flags-Keeps f =
      bind-Keeps (load_object-Keeps o) (λ b. if-Keeps _ (modify_meta-Keeps _) (pure-Keeps tt))

  pub clear_flags-Keeps : (f : MetaFlag) → Keeps (Object.clear_flags o f)
  unfolding Object.clear_flags
  clear_flags-Keeps f =
      bind-Keeps (load_object-Keeps o) (λ b. if-Keeps _ (modify_meta-Keeps _) (pure-Keeps tt))

  pub has_flags-Keeps : (f : MetaFlag) → Keeps (Object.has_flags o f)
  unfolding Object.has_flags
  has_flags-Keeps f = bind-Keeps (load_object-Keeps o) (λ b. pure-Keeps _)

  pub refcount-Keeps : Keeps (Object.refcount o)
  unfolding Object.refcount
  refcount-Keeps = bind-Keeps (load_object-Keeps o) (λ b. pure-Keeps _)

  pub decr_local-Keeps : Keeps (Object.decr_local o)
  unfolding Object.decr_local
  decr_local-Keeps =
      bind-Keeps (load_object-Keeps o) (λ b. then-Keeps (assert-Keeps _) (modify_meta-Keeps _))

  pub get_value-Keeps : (i : ℕ) → Keeps (Object.get_value o i)
  unfolding Object.get_value
  get_value-Keeps i = bind-Keeps (load-Keeps o) (λ b. or_fault-Keeps _)

  pub get_candidate_index-Keeps : Keeps (Object.get_candidate_index o)
  unfolding Object.get_candidate_index
  get_candidate_index-Keeps = bind-Keeps (load_object-Keeps o) (λ b.
      then-Keeps (assert-Keeps _)
        (if-Keeps _ (bind-Keeps (asserted-Keeps _) (λ n. get_value-Keeps n)) (pure-Keeps 0)))

  pub set_value-Keeps : (i x : ℕ) → Keeps (Object.set_value o i x)
  unfolding Object.set_value
  set_value-Keeps i x =
      load-then-Keeps _ (λ b s a s' held h. stored b s a s' (ltb i (length b.value)) held h)
    where
      stored :
          (b : Block) (s : State) (a : Unit {0}) (s' : State) (inside : Bool)
          → s.heap o ≡ some b
          → (if inside then store o (record b { value = set b.value i x }) else or_fault none) s
            ≡ ok a s'
          → Frame s s'
      stored b s a s' true held h = store-Frame b _ s a s' refl held h
      stored b s a s' false held h = ground arith

  pub set_candidate_index-Keeps : (i : ℕ) → Keeps (Object.set_candidate_index o i)
  unfolding Object.set_candidate_index
  set_candidate_index-Keeps i = bind-Keeps (load_object-Keeps o) (λ b.
      then-Keeps (assert-Keeps _)
        (if-Keeps _ (bind-Keeps (asserted-Keeps _) (λ n. set_value-Keeps n i)) (pure-Keeps tt)))
