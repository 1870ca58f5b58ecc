-- ===== src/State/Frame.antt =====
-- What the steps of the collector leave alone: no object appears or changes its header, and
-- neither state machine moves, nor does the budget of releasing.
use syli.Prelude.{
  Bool-cases, inl, inr, ◌==◌, ℕ, ◌≡◌, refl, ◌∙◌, Bool, true, false, Option, none, some,
  if◌then◌else◌, arith,
}
use syli.State.{Block, State}
use syli.State.Monad.{
  Result, ok, fault, assert_failed, M, pure, and_then, ◌>>=◌, ◌>>◌, get_state, modify, assert,
  asserted, or_fault, load, load_object,
}

pub record Frame (s s' : State) : Type 0 where
  pub headers :
      (o : ℕ) (b' : Block)
      → s'.heap o ≡ some b'
      → (b : Block) × (s.heap o ≡ some b) × (b'.header ≡ b.header)
  pub tracing_same : s'.tracing_state ≡ s.tracing_state
  pub releasing_same : s'.releasing_state ≡ s.releasing_state
  pub budget_same : s'.releasing_budget ≡ s.releasing_budget

pub Frame-refl : (s : State) → Frame s s
Frame-refl s = record {
  headers = λ o b h. (b, h, refl);
  tracing_same = refl;
  releasing_same = refl;
  budget_same = refl;
}

pub Frame-trans : {s t u : State} → Frame s t → Frame t u → Frame s u
Frame-trans f g = record {
  headers = λ o b h.
      let (b₁, h₁, e₁) = g.headers o b h in
      let (b₂, h₂, e₂) = f.headers o b₁ h₁ in (b₂, h₂, e₁ ∙ e₂);
  tracing_same = g.tracing_same ∙ f.tracing_same;
  releasing_same = g.releasing_same ∙ f.releasing_same;
  budget_same = g.budget_same ∙ f.budget_same;
}

-- Whenever `m` ends well, the frame is kept.
abbrev pub Keeps : {A : Type 0} → M A → Type 0
Keeps {A} m = (s : State) (a : A) (s' : State) → m s ≡ ok a s' → Frame s s'

pub and_then-ok :
    {A B : Type 0} (r : Result A) (k : A → M B) {b : B} {s'' : State}
    → and_then r k ≡ ok b s''
    → (a : A) × (s' : State) × (r ≡ ok a s') × (k a s' ≡ ok b s'')
and_then-ok (ok a s') k h = (a, s', refl, h)
and_then-ok fault k h = ground arith
and_then-ok assert_failed k h = ground arith

module _ {A : Type 0} where
  pub pure-Keeps : (a : A) → Keeps (pure a)
  pure-Keeps a s x s' h = (let e : s' ≡ s = ground arith in rw e (Frame-refl s))

  pub bind-Keeps :
      {B : Type 0} {m : M A} {k : A → M B} → Keeps m → ((a : A) → Keeps (k a)) → Keeps (m >>= k)
  bind-Keeps {B} {m} {k} f g s b s'' h =
      let (a, s', h₁, h₂) = and_then-ok (m s) k h in Frame-trans (f s a s' h₁) (g a s' b s'' h₂)

  pub then-Keeps : {B : Type 0} {m : M A} {n : M B} → Keeps m → Keeps n → Keeps (m >> n)
  then-Keeps f g = bind-Keeps f (λ a. g)

  pub if-Keeps : (c : Bool) {m n : M A} → Keeps m → Keeps n → Keeps (if c then m else n)
  if-Keeps true f g = f
  if-Keeps false f g = g

  pub asserted-Keeps : (a : Option A) → Keeps (asserted a)
  asserted-Keeps none s x s' h = ground arith
  asserted-Keeps (some a) s x s' h = pure-Keeps a s x s' h

  pub or_fault-Keeps : (a : Option A) → Keeps (or_fault a)
  or_fault-Keeps none s x s' h = ground arith
  or_fault-Keeps (some a) s x s' h = pure-Keeps a s x s' h

pub assert-Keeps : (c : Bool) → Keeps (assert c)
assert-Keeps true s x s' h = pure-Keeps x s x s' (ground arith)
assert-Keeps false s x s' h = ground arith

pub get_state-Keeps : Keeps get_state
get_state-Keeps s x s' h = (let e : s' ≡ s = ground arith in rw e (Frame-refl s))

pub modify-Keeps : (f : State → State) → ((s : State) → Frame s (f s)) → Keeps (modify f)
modify-Keeps f k s x s' h = (let e : s' ≡ f s = ground arith in rw e (k s))

pub load-Keeps : (o : ℕ) → Keeps (load o)
unfolding load
load-Keeps o s x s' h = or_fault-Keeps (s.heap o) s x s' h

pub load_object-Keeps : (o : ℕ) → Keeps (load_object o)
unfolding load_object
load_object-Keeps o = then-Keeps (assert-Keeps _) (load-Keeps o)

pub load_object-inv :
    (o : ℕ) (s t : State) {b : Block} → load_object o s ≡ ok b t → (s.heap o ≡ some b) × (t ≡ s)
unfolding load_object load
load_object-inv o s t {b} h = elim (Bool-cases (o == 0)) [
  | inl null ↦ absurd (ground (arith, rw null at h))
  | inr real ↦ held (s.heap o) (rw real at h)
]
  where
    held : (c : Option Block) → or_fault c s ≡ ok b t → (c ≡ some b) × (t ≡ s)
    held none e = absurd (ground arith)
    held (some c) e = (ground arith, ground arith)
