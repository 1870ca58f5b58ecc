-- ===== src/Tracing/Colours.antt =====
-- The invariant of the marking while no other code runs: an object that is marked has its owned
-- references marked or waiting in the worklist.
pub mod Paint
pub mod Push
pub mod Pop
pub mod Weight
pub mod Mark
pub mod Look
pub mod Step
pub mod Prepare
pub mod Reached
pub mod Goes
pub mod Run
pub mod Begin
pub mod Written
pub mod Sample
use syli.Prelude.{
  sym, ap, ◌∙◌, get_elem?, ℕ, ◌+◌, ◌*◌, ◌<◌, ◌≤◌, ◌≡◌, ◌≢◌, ◌^◌, Bool, true, false, Option, none,
  some, List, [], All, Memᴰ, length, ◌⊎◌, ◌==◌, if◌then◌else◌,
}
use syli.Header
use syli.Header.Zone
use syli.Meta
use syli.Meta.{tracing, waiting_remove}
use syli.Pointer
use syli.State.{Block, State}
use syli.Object
use syli.Traverse.References.{references}
use syli.Tracing.Mark.{has_references, field_count, is_reference}
use syli.Tracing.Queue.{Listed, Waits}

-- The words that the tracing of an object with this header and these fields pushes
abbrev pub words_of : (header : ℕ) → List ℕ → List ℕ
words_of header value =
    if has_references header
    then (elim (field_count header) [
      | none ↦ []
      | some n ↦ references (is_reference header) value n 0
    ])
    else []

-- The objects in use, with what the marking does not change of them
pub record Graph : Type 0 where
  pub objects : List ℕ
  pub header : ℕ → ℕ
  pub value : ℕ → List ℕ

abbrev pub InUse : Graph → ℕ → Type 0
InUse g o = Memᴰ o g.objects

abbrev pub words : Graph → ℕ → List ℕ
words g o = words_of (g.header o) (g.value o)

-- The number of fields that the header gives, none of them missing
abbrev pub HasFields : ℕ → List ℕ → Type 0
HasFields header value = (n : ℕ) × (field_count header ≡ some n) × (n ≤ length value)

-- What an object in use owns is in use.
pub record Closed (g : Graph) : Type 0 where
  pub real : (o : ℕ) → InUse g o → o ≢ 0
  pub counted : (o : ℕ) → InUse g o → Object.is_counted (g.header o) ≡ true
  pub layout :
      (o : ℕ) → InUse g o → has_references (g.header o) ≡ true → HasFields (g.header o) (g.value o)
  pub owns :
      (o : ℕ)
      → InUse g o
      → All (λ p. Pointer.is_own_ref p ≡ true → InUse g (Pointer.untag p)) (words g o)

-- An object in use on the heap: it is referred to, and does not wait to be freed.
pub record Alive (g : Graph) (s : State) (o : ℕ) : Type 0 where
  pub block : Block
  pub held : s.heap o ≡ some block
  pub headed : block.header ≡ g.header o
  pub fields : block.value ≡ g.value o
  pub referred : (Meta.refcount block.meta == 0) ≡ false
  pub stays : Meta.has_flags block.meta waiting_remove ≡ false
  pub fits : block.meta < 2 ^ 64

abbrev pub has_mark : ℕ → Option Block → Bool
has_mark current none = false
has_mark current (some b) = Meta.mark_tag b.meta == current

abbrev pub is_marked : State → ℕ → Bool
is_marked s o = has_mark s.tracing_current_bit_mark (s.heap o)

-- The object of an owned reference is marked, or it waits in the worklist.
abbrev pub Seen : State → ℕ → Type 0
Seen s p =
    Pointer.is_own_ref p ≡ true → (is_marked s (Pointer.untag p) ≡ true) ⊎ Waits s (Pointer.untag p)

-- The object waits among the mutations to have what it owns looked at.
abbrev pub Pending : State → ℕ → Type 0
Pending s o =
    (i : ℕ) × (p : ℕ) × (get_elem? s.tracing_mutations_worklist i ≡ some p) × (Pointer.untag p ≡ o)

-- An owned pointer to a local object in use
pub record Changed (g : Graph) (p : ℕ) : Type 0 where
  pub owned : Pointer.is_own_ref p ≡ true
  pub in_use : InUse g (Pointer.untag p)
  pub local : Header.get_zone (g.header (Pointer.untag p)) ≡ Zone.gc_local

pub record Colours (g : Graph) (roots : List ℕ) (s : State) : Type 0 where
  pub bit : ℕ
  pub bit_fits : bit < 2
  pub current : s.tracing_current_bit_mark ≡ bit * 2 ^ 63
  pub alive : (o : ℕ) → InUse g o → Alive g s o
  pub work : All (λ p. InUse g (Pointer.untag p)) s.tracing_worklist
  pub listed : Listed s
  pub changed : All (Changed g) s.tracing_mutations_worklist
  pub black : (o : ℕ) → InUse g o → is_marked s o ≡ true → Pending s o ⊎ All (Seen s) (words g o)
  pub rooted : All (Seen s) roots

-- An object in use is so on the same heap.
pub Alive-heap : {g : Graph} {s t : State} {o : ℕ} → s.heap ≡ t.heap → Alive g s o → Alive g t o
Alive-heap {o} same a = record {
  block = a.block;
  held = sym (ap (λ h. h o) same) ∙ a.held;
  headed = a.headed;
  fields = a.fields;
  referred = a.referred;
  stays = a.stays;
  fits = a.fits;
}

-- What is reached from the words of the roots over owned references
pub data Reaches (g : Graph) (roots : List ℕ) : ℕ → Type 0 where
  root : {p : ℕ} → Memᴰ p roots → Pointer.is_own_ref p ≡ true → Reaches g roots (Pointer.untag p)
  child :
      {o p : ℕ}
      → Reaches g roots o
      → Memᴰ p (words g o)
      → Pointer.is_own_ref p ≡ true
      → Reaches g roots (Pointer.untag p)
