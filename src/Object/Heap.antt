-- ===== src/Object/Heap.antt =====
-- A live object and what reading and counting it does.
use mathlib.Core.Path.{fun_ext}
use syli.Prelude.{
  ℕ, ◌+◌, ◌%◌, ◌^◌, ◌<◌, ◌≡◌, ◌≢◌, Bool, true, false, some, none, Option, ◌==◌, ==_refl, arith,
}
use syli.Header
use syli.Header.Zone
use syli.Pointer
use syli.Pointer.Tags.{untag-eq, is_own_ref-eq, is_always_borrow-eq, is_immediate-eq, set_own-eq}
use syli.State.{Block, Heap, State}
use syli.State.Monad.{ok, update, load, load_object, store, free}
use syli.Object.{modify_meta}

-- `b` is the block of an object at the aligned address `o`, with a 64-bit meta word.
pub record IsObject (h : Heap) (o : ℕ) (b : Block) : Type 0 where
  pub aligned : o % 8 ≡ 0
  pub not_null : o ≢ 0
  pub address : o + 1 < 2 ^ 64
  pub holds : h o ≡ some b
  pub meta_fits : b.meta < 2 ^ 64

-- An object of one thread
pub record IsLocal (h : Heap) (o : ℕ) (b : Block) : Type 0 where
  pub object : IsObject h o b
  pub zone : Header.get_zone b.header ≡ Zone.gc_local

-- The state with another meta word in one object
abbrev pub with_meta : State → ℕ → Block → ℕ → State
with_meta s o b m = record s { heap = update s.heap o (some (record b { meta = m })) }

pub load-ok : (s : State) (o : ℕ) {b : Block} → s.heap o ≡ some b → load o s ≡ ok b s
unfolding load
load-ok s o h = rw h

pub load_object-ok :
    (s : State) (o : ℕ) {b : Block} → o ≢ 0 → s.heap o ≡ some b → load_object o s ≡ ok b s
unfolding load_object
load_object-ok s o real h = let e : (o == 0) ≡ false = ground arith in rw (e, load-ok s o h)

pub load-update :
    (s : State) (o : ℕ) (b : Block)
    → load o (record s { heap = update s.heap o (some b) })
      ≡ ok b (record s { heap = update s.heap o (some b) })
unfolding load
load-update s o b = rw (==_refl o)

pub update-at : (h : Heap) (o : ℕ) (b : Option Block) → update h o b o ≡ b
update-at h o b = rw (==_refl o)

pub free-ok :
    (s : State) (o : ℕ) {b : Block}
    → s.heap o ≡ some b
    → free o s ≡ ok tt (record s { heap = update s.heap o none })
unfolding free
free-ok s o h = rw (load-ok s o h)

pub update-update :
    (h : Heap) (o : ℕ) (b c : Option Block) → update (update h o b) o c ≡ update h o c
update-update h o b c = fun_ext λ q. ground arith

pub update_self : (h : Heap) (o : ℕ) (b : Option Block) → h o ≡ b → update h o b ≡ h
update_self h o b e = fun_ext λ q. ground arith

pub modify_meta-ok :
    (s : State) (o : ℕ) (f : ℕ → ℕ) {b : Block}
    → o ≢ 0
    → s.heap o ≡ some b
    → modify_meta o f s ≡ ok tt (with_meta s o b (f b.meta))
unfolding modify_meta store
modify_meta-ok s o f real h = rw (load_object-ok s o real h)

-- A borrowed or an owned pointer to the object at an address.
abbrev pub pointer_to : (own : Bool) → ℕ → ℕ
pointer_to false o = o
pointer_to true o = o + 1

-- What the tag functions say of `p`, a pointer to `o`.
pub record Tagged (own : Bool) (o p : ℕ) : Type 0 where
  pub untagged : Pointer.untag p ≡ o
  pub owned : Pointer.set_own p ≡ o + 1
  pub own_read : Pointer.is_own_ref p ≡ own
  pub not_always : Pointer.is_always_borrow p ≡ false
  pub not_immediate : Pointer.is_immediate p ≡ false
  pub real : (Pointer.untag p == 0) ≡ false

pub pointer_to-Tagged :
    {h : Heap} {o : ℕ} {b : Block} (own : Bool) → IsObject h o b → Tagged own o (pointer_to own o)
pointer_to-Tagged {o} false i = ground (
  arith,
  i.aligned,
  i.address,
  i.not_null,
  untag-eq o,
  set_own-eq o,
  is_own_ref-eq o,
  is_always_borrow-eq o,
  is_immediate-eq o,
)
pointer_to-Tagged {o} true i = ground (
  arith,
  i.aligned,
  i.address,
  i.not_null,
  untag-eq (o + 1),
  set_own-eq (o + 1),
  is_own_ref-eq (o + 1),
  is_always_borrow-eq (o + 1),
  is_immediate-eq (o + 1),
)
