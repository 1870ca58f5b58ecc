-- ===== src/Traverse.antt =====
-- The walk over the owned references of an object, as it stands in each of
-- runtime/src/syli_state_gc_releasing.c and runtime/src/syli_state_gc_tracing.c: three loops, one
-- for each layout that has references.
pub mod Frame
pub mod Fields
pub mod References
use syli.Prelude.{ℕ, zero, suc, ◌+◌, Bool, true, false, ◌&&◌, not, ◌==◌, if◌then◌else◌}
use syli.Header
use syli.Pointer
use syli.State.{State}
use syli.State.Monad.{M, pure, ◌>>=◌, ◌>>◌, asserted, load_object}
use syli.Object

-- A field that is neither null nor a borrowed reference is acted on.
unfoldable pub visit_field : (act : ℕ → M (Unit {0})) → ℕ → M (Unit {0})
visit_field act value = if not (value == 0) && Pointer.is_own_ref value then act value else pure tt

-- The fields from `i` on, `left` of them; the code reads each field when it comes to it.
unfoldable pub each_field :
    (act : ℕ → M (Unit {0})) (is_ref : ℕ → Bool) (o left i : ℕ) → M (Unit {0})
each_field act is_ref o zero i = pure tt
each_field act is_ref o (suc left) i =
    (if is_ref i then (do value ← Object.get_value o i; visit_field act value) else pure tt)
    >> each_field act is_ref o left (i + 1)

-- `charge` takes the number of fields from a budget.
unfoldable pub walk_mono_ref : (act charge : ℕ → M (Unit {0})) (o header : ℕ) → M (Unit {0})
walk_mono_ref act charge o header = do
  len ← asserted (Header.object_length header)
  charge len
  each_field act (λ i. true) o len 0

unfoldable pub walk_mixed_bitmap : (act charge : ℕ → M (Unit {0})) (o header : ℕ) → M (Unit {0})
walk_mixed_bitmap act charge o header = do
  len ← asserted (Header.bitmap_length header)
  bitmap ← asserted (Header.bitmap_bits header)
  charge len
  each_field act (Header.bitmap_is_ref bitmap) o len 0

unfoldable pub walk_mixed_order : (act charge : ℕ → M (Unit {0})) (o header : ℕ) → M (Unit {0})
walk_mixed_order act charge o header = do
  count ← asserted (Header.order_ptr_count header)
  charge count
  each_field act (λ i. true) o count 0

-- The charge for a bitmap's fields differs between the callers.
unfoldable pub traverse : (act charge charge_bitmap : ℕ → M (Unit {0})) (o : ℕ) → M (Unit {0})
traverse act charge charge_bitmap o = do
  b ← load_object o
  if Header.is_mono_ref b.header
      then walk_mono_ref act charge o b.header
      else if Header.is_mixed_bitmap b.header
      then walk_mixed_bitmap act charge_bitmap o b.header
      else if Header.is_mixed_order b.header
      then walk_mixed_order act charge o b.header
      else pure tt
