-- ===== src/Traverse/Frame.antt =====
-- A walk that acts by steps that keep the frame keeps it too, up to what it charges.
use syli.Prelude.{ℕ, zero, suc, ◌+◌, Bool}
use syli.Header
use syli.State.Monad.{M}
use syli.State.Frame.{
  Keeps, pure-Keeps, bind-Keeps, then-Keeps, if-Keeps, asserted-Keeps, load_object-Keeps,
}
use syli.Object.Frame.{get_value-Keeps}
use syli.Traverse.{
  visit_field, each_field, walk_mono_ref, walk_mixed_bitmap, walk_mixed_order, traverse,
}

module _ {act : ℕ → M (Unit {0})} (act-Keeps : (p : ℕ) → Keeps (act p)) where
  visit_field-Keeps : (value : ℕ) → Keeps (visit_field act value)
  unfolding visit_field
  visit_field-Keeps value = if-Keeps _ (act-Keeps value) (pure-Keeps tt)

  pub each_field-Keeps : (is_ref : ℕ → Bool) (o left i : ℕ) → Keeps (each_field act is_ref o left i)
  unfolding each_field
  each_field-Keeps is_ref o zero i = pure-Keeps tt
  each_field-Keeps is_ref o (suc left) i =
      then-Keeps (if-Keeps _ (bind-Keeps (get_value-Keeps o i) visit_field-Keeps) (pure-Keeps tt))
        (each_field-Keeps is_ref o left (i + 1))

  module _ {charge : ℕ → M (Unit {0})} (charge-Keeps : (n : ℕ) → Keeps (charge n))
      (o header : ℕ) where
    walk_mono_ref-Keeps : Keeps (walk_mono_ref act charge o header)
    unfolding walk_mono_ref
    walk_mono_ref-Keeps =
        bind-Keeps (asserted-Keeps _)
          (λ len. then-Keeps (charge-Keeps len) (each_field-Keeps _ o len 0))

    walk_mixed_bitmap-Keeps : Keeps (walk_mixed_bitmap act charge o header)
    unfolding walk_mixed_bitmap
    walk_mixed_bitmap-Keeps = bind-Keeps (asserted-Keeps (Header.bitmap_length header)) (λ len.
        bind-Keeps (asserted-Keeps (Header.bitmap_bits header)) (λ bitmap.
          then-Keeps (charge-Keeps len) (each_field-Keeps (Header.bitmap_is_ref bitmap) o len 0)))

    walk_mixed_order-Keeps : Keeps (walk_mixed_order act charge o header)
    unfolding walk_mixed_order
    walk_mixed_order-Keeps =
        bind-Keeps (asserted-Keeps _)
          (λ count. then-Keeps (charge-Keeps count) (each_field-Keeps _ o count 0))

  -- With charges that keep the frame
  pub traverse-Keeps :
      {charge charge_bitmap : ℕ → M (Unit {0})}
      → ((n : ℕ) → Keeps (charge n))
      → ((n : ℕ) → Keeps (charge_bitmap n))
      → (o : ℕ) → Keeps (traverse act charge charge_bitmap o)
  unfolding traverse
  traverse-Keeps c cb o = bind-Keeps (load_object-Keeps o) (λ b.
      if-Keeps _ (walk_mono_ref-Keeps c o b.header) (
        if-Keeps _ (walk_mixed_bitmap-Keeps cb o b.header)
          (if-Keeps _ (walk_mixed_order-Keeps c o b.header) (pure-Keeps tt))))
