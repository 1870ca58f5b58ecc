-- ===== src/Shared/Calls.antt =====
-- What each call does to the parts of the word when it takes effect.
use syli.Prelude.{ℕ, ◌+◌, ◌^◌, ◌≤◌, ◌<◌, ◌≡◌, refl, Bool, true, not, ◌&&◌, ◌||◌, leb, arith}
use syli.Meta
use syli.Meta.{MetaFlag, refcount, mark_tag, has_flags}
use syli.Meta.Laws.{flag_eq, set_flags_lem, clear_flags_lem}
use syli.Meta.Count.{incr_lem, decr_n_lem}
use syli.Shared.{
  Call, incr_shared, decr_shared, decr_shared_n, set_flags_shared, clear_flags_shared, effect,
  price, gain,
}

-- What a call makes of a flag that is `b`
abbrev pub flag_after : Call → MetaFlag → Bool → Bool
flag_after (set_flags_shared f) g b = flag_eq f g || b
flag_after (clear_flags_shared f) g b = not (flag_eq f g) && b
flag_after _ g b = b

-- `m'` is `m` after the call.
pub record Effects (c : Call) (m m' : ℕ) : Type 0 where
  pub count : refcount m' + price c ≡ refcount m + gain c
  pub flags : (g : MetaFlag) → has_flags m' g ≡ flag_after c g (has_flags m g)
  pub mark_same : mark_tag m' ≡ mark_tag m
  pub fits : m' < 2 ^ 64

less-Effects :
    (m n : ℕ) (c : Call)
    → price c ≡ n
    → gain c ≡ 0
    → ((g : MetaFlag) (b : Bool) → flag_after c g b ≡ b)
    → m < 2 ^ 64
    → n ≤ refcount m
    → Effects c m (Meta.decr_n m n)
less-Effects m n c e z same h r =
    let parts = decr_n_lem m n h r in
    record {
      count = omega (arith, parts.count);
      flags = λ g. rw (same g (has_flags m g)) (parts.flags_same g);
      mark_same = parts.mark_same;
      fits = parts.fits;
    }

pub effect-Effects :
    (c : Call) (m : ℕ)
    → m < 2 ^ 64
    → price c ≤ refcount m
    → refcount m + gain c < 2 ^ 56
    → Effects c m (effect c m)
unfolding effect
effect-Effects incr_shared m h p r =
    let parts = incr_lem m h r in
    record {
      count = omega (arith, parts.count);
      flags = parts.flags_same;
      mark_same = parts.mark_same;
      fits = parts.fits;
    }
effect-Effects decr_shared m h p r = less-Effects m 1 decr_shared refl refl (λ _ _. refl) h p
effect-Effects (decr_shared_n n) m h p r =
    less-Effects m n (decr_shared_n n) refl refl (λ _ _. refl) h p
effect-Effects (set_flags_shared f) m h p r = record {
  count = omega (arith, (set_flags_lem m f f h).1.refcount_same);
  flags = λ g. (set_flags_lem m f g h).0;
  mark_same = (set_flags_lem m f f h).1.mark_same;
  fits = (set_flags_lem m f f h).1.fits;
}
effect-Effects (clear_flags_shared f) m h p r = record {
  count = omega (arith, (clear_flags_lem m f f h).1.refcount_same);
  flags = λ g. (clear_flags_lem m f g h).0;
  mark_same = (clear_flags_lem m f f h).1.mark_same;
  fits = (clear_flags_lem m f f h).1.fits;
}

-- The assertion of a call that gives up no more references than are counted
pub enough : (n m : ℕ) → n ≤ m → leb n m ≡ true
enough n m h = ground arith
