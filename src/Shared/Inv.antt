-- ===== src/Shared/Inv.antt =====
-- What holds of the word and the threads after any steps, and that every step keeps it.
use syli.Prelude.{
  ℕ, ◌+◌, ◌-◌, ◌≤◌, ◌<◌, ◌^◌, ◌≡◌, refl, sym, ◌∙◌, ap, Bool, true, false, not, ◌&&◌, ◌==◌, List, [],
  ◌∷◌, ◌++◌, Bool-cases, ltb, leb, arith, inl, inr,
}
use syli.Meta.{MetaFlag, refcount, mark_tag, has_flags}
use syli.Shared.{
  Call, Pc, Thread, System, Outcome, Step, Reach, access, exchange, effect, price, gain, counted,
  claimed, run_calls, outside, stopped, entered, checked, loaded, incr_shared, decr_shared,
  decr_shared_n, set_flags_shared, clear_flags_shared, enter, advance, give, call, go, hand, start,
  later,
}
use syli.Shared.Threads.{put, total, total-put, total-gap, total-member}
use syli.Shared.Calls.{Effects, effect-Effects, flag_after}

abbrev pub is_stopped : Thread → Bool
is_stopped t = elim t.pc [ stopped ↦ true | _ ↦ false ]

-- A flag after the calls of the log, of which the first one is the last
abbrev pub flag_of : List Call → MetaFlag → Bool → Bool
flag_of [] g b = b
flag_of (c ∷ cs) g b = flag_after c g (flag_of cs g b)

-- Of `n` threads that began with the word `first`
pub record Inv (n first : ℕ) (s : System) : Type 0 where
  pub fits : s.word < 2 ^ 64
  pub count : refcount s.word ≡ total counted n s.threads
  pub room : total claimed n s.threads < 2 ^ 56
  pub going : (i : ℕ) → is_stopped (s.threads i) ≡ false
  pub linear : s.word ≡ run_calls s.log first
  pub flags : (g : MetaFlag) → has_flags s.word g ≡ flag_of s.log g (has_flags first g)
  pub mark_same : mark_tag s.word ≡ mark_tag first

-- An access leaves the word alone, or it is where one call takes effect.
pub data Access (m : ℕ) (t : Thread) (o : Outcome) : Type 0 where
  waits :
      o.word ≡ m
      → o.done ≡ []
      → counted o.thread ≡ counted t
      → claimed o.thread ≡ claimed t
      → is_stopped o.thread ≡ false
      → Access m t o
  acts :
      (c : Call)
      → o.word ≡ effect c m
      → o.done ≡ c ∷ []
      → counted o.thread + price c ≡ counted t + gain c
      → claimed o.thread + price c ≡ claimed t
      → claimed t ≡ counted t + gain c
      → price c ≤ counted t
      → is_stopped o.thread ≡ false
      → Access m t o

access-Access :
    (spurious : Bool) (m h : ℕ) (p : Pc)
    → let t : Thread = record { held = h; pc = p } in
      counted t ≤ refcount m → is_stopped t ≡ false → Access m t (access spurious m h p)
unfolding access exchange counted claimed
access-Access spurious m h outside le q = waits refl refl refl refl refl
access-Access spurious m h stopped le q = cc
access-Access spurious m h (entered incr_shared) le q =
    acts incr_shared refl refl (omega arith) (omega arith) (omega arith) (omega arith) refl
access-Access spurious m h (entered decr_shared) le q =
    let e : ltb 0 (refcount m) ≡ true = ground arith in rw e (waits refl refl refl refl refl)
access-Access spurious m h (entered (decr_shared_n n)) le q =
    let e : leb n (refcount m) ≡ true = ground arith in rw e (waits refl refl refl refl refl)
access-Access spurious m h (entered (set_flags_shared f)) le q = waits refl refl refl refl refl
access-Access spurious m h (entered (clear_flags_shared f)) le q = waits refl refl refl refl refl
access-Access spurious m h (checked c) le q =
    acts c refl refl (omega arith) (omega arith) (omega arith) (omega arith) refl
access-Access spurious m h (loaded c old) le q = elim (Bool-cases (m == old && not spurious)) [
  | inl e ↦
      let same : m ≡ old = ground arith in
      rw e (
        acts c (ap (effect c) (sym same)) refl (omega arith) (omega arith) (omega arith)
          (omega arith) refl)
  | inr e ↦ rw e (waits refl refl refl refl refl)
]

counted-claimed : (t : Thread) → counted t ≤ claimed t
unfolding counted claimed
counted-claimed t = ground arith

-- What a thread is giving up does not depend on what it holds.
counted-held :
    (h k : ℕ) (p : Pc)
    → counted (record { held = h; pc = p }) + k ≡ counted (record { held = k; pc = p }) + h
unfolding counted
counted-held h k p = ground arith

claimed-held :
    (h k : ℕ) (p : Pc)
    → claimed (record { held = h; pc = p }) + k ≡ claimed (record { held = k; pc = p }) + h
unfolding claimed
claimed-held h k p = ground arith

-- Handing `k` references over leaves a sum as it was, when the weight of a thread counts what it
-- holds.
total-give :
    (weight : Thread → ℕ)
    → ((h k : ℕ) (p : Pc)
        → weight (record { held = h; pc = p }) + k ≡ weight (record { held = k; pc = p }) + h)
    → (n : ℕ) (s : System) (i j k : ℕ) → i < n
    → j < n
    → k ≤ (s.threads i).held
    → total weight n (give s i j k).threads ≡ total weight n s.threads
total-give weight by_held n s i j k lt lt2 has = omega (
  arith,
  has,
  total-put weight n s.threads i less lt,
  total-put weight n u j more lt2,
  by_held (s.threads i).held less.held (s.threads i).pc,
  by_held (u j).held more.held (u j).pc,
)
  where
    less : Thread
    less = record { held = (s.threads i).held - k; pc = (s.threads i).pc }

    u : ℕ → Thread
    u = put s.threads i less

    more : Thread
    more = record { held = (u j).held + k; pc = (u j).pc }

module _ {n first : ℕ} {s : System} (inv : Inv n first s) where
  open inv use {fits, count, room, going, linear, flags, mark_same}

  put-going :
      (i : ℕ) (t : Thread)
      → is_stopped t ≡ false
      → (j : ℕ) → is_stopped (put s.threads i t j) ≡ false
  put-going i t e j = ground (arith, going j)

  Access-Inv :
      (i : ℕ) {o : Outcome}
      → i < n
      → Access s.word (s.threads i) o
      → Inv n first
          (record { word = o.word; threads = put s.threads i o.thread; log = o.done ++ s.log })
  unfolding run_calls
  Access-Inv i {o} lt (waits w d c k q) = record {
    fits = rw w fits;
    count = omega (arith, ap refcount w, count, c, total-put counted n s.threads i o.thread lt);
    room = omega (arith, room, k, total-put claimed n s.threads i o.thread lt);
    going = put-going i o.thread q;
    linear = rw (w, d) linear;
    flags = rw (w, d) flags;
    mark_same = rw w mark_same;
  }
  Access-Inv i {o} lt (acts c w d k l g p q) =
      let e : Effects c s.word (effect c s.word) =
        effect-Effects c s.word fits
          (omega (arith, count, total-member counted n s.threads i lt, p))
          (omega
            (arith, count, room, g, total-gap counted claimed counted-claimed n s.threads i lt)) in
      record {
        fits = rw w e.fits;
        count =
            omega (
              arith,
              ap refcount w,
              e.count,
              count,
              k,
              total-put counted n s.threads i o.thread lt,
            );
        room = omega (arith, room, l, total-put claimed n s.threads i o.thread lt);
        going = put-going i o.thread q;
        linear = rw (w, d) (ap (effect c) linear);
        flags = rw (w, d) (λ f. e.flags f ∙ ap (flag_after c f) (flags f));
        mark_same = rw w (e.mark_same ∙ mark_same);
      }

  advance-Inv : (i : ℕ) (spurious : Bool) → i < n → Inv n first (advance s i spurious)
  advance-Inv i spurious lt = Access-Inv i lt (
      access-Access spurious s.word (s.threads i).held (s.threads i).pc
        (omega (arith, count, total-member counted n s.threads i lt)) (going i))

  enter-Inv :
      (i : ℕ) (c : Call)
      → i < n
      → (s.threads i).pc ≡ outside
      → price c + gain c ≤ (s.threads i).held
      → total claimed n s.threads + gain c < 2 ^ 56
      → Inv n first (enter s i c)
  unfolding counted claimed
  enter-Inv i c lt out pays fewer = record {
    fits = fits;
    count = omega (arith, count, pays, ap counted at, total-put counted n s.threads i new lt);
    room = omega (arith, fewer, pays, ap claimed at, total-put claimed n s.threads i new lt);
    going = put-going i _ refl;
    linear = linear;
    flags = flags;
    mark_same = mark_same;
  }
    where
      new : Thread
      new = record { held = (s.threads i).held - price c; pc = entered c }

      at : s.threads i ≡ record { held = (s.threads i).held; pc = outside }
      at = ap (λ p. record { held = (s.threads i).held; pc = p }) out

  give-Inv : (i j k : ℕ) → i < n → j < n → k ≤ (s.threads i).held → Inv n first (give s i j k)
  give-Inv i j k lt lt2 has = record {
    fits = fits;
    count = count ∙ sym (total-give counted counted-held n s i j k lt lt2 has);
    room = rw (total-give claimed claimed-held n s i j k lt lt2 has) room;
    going = λ q. ground (arith, going i, going j, going q);
    linear = linear;
    flags = flags;
    mark_same = mark_same;
  }

Step-Inv : {n first : ℕ} {s t : System} → Inv n first s → Step n s t → Inv n first t
Step-Inv inv (call i c lt out pays fewer) = enter-Inv inv i c lt out pays fewer
Step-Inv inv (go i spurious lt) = advance-Inv inv i spurious lt
Step-Inv inv (hand i j k lt lt2 has) = give-Inv inv i j k lt lt2 has

pub Reach-Inv : {n first : ℕ} {s t : System} → Inv n first s → Reach n s t → Inv n first t
Reach-Inv inv start = inv
Reach-Inv inv (later r st) = Step-Inv (Reach-Inv inv r) st
