-- ===== src/Shared/Safety.antt =====
-- What the threads may rely on, whatever the order of their steps.
use syli.Prelude.{ℕ, ◌≤◌, ◌<◌, ◌^◌, ◌≡◌, refl, sym, ◌∙◌, ap, false, [], ◌∷◌, ==_refl, arith}
use syli.Meta.{MetaFlag, refcount, mark_tag, has_flags}
use syli.Shared.{
  Call, Thread, System, Reach, access, exchange, counted, claimed, run_calls, outside, loaded,
}
use syli.Shared.Threads.{total, total-same, total-member}
use syli.Shared.Inv.{Inv, is_stopped, flag_of, Reach-Inv}

abbrev pub held_by : Thread → ℕ
held_by t = t.held

-- `n` threads are about to begin, and own together as many references as the word counts.
pub record IsStart (n : ℕ) (s : System) : Type 0 where
  pub fits : s.word < 2 ^ 64
  pub count : refcount s.word ≡ total held_by n s.threads
  pub fewer : refcount s.word < 2 ^ 56
  pub idle : (i : ℕ) → (s.threads i).pc ≡ outside
  pub fresh : s.log ≡ []

outside-counted : (t : Thread) → t.pc ≡ outside → counted t ≡ held_by t
unfolding counted
outside-counted t e = rw e

outside-claimed : (t : Thread) → t.pc ≡ outside → claimed t ≡ held_by t
unfolding claimed
outside-claimed t e = rw e

outside-stopped : (t : Thread) → t.pc ≡ outside → is_stopped t ≡ false
outside-stopped t e = rw e

start-Inv : {n : ℕ} {s : System} → IsStart n s → Inv n s.word s
unfolding run_calls
start-Inv {n} {s} b = record {
  fits = b.fits;
  count =
      b.count
      ∙ sym (total-same counted held_by n s.threads λ i. outside-counted (s.threads i) (b.idle i));
  room = omega (
    arith,
    b.count,
    b.fewer,
    total-same claimed held_by n s.threads (λ i. outside-claimed (s.threads i) (b.idle i)),
  );
  going = λ i. outside-stopped (s.threads i) (b.idle i);
  linear = rw b.fresh;
  flags = λ g. rw b.fresh;
  mark_same = refl;
}

-- Threads that began with as many references as the word counts, and took any number of steps in
-- any order: no assertion has failed, the word counts exactly the references that the threads own
-- or are giving up, and no thread owns more than that.
pub Reach-counts :
    {n : ℕ} {s t : System}
    → IsStart n s
    → Reach n s t
    → ((i : ℕ) → is_stopped (t.threads i) ≡ false)
      × (refcount t.word ≡ total counted n t.threads)
      × ((i : ℕ) → i < n → counted (t.threads i) ≤ refcount t.word)
Reach-counts {n} {s} {t} b r =
    let inv : Inv n s.word t = Reach-Inv (start-Inv b) r in
    (
      inv.going,
      inv.count,
      (λ i lt. omega (arith, inv.count, total-member counted n t.threads i lt)),
    )

-- Threads that began with as many references as the word counts, and took any number of steps in
-- any order: the word is what the calls that took effect make of the first word, one after the
-- other; each flag is what the last of them that set or cleared it left, and the mark is the first
-- one's. No update is lost.
pub Reach-linear :
    {n : ℕ} {s t : System}
    → IsStart n s
    → Reach n s t
    → (t.word ≡ run_calls t.log s.word)
      × ((g : MetaFlag) → has_flags t.word g ≡ flag_of t.log g (has_flags s.word g))
      × (mark_tag t.word ≡ mark_tag s.word)
Reach-linear {n} {s} {t} b r =
    let inv : Inv n s.word t = Reach-Inv (start-Inv b) r in (inv.linear, inv.flags, inv.mark_same)

exchange-done : (m h old : ℕ) (c : Call) → m ≡ old → (access false m h (loaded c old)).done ≡ c ∷ []
unfolding access exchange
exchange-done m h old c e = rw (e, ==_refl old) refl

-- Thread `i` has loaded the word for a call, and steps in any order follow in which no call takes
-- effect: the exchange of `i` takes effect, unless it fails for no reason. So a thread goes round
-- its loop only when a call of another one has taken effect.
pub Reach-exchange :
    {n : ℕ} {s t u : System}
    → IsStart n s
    → Reach n s t
    → (i : ℕ) (c : Call) → Reach n t u
    → u.log ≡ t.log
    → (u.threads i).pc ≡ loaded c t.word
    → (access false u.word (u.threads i).held (u.threads i).pc).done ≡ c ∷ []
Reach-exchange {n} {s} {t} {u} b r i c r2 same at =
    let before : Inv n s.word t = Reach-Inv (start-Inv b) r in
    let after : Inv n s.word u = Reach-Inv before r2 in
    let e : u.word ≡ t.word =
      after.linear ∙ ap (λ l. run_calls l s.word) same ∙ sym before.linear in
    rw at (exchange-done u.word (u.threads i).held t.word c e)
