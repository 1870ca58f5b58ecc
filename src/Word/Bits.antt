-- ===== src/Word/Bits.antt =====
-- The bit operators on words as arithmetic: what a mask, a shift and a complement leave.
mod Step
use Step.{bit_and-halves, bit_or-halves}
use mathlib.Core.WellFounded
use Prim.Native.Nat.{bit_and-bitwise, bit_or-bitwise}
use native.Mathlib.Nat.{pow-suc, one-le-pow, div-div-eq-div-mul, div-add-mod}
use syli.Prelude.{
  ℕ, zero, suc, ◌+◌, ◌-◌, ◌*◌, ◌/◌, ◌%◌, ◌^◌, ◌≤◌, ◌<◌, bit_and, bit_or, ◌≡◌, refl, ap, ◌∙◌, arith,
  lt_wf,
}

-- `a | b` and `a & b` together hold the bits of both.
pub bit_or-add-bit_and : (a b : ℕ) → bit_or a b + bit_and a b ≡ a + b
bit_or-add-bit_and a =
    WellFounded.induction lt_wf {C = λ a. (b : ℕ) → bit_or a b + bit_and a b ≡ a + b} a step
  where
    step :
        (n : ℕ)
        → ((m : ℕ) → m < n → (b : ℕ) → bit_or m b + bit_and m b ≡ m + b)
        → (b : ℕ) → bit_or n b + bit_and n b ≡ n + b
    step zero ih b = simp (bit_or-bitwise, bit_and-bitwise) (omega arith)
    step (suc n) ih b = omega (
      arith,
      bit_and-halves b (suc n),
      bit_or-halves b (suc n),
      ih (suc n / 2) (omega arith) (b / 2),
    )

mul-pow-suc : (q k : ℕ) → q * 2 ^ suc k ≡ 2 * (q * 2 ^ k)
mul-pow-suc q k = omega (arith, ap (λ (t : ℕ). q * t) (pow-suc 2 k))

-- A mask of no bits
no_bits : (x : ℕ) → ((y : ℕ) → y < x → bit_and y 0 ≡ 0) → bit_and x 0 ≡ 0
no_bits zero smaller = refl
no_bits (suc x) smaller =
    let half = smaller (suc x / 2) (omega arith) in omega (arith, half, bit_and-halves 0 (suc x))

pub bit_and-zero : (x : ℕ) → bit_and x 0 ≡ 0
bit_and-zero x = WellFounded.induction lt_wf {C = λ x. bit_and x 0 ≡ 0} x no_bits

two_pow_pos : (k : ℕ) → 1 ≤ 2 ^ k
two_pow_pos k = one-le-pow k 2 (omega arith)

mod-double : (m a : ℕ) → a % (2 * m) ≡ a % 2 + 2 * (a / 2 % m)
mod-double m a = omega (
  arith,
  ap (λ (t : ℕ). m * t) (div-div-eq-div-mul a 2 m),
  div-add-mod a (2 * m),
  div-add-mod (a / 2) m,
)

two_pow_suc : (k : ℕ) → 2 ^ suc k ≡ 2 * 2 ^ k
two_pow_suc k = omega (arith, pow-suc 2 k)

-- `j` one bits keep the remainder by `2 ^ j`.
pub bit_and-low : (j a : ℕ) → bit_and a (2 ^ j - 1) ≡ a % 2 ^ j
bit_and-low zero a = rw bit_and-zero (omega arith)
bit_and-low (suc j) a = rw two_pow_suc (
    ground (
      arith,
      bit_and-halves (2 * 2 ^ j - 1) a,
      two_pow_pos j,
      mod-double (2 ^ j) a,
      bit_and-low j (a / 2),
    ))

bit_and-double : (a m : ℕ) → bit_and a (2 * m) ≡ 2 * bit_and (a / 2) m
bit_and-double a m = ground (arith, bit_and-halves (2 * m) a)

-- A mask of `j` bits at `k` keeps that field in place.
pub bit_and-field : (k j a : ℕ) → bit_and a ((2 ^ j - 1) * 2 ^ k) ≡ a / 2 ^ k % 2 ^ j * 2 ^ k
bit_and-field zero j a = ground (arith, bit_and-low j a)
bit_and-field (suc k) j a = rw two_pow_suc (
    ground (
      arith,
      bit_and-double a ((2 ^ j - 1) * 2 ^ k),
      div-div-eq-div-mul a 2 (2 ^ k),
      bit_and-field k j (a / 2),
    ))

-- `x & ~m` drops from the low `w` bits of `x` what `m` keeps.
pub bit_and-not : (w m x : ℕ) → m < 2 ^ w → bit_and x (2 ^ w - 1 - m) + bit_and x m ≡ x % 2 ^ w
bit_and-not zero m x h = let e : m ≡ 0 = omega arith in rw (e, bit_and-zero) (omega arith)
bit_and-not (suc w) m x h = rw two_pow_suc (
    ground (
      arith,
      bit_and-halves (2 * 2 ^ w - 1 - m) x,
      bit_and-halves m x,
      two_pow_suc w,
      mod-double (2 ^ w) x,
      bit_and-not w (m / 2) (x / 2),
    ))

-- A multiple of `2 ^ k` shares no bit with a number below it.
bit_and-disjoint : (k q r : ℕ) → r < 2 ^ k → bit_and (q * 2 ^ k) r ≡ 0
bit_and-disjoint zero q r h = let e : r ≡ 0 = omega arith in rw (e, bit_and-zero)
bit_and-disjoint (suc k) q r h = ground (
  arith,
  bit_and-halves r (q * 2 ^ suc k),
  mul-pow-suc q k,
  two_pow_suc k,
  bit_and-disjoint k q (r / 2),
)

-- So joining the two is their sum.
pub bit_or-fields : (k q r : ℕ) → r < 2 ^ k → bit_or (q * 2 ^ k) r ≡ q * 2 ^ k + r
bit_or-fields k q r h = omega (arith, bit_or-add-bit_and (q * 2 ^ k) r, bit_and-disjoint k q r h)

-- Testing, setting and clearing one bit `k` of a word.
pub bit_and-bit : (k a : ℕ) → bit_and a (2 ^ k) ≡ a / 2 ^ k % 2 * 2 ^ k
bit_and-bit k a =
    let one_bit : 2 ^ k ≡ (2 ^ 1 - 1) * 2 ^ k = omega arith in
    ap (bit_and a) one_bit ∙ bit_and-field k 1 a

pub bit_or-bit : (k a : ℕ) → bit_or a (2 ^ k) + a / 2 ^ k % 2 * 2 ^ k ≡ a + 2 ^ k
bit_or-bit k a = omega (arith, bit_and-bit k a, bit_or-add-bit_and a (2 ^ k))

pub bit_or-add : (k q a r : ℕ) → a ≡ q * 2 ^ k → r < 2 ^ k → bit_or a r ≡ a + r
bit_or-add k q a r e h = rw e (bit_or-fields k q r h)

pub bit_and_comm : (a b : ℕ) → bit_and a b ≡ bit_and b a
bit_and_comm a = WellFounded.induction lt_wf {C = λ a. (b : ℕ) → bit_and a b ≡ bit_and b a} a step
  where
    step :
        (n : ℕ)
        → ((m : ℕ) → m < n → (b : ℕ) → bit_and m b ≡ bit_and b m)
        → (b : ℕ) → bit_and n b ≡ bit_and b n
    step zero ih b = rw (bit_and-zero, bit_and-bitwise)
    step (suc n) ih b = omega (
      arith,
      bit_and-halves b (suc n),
      bit_and-halves (suc n) b,
      ih (suc n / 2) (omega arith) (b / 2),
    )

pub bit_or_comm : (a b : ℕ) → bit_or a b ≡ bit_or b a
bit_or_comm a b = omega (arith, bit_or-add-bit_and a b, bit_or-add-bit_and b a, bit_and_comm a b)
