-- ===== src/Foreign/Bytes.antt =====
-- The bytes of packed words.
use syli.Prelude.{
  ℕ, zero, suc, ◌*◌, ◌/◌, ◌%◌, ◌<◌, ◌≡◌, ap, some, List, [], ◌∷◌, length, get_elem?, All, arith,
}
use syli.Foreign.{byte_at}
use syli.Foreign.Literal.{pack}

abbrev pub AreBytes : List ℕ → Type 0
AreBytes = All (λ b. b < 256)

some-inj : {a x : ℕ} → some a ≡ some x → a ≡ x
some-inj e = ground arith

pub byte_at-pack :
    (n : ℕ) (bytes : List ℕ) (k x : ℕ)
    → AreBytes bytes
    → length bytes ≡ 8 * n
    → get_elem? bytes k ≡ some x
    → byte_at (pack bytes) k ≡ some x
unfolding byte_at pack
byte_at-pack zero (a ∷ b ∷ c ∷ d ∷ e ∷ f ∷ g ∷ h ∷ bytes) k x are len at = absurd (omega arith)
byte_at-pack (suc n) (a ∷ b ∷ c ∷ d ∷ e ∷ f ∷ g ∷ h ∷ bytes) zero x
      (ha, (hb, (hc, (hd, (he, (hf, (hg, (hh, rest)))))))) len at =
    ap some (omega (arith, some-inj at))
byte_at-pack (suc n) (a ∷ b ∷ c ∷ d ∷ e ∷ f ∷ g ∷ h ∷ bytes) (suc zero) x
      (ha, (hb, (hc, (hd, (he, (hf, (hg, (hh, rest)))))))) len at =
    ap some (omega (arith, some-inj at))
byte_at-pack (suc n) (a ∷ b ∷ c ∷ d ∷ e ∷ f ∷ g ∷ h ∷ bytes) (suc (suc zero)) x
      (ha, (hb, (hc, (hd, (he, (hf, (hg, (hh, rest)))))))) len at =
    ap some (omega (arith, some-inj at))
byte_at-pack (suc n) (a ∷ b ∷ c ∷ d ∷ e ∷ f ∷ g ∷ h ∷ bytes) (suc (suc (suc zero))) x
      (ha, (hb, (hc, (hd, (he, (hf, (hg, (hh, rest)))))))) len at =
    ap some (omega (arith, some-inj at))
byte_at-pack (suc n) (a ∷ b ∷ c ∷ d ∷ e ∷ f ∷ g ∷ h ∷ bytes) (suc (suc (suc (suc zero)))) x
      (ha, (hb, (hc, (hd, (he, (hf, (hg, (hh, rest)))))))) len at =
    ap some (omega (arith, some-inj at))
byte_at-pack (suc n) (a ∷ b ∷ c ∷ d ∷ e ∷ f ∷ g ∷ h ∷ bytes) (suc (suc (suc (suc (suc zero))))) x
      (ha, (hb, (hc, (hd, (he, (hf, (hg, (hh, rest)))))))) len at =
    ap some (omega (arith, some-inj at))
byte_at-pack (suc n) (a ∷ b ∷ c ∷ d ∷ e ∷ f ∷ g ∷ h ∷ bytes)
      (suc (suc (suc (suc (suc (suc zero)))))) x
      (ha, (hb, (hc, (hd, (he, (hf, (hg, (hh, rest)))))))) len at =
    ap some (omega (arith, some-inj at))
byte_at-pack (suc n) (a ∷ b ∷ c ∷ d ∷ e ∷ f ∷ g ∷ h ∷ bytes)
      (suc (suc (suc (suc (suc (suc (suc zero))))))) x
      (ha, (hb, (hc, (hd, (he, (hf, (hg, (hh, rest)))))))) len at =
    ap some (omega (arith, some-inj at))
byte_at-pack (suc n) (a ∷ b ∷ c ∷ d ∷ e ∷ f ∷ g ∷ h ∷ bytes)
      (suc (suc (suc (suc (suc (suc (suc (suc k)))))))) x
      (_, (_, (_, (_, (_, (_, (_, (_, rest)))))))) len at =
    let quotient : suc (suc (suc (suc (suc (suc (suc (suc k))))))) / 8 ≡ suc (k / 8) =
      omega arith in
    let rest_of : suc (suc (suc (suc (suc (suc (suc (suc k))))))) % 8 ≡ k % 8 = omega arith in
    rw (quotient, rest_of) (byte_at-pack n bytes k x rest (omega arith) at)
byte_at-pack n ([]) k x are len at = cc
byte_at-pack n (a ∷ []) k x are len at = absurd (omega arith)
byte_at-pack n (a ∷ b ∷ []) k x are len at = absurd (omega arith)
byte_at-pack n (a ∷ b ∷ c ∷ []) k x are len at = absurd (omega arith)
byte_at-pack n (a ∷ b ∷ c ∷ d ∷ []) k x are len at = absurd (omega arith)
byte_at-pack n (a ∷ b ∷ c ∷ d ∷ e ∷ []) k x are len at = absurd (omega arith)
byte_at-pack n (a ∷ b ∷ c ∷ d ∷ e ∷ f ∷ []) k x are len at = absurd (omega arith)
byte_at-pack n (a ∷ b ∷ c ∷ d ∷ e ∷ f ∷ g ∷ []) k x are len at = absurd (omega arith)
