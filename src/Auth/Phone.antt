-- ===== src/Auth/Phone.antt =====
-- Phone numbers (`backend/src/modules/auth/phone.ts`).
use Prim.Native.Char.{code}
use mathlib.Core.Path.{subst}
use ling_dian.Prelude.{
  arith, String, Bool, true, false, ◌&&◌, ◌≡◌, refl, inl, inr, leb, if◌then◌else◌, Bool-cases,
}
use ling_dian.Prelude.Equality.{◌==◌, nat_eq, eq_of_beq}
use ling_dian.Prelude.Decimal.{size}
use ling_dian.Prelude.Results.{Result, ok, throw, bad_request, ok-injective}
use ling_dian.Auth.Audit.{all_digits}

-- `/^1[3-9]\d{9}$/`.
unfoldable pub is_mobile : String → Bool
unfolding all_digits
is_mobile String.[] = false
is_mobile (String.◌∷◌ c String.[]) = false
is_mobile (String.◌∷◌ c (String.◌∷◌ d rest)) =
    code c == 49 && (leb 51 (code d) && leb (code d) 57 && (size rest == 9 && all_digits rest))

-- `/^\+861[3-9]\d{9}$/`.
unfoldable pub is_e164 : String → Bool
unfolding is_mobile
is_e164 String.[] = false
is_e164 (String.◌∷◌ a String.[]) = false
is_e164 (String.◌∷◌ a (String.◌∷◌ b String.[])) = false
is_e164 (String.◌∷◌ a (String.◌∷◌ b (String.◌∷◌ c rest))) =
    code a == 43 && (code b == 56 && code c == 54) && is_mobile rest

-- `+86${phone}`.
abbrev with_country : String → String
with_country phone = String.◌∷◌ "+" (String.◌∷◌ "8" (String.◌∷◌ "6" phone))

unfoldable pub normalize_chinese_phone : String → Result String
unfolding is_mobile is_e164
normalize_chinese_phone phone =
    if is_mobile phone
    then ok (with_country phone)
    else if is_e164 phone
    then ok phone
    else throw (bad_request "A mainland Chinese mobile number is required.")

e164_of : (p : String) → is_mobile p ≡ true → is_e164 (with_country p) ≡ true
unfolding is_e164
e164_of p h = h

not_mobile : (p : String) → is_e164 p ≡ true → is_mobile p ≡ false
unfolding is_e164 is_mobile
not_mobile String.[] h = refl
not_mobile (String.◌∷◌ a String.[]) h = refl
not_mobile (String.◌∷◌ a (String.◌∷◌ b String.[])) h = cc
not_mobile (String.◌∷◌ a (String.◌∷◌ b (String.◌∷◌ c rest))) h =
    let plus : code a ≡ 43 = eq_of_beq (code a) 43 (ground arith) in rw plus refl

-- A number that was normalized is in the international form, and is normalized to itself.
pub normalize_chinese_phone-normalize_chinese_phone :
    (phone normalized : String)
    → normalize_chinese_phone phone ≡ ok normalized
    → (is_e164 normalized ≡ true) × (normalize_chinese_phone normalized ≡ ok normalized)
unfolding normalize_chinese_phone
normalize_chinese_phone-normalize_chinese_phone phone normalized h =
    elim (Bool-cases (is_mobile phone)) [
      | inl e ↦
          let same : Path (Result String) (ok (with_country phone)) (ok normalized) = (rw e at h) in
          settled (subst (λ x. is_e164 x ≡ true) (ok-injective same) (e164_of phone e))
      | inr e ↦ elim (Bool-cases (is_e164 phone)) [
        | inl k ↦
            let same : Path (Result String) (ok phone) (ok normalized) = (rw (e, k) at h) in
            settled (subst (λ x. is_e164 x ≡ true) (ok-injective same) k)
        | inr k ↦
            let same : Path (Result String)
                (throw (bad_request "A mainland Chinese mobile number is required."))
                (ok normalized) =
              (rw (e, k) at h) in
            cc
      ]
    ]
  where
    settled :
        is_e164 normalized ≡ true
        → (is_e164 normalized ≡ true) × (normalize_chinese_phone normalized ≡ ok normalized)
    settled k = (k, rw (not_mobile normalized k, k) refl)
