-- ===== src/Auth/UsedUp.antt =====
-- The rows of verification codes after one was used (`consume` of
-- `backend/src/modules/auth/verification.service.ts`): proofs.
use mathlib.Core.Path.{subst}
use ling_dian.Prelude.{
  ℕ, ◌≤◌, true, false, ◌≡◌, refl, sym, ap, ◌∙◌, inl, inr, List, [], ◌∷◌, All, Member, Bool-cases,
  not_both, arith, length, count_where,
}
use ling_dian.Prelude.Results.{ok}
use ling_dian.Prelude.Equality.{nat_eq, string_eq, beq_refl}
use ling_dian.Schema.AuthEnums.{verification_purpose_eq}
use ling_dian.Schema.AuthRows.{VerificationCode}
use ling_dian.Schema.Database.{Database}
use ling_dian.Db.{
  Prisma, update_where, count_where_none, same_row, All-of_member, update_where-Member,
}
use ling_dian.Auth.Codes.{HashedCode, is_usable}
use ling_dian.Auth.Sending.{consumed_code, is_row, consume_newest, consume_in_transaction}
use ling_dian.Auth.SingleUse.{IsSingleUse}

module _ (db : Prisma) where
  -- A use that finds no usable row finds nothing to consume.
  pub no_rows :
      (now : ℕ) (c : HashedCode) (s : Database)
      → count_where (is_usable now c) s.verification_codes ≡ 0
      → consume_in_transaction db now c s ≡ (ok false, s)
  unfolding consume_in_transaction
  no_rows now c s none_usable =
      found
        (db.find_latest VerificationCode (is_usable now c) (λ r. r.created_at) s.verification_codes)
        (db.find_latest_count VerificationCode (is_usable now c) (λ r. r.created_at)
            s.verification_codes
          ∙ none_usable)
    where
      found :
          (rs : List VerificationCode) → length rs ≡ 0 → consume_newest db now rs s ≡ (ok false, s)
      found [] h = refl
      found (r ∷ rs) h = absurd (omega (arith, h))

  -- A use that goes through has consumed a usable row.
  went_through :
      (now : ℕ) (c : HashedCode) (s t : Database)
      → consume_in_transaction db now c s ≡ (ok true, t)
      → (r : VerificationCode) × Member r s.verification_codes
        × (is_usable now c r ≡ true)
        × (t.verification_codes
            ≡ update_where (is_row now r.id) (consumed_code now) s.verification_codes)
  unfolding consume_in_transaction
  went_through now c s t h =
      found
        (db.find_latest VerificationCode (is_usable now c) (λ r. r.created_at) s.verification_codes)
        (db.find_latest_found VerificationCode (is_usable now c) (λ r. r.created_at)
          s.verification_codes)
        h
    where
      found :
          (rs : List VerificationCode)
          → All (λ r. (is_usable now c r ≡ true) × Member r s.verification_codes) rs
          → consume_newest db now rs s ≡ (ok true, t)
          → (r : VerificationCode) × Member r s.verification_codes
            × (is_usable now c r ≡ true)
            × (t.verification_codes
                ≡ update_where (is_row now r.id) (consumed_code now) s.verification_codes)
      found [] a k = cc
      found (r ∷ rs) a k = (
        r,
        a.0.1,
        a.0.0,
        sym (ap (λ x. x.1.verification_codes) k)
            ∙ ap (λ x. x.0)
                (db.update_many_rows VerificationCode (is_row now r.id) (consumed_code now)
                  s.verification_codes),
      )

  -- After that no row is usable for the code, at any later time.
  pub used_up :
      (now later : ℕ) (c : HashedCode) (s t : Database)
      → now ≤ later
      → IsSingleUse now s.verification_codes
      → consume_in_transaction db now c s ≡ (ok true, t)
      → count_where (is_usable later c) t.verification_codes ≡ 0
  used_up now later c s t order single h =
      let (r, m, usable, rows) = went_through now c s t h in
      rw rows (
        count_where_none (is_usable later c)
          (update_where (is_row now r.id) (consumed_code now) s.verification_codes)
          (All-of_member (λ y. is_usable later c y ≡ false)
            (update_where (is_row now r.id) (consumed_code now) s.verification_codes)
            (unusable r m usable)))
    where
      consumed_out :
          (r y : VerificationCode) → y ≡ consumed_code now r → is_usable later c y ≡ false
      consumed_out r y e = rw e (ground arith)

      kept_out :
          (r x y : VerificationCode)
          → Member r s.verification_codes
          → is_usable now c r ≡ true
          → Member x s.verification_codes
          → is_row now r.id x ≡ false
          → y ≡ x
          → is_usable later c y ≡ false
      kept_out r x y m usable mx off e = elim (Bool-cases (is_usable later c y)) [
        | inl k ↦
            let now_usable : is_usable now c x ≡ true =
              still x (subst (λ z. is_usable later c z ≡ true) e k) in
            let same =
              same_row (is_usable now c) s.verification_codes r x (single c) m mx usable
                now_usable in
            absurd (
              not_both (is_row now r.id r) (row_of r usable)
                (subst (λ z. is_row now r.id z ≡ false) same off))
        | inr k ↦ k
      ]
        where
          still : (x : VerificationCode) → is_usable later c x ≡ true → is_usable now c x ≡ true
          still x k = ground arith

          row_of : (r : VerificationCode) → is_usable now c r ≡ true → is_row now r.id r ≡ true
          row_of r k = rw (beq_refl r.id) (ground arith)

      unusable :
          (r : VerificationCode)
          → Member r s.verification_codes
          → is_usable now c r ≡ true
          → (y : VerificationCode)
          → Member y (update_where (is_row now r.id) (consumed_code now) s.verification_codes)
          → is_usable later c y ≡ false
      unusable r m usable y my =
          let (x, mx, e) =
            update_where-Member (is_row now r.id) (consumed_code now) y s.verification_codes my in
          elim (Bool-cases (is_row now r.id x)) [
            | inl q ↦ consumed_out x y (rw q at e)
            | inr q ↦ kept_out r x y m usable mx q (rw q at e)
          ]
