-- ===== src/Auth/CodesWork.antt =====
-- A verification code that was sent works (`backend/src/modules/auth/verification.service.ts`).
use mathlib.Core.Path.{subst}
use ling_dian.Prelude.{
  ℕ, ◌+◌, ◌<◌, String, true, ◌≡◌, refl, sym, inl, inr, List, [], ◌∷◌, ◌++◌, All, Member, arith,
  length, count_where,
}
use ling_dian.Prelude.Results.{Result, ok}
use ling_dian.Prelude.Equality.{nat_eq, string_eq, eq_of_beq, beq_refl}
use ling_dian.Prelude.Actions.{transaction}
use ling_dian.Schema.AuthEnums.{verification_purpose_eq}
use ling_dian.Schema.AuthRows.{VerificationCode}
use ling_dian.Schema.Database.{Database}
use ling_dian.Db.{Prisma, update_where, count_where-positive, UniqueBy, exactly_one}
use ling_dian.Auth.Codes.{
  CodeKeys, CodeSeed, IssueVerificationCodeInput, VerificationIssueResult, HashedCode, hashed,
  is_usable,
}
use ling_dian.Auth.Reservation.{new_code}
use ling_dian.Auth.Sending.{
  consumed_code, issue, is_row, consume_newest, consume_in_transaction, consume,
}
use ling_dian.Auth.CodesSent.{issue-IsReserved}

module _ (db : Prisma) (keys : CodeKeys) where
  Member-last : (r : VerificationCode) (t : List VerificationCode) → Member r (t ++ r ∷ [])
  Member-last r [] = inl refl
  Member-last r (x ∷ t) = inr (Member-last r t)

  -- A usable row is consumed.
  consume_usable :
      (now : ℕ) (c : HashedCode) (r : VerificationCode) (s : Database)
      → UniqueBy (λ x. x.id) s.verification_codes
      → Member r s.verification_codes
      → is_usable now c r ≡ true
      → (t : Database) × (consume_in_transaction db now c s ≡ (ok true, t))
  unfolding consume_in_transaction
  consume_usable now c r s ids m usable =
      found
        (db.find_latest VerificationCode (is_usable now c) (λ x. x.created_at) s.verification_codes)
        (db.find_latest_count VerificationCode (is_usable now c) (λ x. x.created_at)
          s.verification_codes)
        (db.find_latest_found VerificationCode (is_usable now c) (λ x. x.created_at)
          s.verification_codes)
    where
      selects : (id : String) (x : VerificationCode) → is_row now id x ≡ true → x.id ≡ id
      selects id x h = eq_of_beq x.id id (ground arith)

      row_of : (x : VerificationCode) → is_usable now c x ≡ true → is_row now x.id x ≡ true
      row_of x k = rw (beq_refl x.id) (ground arith)

      found :
          (rs : List VerificationCode)
          → length rs ≡ count_where (is_usable now c) s.verification_codes
          → All (λ x. (is_usable now c x ≡ true) × Member x s.verification_codes) rs
          → (t : Database) × (consume_newest db now rs s ≡ (ok true, t))
      found [] k a =
          let some_usable =
            count_where-positive (is_usable now c) s.verification_codes r m usable in
          absurd (omega (arith, k))
      found (x ∷ rs) k a =
          let one_row =
            exactly_one (λ y. y.id) (is_row now x.id) x.id (selects x.id) s.verification_codes x ids
              a.0.1 (row_of x a.0.0) in
          let rows =
            db.update_many_rows VerificationCode (is_row now x.id) (consumed_code now)
              s.verification_codes in
          (
            record s {
              verification_codes =
                  update_where (is_row now x.id) (consumed_code now) s.verification_codes;
            },
            rw rows (rw one_row refl),
          )

  -- A code that was sent works: for the five minutes after `issue` returned, as long as nothing else
  -- happens, `consume` accepts the code that the provider was given, for the same purpose and
  -- number. The ids of rows are unique.
  pub consume-issue :
      (send : String → String → Result String) (seed : CodeSeed)
      (input : IssueVerificationCodeInput) (s t : Database) (result : VerificationIssueResult)
      (now : ℕ)
      → now < seed.now + 300000
      → issue db keys send seed input s ≡ (ok result, t)
      → UniqueBy (λ r. r.id) t.verification_codes
      → (phone_e164 : String) × (code : String) × (send phone_e164 code ≡ ok result.message_id)
        × ((consume db keys now
              (record { purpose = input.purpose; phone = input.phone; code = code })
              t).0
            ≡ ok tt)
  unfolding consume transaction
  consume-issue send seed input s t result now early h ids =
      let (phone_e164, code, normalized, accepted, _, r) =
        issue-IsReserved db keys send seed input s t result h in
      let c = hashed keys input.purpose phone_e164 code in
      let m =
        subst (λ x. Member (new_code seed c) x) (sym r.written)
          (Member-last (new_code seed c) s.verification_codes) in
      let (_, done) = consume_usable now c (new_code seed c) t ids m (fresh now c early) in
      (phone_e164, code, accepted, rw normalized (rw done refl))
    where
      fresh :
          (now : ℕ) (c : HashedCode)
          → now < seed.now + 300000
          → is_usable now c (new_code seed c) ≡ true
      fresh now c early =
          rw (beq_refl c.purpose, beq_refl c.target, beq_refl c.hash) (ground (arith, early))
