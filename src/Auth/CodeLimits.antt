-- ===== src/Auth/CodeLimits.antt =====
-- What a reserved verification code means: the limits and the row that was written
-- (`backend/src/modules/auth/verification.service.ts`).
use mathlib.Core.Path.{subst}
use ling_dian.Prelude.{
  ℕ, zero, suc, ◌<◌, String, Bool, true, false, not, ◌&&◌, ◌≡◌, refl, sym, ap, inl, inr, Option,
  none, some, List, [], ◌∷◌, ◌++◌, Bool-cases, arith, count_where,
}
use ling_dian.Prelude.Results.{Result, ok, throw, write_conflict}
use ling_dian.Prelude.Equality.{◌==◌, nat_eq}
use ling_dian.Prelude.Decimal.{to_string}
use ling_dian.Prelude.Actions.{lift, transaction, continue-eq-ok, transaction-eq-ok}
use ling_dian.Schema.AuthRows.{VerificationCode}
use ling_dian.Schema.Database.{Database}
use ling_dian.Db.{Prisma, count_where_none}
use ling_dian.Auth.Audit.{record_audit}
use ling_dian.Auth.Codes.{
  CodeKeys, CodeSeed, IssueVerificationCodeInput, CodeReservation, reserved, HashedCode,
  RateLimitDimension, hashed, hash_target, is_usable, is_active_code, limit,
}
use ling_dian.Auth.Reservation.{
  limited, unique_code, new_code, write_code, count_since_an_hour, reserve_unless, reserve_code,
  try_reserve, keep_or_retry, reserve_with_retry, is_write_conflict,
}

module _ (db : Prisma) where
  -- A code that the loop settles on is not usable yet.
  pub unique_code-eq-ok :
      (code_of : String → HashedCode) (random_int : ℕ → ℕ) (now left i : ℕ)
      (rows : List VerificationCode) (code : String)
      → unique_code db code_of random_int now left i rows ≡ ok code
      → count_where (is_usable now (code_of code)) rows ≡ 0
  unfolding unique_code
  unique_code-eq-ok code_of random_int now zero i rows code h = cc
  unique_code-eq-ok code_of random_int now (suc left) i rows code h =
      drawn
        (db.find_first VerificationCode (is_usable now (code_of (to_string (random_int i)))) rows)
        refl (unique_code-eq-ok code_of random_int now left (suc i) rows code) h
    where
      drawn :
          (o : Option VerificationCode)
          → db.find_first VerificationCode (is_usable now (code_of (to_string (random_int i)))) rows
            ≡ o
          → (unique_code db code_of random_int now left (suc i) rows ≡ ok code
              → count_where (is_usable now (code_of code)) rows ≡ 0)
          → (elim o [
            | none ↦ ok (to_string (random_int i))
            | some r ↦ unique_code db code_of random_int now left (suc i) rows
          ])
            ≡ ok code
          → count_where (is_usable now (code_of code)) rows ≡ 0
      drawn none e later k =
          let same : to_string (random_int i) ≡ code = cc in
          subst (λ x. count_where (is_usable now (code_of x)) rows ≡ 0) same
            (count_where_none (is_usable now (code_of (to_string (random_int i)))) rows (
              db.find_first_missing VerificationCode
                (is_usable now (code_of (to_string (random_int i)))) rows e))
      drawn (some r) e later k = later k

  limit-eq-none : (a b c : ℕ) → limit a b c ≡ none → (a < 3) × (b < 10) × (c < 8)
  limit-eq-none a b c h = ground arith

-- What a reservation that gave out a code says of the database before it and after it.
pub record IsReserved (db : Prisma) (keys : CodeKeys) (seed : CodeSeed)
    (input : IssueVerificationCodeInput) (phone_e164 code : String) (s t : Database) : Type 0 where
  pub few_codes :
      count_where (is_active_code seed.now (hash_target keys phone_e164)) s.verification_codes < 3
  pub few_from_ip : count_since_an_hour db keys seed.now (some input.ip) none s < 10
  pub few_from_device : count_since_an_hour db keys seed.now none (some input.device_id) s < 8
  pub unused :
      count_where
        (is_usable seed.now (hashed keys input.purpose phone_e164 code))
        s.verification_codes
      ≡ 0
  pub written :
      t.verification_codes
      ≡ s.verification_codes ++ new_code seed (hashed keys input.purpose phone_e164 code) ∷ []

module _ (db : Prisma) (keys : CodeKeys) (seed : CodeSeed) (input : IssueVerificationCodeInput)
    (phone_e164 : String) where
  abbrev Limits : Database → Type 0
  Limits s =
      (count_where (is_active_code seed.now (hash_target keys phone_e164)) s.verification_codes < 3)
      × (count_since_an_hour db keys seed.now (some input.ip) none s < 10)
      × (count_since_an_hour db keys seed.now none (some input.device_id) s < 8)

  limited-eq-none : (s : Database) → limited db keys seed.now input phone_e164 s ≡ none → Limits s
  limited-eq-none s e =
      let (few, ip, device) =
        limit-eq-none db
          (db.count VerificationCode (is_active_code seed.now (hash_target keys phone_e164))
            s.verification_codes)
          (count_since_an_hour db keys seed.now (some input.ip) none s)
          (count_since_an_hour db keys seed.now none (some input.device_id) s) e in
      (
        subst (λ n. n < 3)
            (db.count_rows VerificationCode (is_active_code seed.now (hash_target keys phone_e164))
              s.verification_codes)
            few,
        ip,
        device,
      )

  reserved-injective :
      (a b : String) (s t : Database)
      → Path (Result CodeReservation × Database) (ok (reserved a), s) (ok (reserved b), t)
      → a ≡ b
  reserved-injective a b s t h = cc

  written_as :
      (s t : Database) (drawn code : String)
      → Limits s
      → count_where
          (is_usable seed.now (hashed keys input.purpose phone_e164 drawn))
          s.verification_codes
        ≡ 0
      → write_code keys seed input phone_e164 drawn s ≡ (ok (reserved code), t)
      → IsReserved db keys seed input phone_e164 code s t
  unfolding record_audit
  written_as s t drawn code (few, ip, device) free wrote =
      subst (λ x. IsReserved db keys seed input phone_e164 x s t)
        (reserved-injective drawn code _ t wrote)
        (record {
          few_codes = few;
          few_from_ip = ip;
          few_from_device = device;
          unused = free;
          written = sym (ap (λ x. x.1.verification_codes) wrote);
        })

  pub reserve_code-IsReserved :
      (s t : Database) (code : String)
      → reserve_code db keys seed input phone_e164 s ≡ (ok (reserved code), t)
      → IsReserved db keys seed input phone_e164 code s t
  unfolding reserve_code record_audit
  reserve_code-IsReserved s t code h = checked (limited db keys seed.now input phone_e164 s) refl h
    where
      checked :
          (o : Option RateLimitDimension)
          → limited db keys seed.now input phone_e164 s ≡ o
          → reserve_unless o db keys seed input phone_e164 s ≡ (ok (reserved code), t)
          → IsReserved db keys seed input phone_e164 code s t
      checked (some d) e k = cc
      checked none e k =
          let code_of = hashed keys input.purpose phone_e164 in
          let draw = unique_code db code_of seed.random_int seed.now 10 0 s.verification_codes in
          let (drawn, s', lifted, wrote) =
            continue-eq-ok (lift draw s) (write_code keys seed input phone_e164) k in
          let free =
            unique_code-eq-ok db code_of seed.random_int seed.now 10 0 s.verification_codes drawn
              (ap (λ x. x.0) lifted) in
          written_as s t drawn code (limited-eq-none s e) free (
            subst (λ x. write_code keys seed input phone_e164 drawn x ≡ (ok (reserved code), t))
              (sym (ap (λ x. x.1) lifted)) wrote)

  -- The tries of the transaction give back what the one that went through did.
  pub reserve_with_retry-eq-ok :
      (left : ℕ) (s t : Database) (r : CodeReservation)
      → reserve_with_retry db keys seed input phone_e164 left s ≡ (ok r, t)
      → reserve_code db keys seed input phone_e164 s ≡ (ok r, t)
  unfolding reserve_with_retry
  reserve_with_retry-eq-ok zero s t r h = cc
  reserve_with_retry-eq-ok (suc left) s t r h =
      tried (seed.conflicts left) (reserve_with_retry-eq-ok left s t r) h
    where
      kept :
          (tried again : Result CodeReservation × Database)
          → (again ≡ (ok r, t) → reserve_code db keys seed input phone_e164 s ≡ (ok r, t))
          → (tried ≡ (ok r, t) → reserve_code db keys seed input phone_e164 s ≡ (ok r, t))
          → keep_or_retry tried left again ≡ (ok r, t)
          → reserve_code db keys seed input phone_e164 s ≡ (ok r, t)
      kept (ok r', t') again f g k = g k
      kept (throw e, t') again f g k = elim (Bool-cases (is_write_conflict e && not (left == 0))) [
        | inl q ↦ f (rw q at k)
        | inr q ↦
            let k' : Path (Result CodeReservation × Database) (throw e, t') (ok r, t) =
              (rw q at k) in
            cc
      ]

      tried :
          (conflict : Bool)
          → (reserve_with_retry db keys seed input phone_e164 left s ≡ (ok r, t)
              → reserve_code db keys seed input phone_e164 s ≡ (ok r, t))
          → keep_or_retry
              (try_reserve db keys seed input phone_e164 conflict s)
              left
              (reserve_with_retry db keys seed input phone_e164 left s)
            ≡ (ok r, t)
          → reserve_code db keys seed input phone_e164 s ≡ (ok r, t)
      tried true f k =
          kept (throw write_conflict, s) (reserve_with_retry db keys seed input phone_e164 left s) f
            (λ q. cc) k
      tried false f k =
          kept (transaction (reserve_code db keys seed input phone_e164) s)
            (reserve_with_retry db keys seed input phone_e164 left s) f
            (transaction-eq-ok (reserve_code db keys seed input phone_e164) s) k
