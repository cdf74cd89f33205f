-- ===== src/Auth/CodesSent.antt =====
-- What it means that a verification code was sent
-- (`backend/src/modules/auth/verification.service.ts`).
use mathlib.Core.Path.{subst}
use ling_dian.Prelude.{
  ◌<◌, String, ◌≡◌, refl, sym, ap, ◌∙◌, none, some, [], ◌∷◌, ◌++◌, if◌then◌else◌, count_where,
}
use ling_dian.Prelude.Results.{Result, ok, throw, ok-injective}
use ling_dian.Prelude.Equality.{nat_eq}
use ling_dian.Prelude.Actions.{lift, continue-eq-ok}
use ling_dian.Schema.Database.{Database}
use ling_dian.Db.{Prisma}
use ling_dian.Auth.Audit.{record_audit}
use ling_dian.Auth.Phone.{normalize_chinese_phone}
use ling_dian.Auth.Codes.{
  CodeKeys, CodeSeed, IssueVerificationCodeInput, VerificationIssueResult, CodeReservation,
  reserved, limited_by, hashed, hash_target, is_usable, is_active_code,
  reservation_transaction_max_attempts,
}
use ling_dian.Auth.Reservation.{new_code, count_since_an_hour, reserve_with_retry}
use ling_dian.Auth.Sending.{after_sending, send_reserved, issue}
use ling_dian.Auth.CodeLimits.{IsReserved, reserve_code-IsReserved, reserve_with_retry-eq-ok}

module _ (db : Prisma) (keys : CodeKeys) (send : String → String → Result String) (seed : CodeSeed)
    (input : IssueVerificationCodeInput) where
  -- A call of `issue` that returns has reserved a code for the number, normalized, within the limits,
  -- and wrote its row after the rows that there were.
  pub issue-IsReserved :
      (s t : Database) (result : VerificationIssueResult)
      → issue db keys send seed input s ≡ (ok result, t)
      → (phone_e164 : String) × (code : String) × (normalize_chinese_phone input.phone
          ≡ ok phone_e164)
        × (send phone_e164 code ≡ ok result.message_id)
        × (result.test_code ≡ (if keys.test then some code else none))
        × IsReserved db keys seed input phone_e164 code s t
  unfolding issue record_audit
  issue-IsReserved s t result h =
      let (phone_e164, s1, lifted, h1) =
        continue-eq-ok (lift (normalize_chinese_phone input.phone) s) _ h in
      let (reservation, s2, retried, h2) =
        continue-eq-ok
          (reserve_with_retry db keys seed input phone_e164 reservation_transaction_max_attempts s1)
          _ h1 in
      let (code, which, s2_t, accepted, shown) = sent phone_e164 reservation s2 h2 in
      let done =
        reserve_with_retry-eq-ok db keys seed input phone_e164 reservation_transaction_max_attempts
          s1 s2 reservation retried in
      let r =
        reserve_code-IsReserved db keys seed input phone_e164 s1 s2 code
          (done ∙ ap (λ x. (ok x, s2)) which) in
      (
        phone_e164,
        code,
        ap (λ x. x.0) lifted,
        accepted,
        shown,
        subst (λ x. IsReserved db keys seed input phone_e164 code x t) (sym (ap (λ x. x.1) lifted))
            (record {
              few_codes = r.few_codes;
              few_from_ip = r.few_from_ip;
              few_from_device = r.few_from_device;
              unused = r.unused;
              written = sym s2_t ∙ r.written;
            }),
      )
    where
      sent_code :
          (phone_e164 code : String) (s2 : Database) (answer : Result String)
          → after_sending db keys seed input phone_e164 code answer s2 ≡ (ok result, t)
          → (s2.verification_codes ≡ t.verification_codes)
            × (answer ≡ ok result.message_id)
            × (result.test_code ≡ (if keys.test then some code else none))
      sent_code phone_e164 code s2 (throw e) k = cc
      sent_code phone_e164 code s2 (ok id) k = (
        ap (λ x. x.1.verification_codes) k,
        ap ok (ap (λ x. x.message_id) (ok-injective (ap (λ x. x.0) k))),
        sym (ap (λ x. x.test_code) (ok-injective (ap (λ x. x.0) k))),
      )

      sent :
          (phone_e164 : String) (reservation : CodeReservation) (s2 : Database)
          → send_reserved db keys send seed input phone_e164 reservation s2 ≡ (ok result, t)
          → (code : String) × (reservation ≡ reserved code)
            × (s2.verification_codes ≡ t.verification_codes)
            × (send phone_e164 code ≡ ok result.message_id)
            × (result.test_code ≡ (if keys.test then some code else none))
      sent phone_e164 (limited_by d) s2 k = cc
      sent phone_e164 (reserved code) s2 k =
          let (same, accepted, shown) = sent_code phone_e164 code s2 (send phone_e164 code) k in
          (code, refl, same, accepted, shown)

-- A code is sent only within the limits: fewer than 3 codes of the number that were issued in the
-- last ten minutes and are usable, fewer than 10 reservations from the address and fewer than 8 from
-- the device in the last hour; and the code is not one that is usable already for the same purpose
-- and number.
pub issue_bounds :
    (db : Prisma) (keys : CodeKeys) (send : String → String → Result String) (seed : CodeSeed)
    (input : IssueVerificationCodeInput) (s t : Database) (result : VerificationIssueResult)
    → issue db keys send seed input s ≡ (ok result, t)
    → (phone_e164 : String) × (code : String) × (normalize_chinese_phone input.phone
        ≡ ok phone_e164)
      × (count_where (is_active_code seed.now (hash_target keys phone_e164)) s.verification_codes
          < 3)
      × (count_since_an_hour db keys seed.now (some input.ip) none s < 10)
      × (count_since_an_hour db keys seed.now none (some input.device_id) s < 8)
      × (t.verification_codes
          ≡ s.verification_codes ++ new_code seed (hashed keys input.purpose phone_e164 code) ∷ [])
      × (count_where
            (is_usable seed.now (hashed keys input.purpose phone_e164 code))
            s.verification_codes
          ≡ 0)
issue_bounds db keys send seed input s t result h =
    let (phone_e164, code, normalized, _, _, r) =
      issue-IsReserved db keys send seed input s t result h in
    (
      phone_e164, code, normalized, r.few_codes, r.few_from_ip, r.few_from_device, r.written,
      r.unused,
    )
