-- ===== src/Auth/Reservation.antt =====
-- The reservation of a verification code: its limits, its number, and the retried transaction
-- (`reserveCode`, `uniqueCode` and `reserveWithRetry` of
-- `backend/src/modules/auth/verification.service.ts`).

use ling_dian.Prelude.{
  ℕ, zero, suc, ◌+◌, ◌-◌, ◌*◌, String, Bool, true, false, not, ◌&&◌, Option, none, some, List, [],
  ◌∷◌, ◌++◌, if◌then◌else◌,
}
use ling_dian.Prelude.Equality.{◌==◌, string_eq, nat_eq}
use ling_dian.Prelude.Decimal.{to_string}
use ling_dian.Prelude.Results.{Exception, Result, ok, throw, internal_error, write_conflict}
use ling_dian.Prelude.Actions.{Action, ◌>>=◌, pure, fail, lift, transaction}
use ling_dian.Schema.AuthEnums.{verification_purpose_eq}
use ling_dian.Schema.AuthRows.{VerificationCode}
use ling_dian.Schema.Database.{Database}
use ling_dian.Db.{Prisma}
use ling_dian.Auth.Audit.{AuthAuditInput, record_audit, count_audit}
use ling_dian.Auth.Codes.{
  CodeKeys, IssueVerificationCodeInput, RateLimitDimension, CodeReservation, reserved, limited_by,
  CodeSeed, hash_target, HashedCode, hashed, is_usable, is_active_code, limit,
}

-- The loop of `uniqueCode`, with the draws that are left and the number of this draw.
unfoldable pub unique_code :
    Prisma → (String → HashedCode) → (ℕ → ℕ) → ℕ → ℕ → ℕ → List VerificationCode → Result String
unique_code db code_of random_int now zero i rows =
    throw (internal_error "Could not allocate a verification code.")
unique_code db code_of random_int now (suc left) i rows =
    let code = to_string (random_int i) in
    elim (db.find_first VerificationCode (is_usable now (code_of code)) rows) [
      | none ↦ ok code
      | some r ↦ unique_code db code_of random_int now left (suc i) rows
    ]

abbrev pub new_code : CodeSeed → HashedCode → VerificationCode
new_code seed c = record {
  id = seed.row_id;
  purpose = c.purpose;
  target_hash = c.target;
  code_hash = c.hash;
  expires_at = seed.now + 5 * 60 * 1000;
  consumed_at = none;
  created_at = seed.now;
}

abbrev pub code_audit : String → Option String → Option String → AuthAuditInput
code_audit event ip device = record {
  event = event;
  user_id = none;
  session_id = none;
  ip = ip;
  device = device;
  reason = none;
}

abbrev pub write_code :
    CodeKeys
    → CodeSeed
    → IssueVerificationCodeInput
    → String
    → String
    → Action Database CodeReservation
write_code keys seed input phone_e164 code s = (
  ok (reserved code),
  record_audit keys.digest seed.now
      (code_audit "CODE_RESERVATION" (some input.ip) (some input.device_id))
      (record s {
        verification_codes =
            s.verification_codes ++ new_code seed (hashed keys input.purpose phone_e164 code) ∷ [];
      }),
)

abbrev pub count_since_an_hour :
    Prisma → CodeKeys → ℕ → Option String → Option String → Database → ℕ
count_since_an_hour db keys now ip device s =
    count_audit db keys.digest "CODE_RESERVATION" (record { ip = ip; device = device })
      (now - 60 * 60 * 1000) s

abbrev pub limited :
    Prisma
    → CodeKeys
    → ℕ
    → IssueVerificationCodeInput
    → String
    → Database
    → Option RateLimitDimension
limited db keys now input phone_e164 s =
    limit
      (db.count VerificationCode (is_active_code now (hash_target keys phone_e164))
        s.verification_codes)
      (count_since_an_hour db keys now (some input.ip) none s)
      (count_since_an_hour db keys now none (some input.device_id) s)

abbrev pub reserve_unless :
    Option RateLimitDimension
    → Prisma
    → CodeKeys
    → CodeSeed
    → IssueVerificationCodeInput
    → String
    → Action Database CodeReservation
reserve_unless (some d) db keys seed input phone_e164 = pure (limited_by d)
reserve_unless none db keys seed input phone_e164 = λ s.
    (lift (
          unique_code db (hashed keys input.purpose phone_e164) seed.random_int seed.now 10 0
            s.verification_codes)
        >>= write_code keys seed input phone_e164)
      s

unfoldable pub reserve_code :
    Prisma
    → CodeKeys
    → CodeSeed
    → IssueVerificationCodeInput
    → String
    → Action Database CodeReservation
reserve_code db keys seed input phone_e164 s =
    reserve_unless (limited db keys seed.now input phone_e164 s) db keys seed input phone_e164 s

abbrev pub is_write_conflict : Exception → Bool
is_write_conflict write_conflict = true
is_write_conflict _ = false

-- The transaction of one try.
abbrev pub try_reserve :
    Prisma
    → CodeKeys
    → CodeSeed
    → IssueVerificationCodeInput
    → String
    → Bool
    → Action Database CodeReservation
try_reserve db keys seed input phone_e164 true = fail write_conflict
try_reserve db keys seed input phone_e164 false =
    transaction (reserve_code db keys seed input phone_e164)

abbrev pub keep_or_retry :
    Result CodeReservation × Database
    → ℕ
    → Result CodeReservation × Database
    → Result CodeReservation × Database
keep_or_retry (ok r, t) left again = (ok r, t)
keep_or_retry (throw e, t) left again =
    if is_write_conflict e && not (left == 0) then again else (throw e, t)

unfoldable pub reserve_with_retry :
    Prisma
    → CodeKeys
    → CodeSeed
    → IssueVerificationCodeInput
    → String
    → ℕ
    → Action Database CodeReservation
reserve_with_retry db keys seed input phone_e164 zero s =
    (throw (internal_error "Could not reserve a verification code."), s)
reserve_with_retry db keys seed input phone_e164 (suc left) s =
    let again = reserve_with_retry db keys seed input phone_e164 left s in
    keep_or_retry (try_reserve db keys seed input phone_e164 (seed.conflicts left) s) left again
