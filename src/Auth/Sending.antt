-- ===== src/Auth/Sending.antt =====
-- Sending a verification code and using it (`issue` and `consume` of
-- `backend/src/modules/auth/verification.service.ts`).

use ling_dian.Prelude.{
  ℕ, String, Bool, true, false, not, ◌&&◌, none, some, List, [], ◌∷◌, ltb, is_some, if◌then◌else◌,
}
use ling_dian.Prelude.Equality.{◌==◌, string_eq, nat_eq}
use ling_dian.Prelude.Results.{Result, ok, throw, bad_request, too_many_requests}
use ling_dian.Prelude.Actions.{Action, ◌>>=◌, lift, transaction}
use ling_dian.Schema.AuthEnums.{verification_purpose_eq}
use ling_dian.Schema.AuthRows.{VerificationCode}
use ling_dian.Schema.Database.{Database}
use ling_dian.Db.{Prisma}
use ling_dian.Auth.Audit.{record_audit}
use ling_dian.Auth.Phone.{normalize_chinese_phone}
use ling_dian.Auth.Codes.{
  CodeKeys, IssueVerificationCodeInput, ConsumeVerificationCodeInput, VerificationIssueResult,
  CodeReservation, reserved, limited_by, reservation_transaction_max_attempts, CodeSeed, HashedCode,
  hashed, is_unconsumed, is_usable,
}
use ling_dian.Auth.Reservation.{code_audit, reserve_with_retry}

abbrev pub consumed_code : ℕ → VerificationCode → VerificationCode
consumed_code now r = record r { consumed_at = some now }

-- The answer of the provider: the id of the message, or an error, after which the code is taken back.
abbrev pub after_sending :
    Prisma
    → CodeKeys
    → CodeSeed
    → IssueVerificationCodeInput
    → String
    → String
    → Result String
    → Action Database VerificationIssueResult
after_sending db keys seed input phone_e164 code (throw e) s = (
  throw e,
  record s {
    verification_codes =
        (db.update_many VerificationCode (is_unconsumed (hashed keys input.purpose phone_e164 code))
          (consumed_code seed.failed_at) s.verification_codes).0;
  },
)
after_sending db keys seed input phone_e164 code (ok message_id) s = (
  ok (record { message_id = message_id; test_code = if keys.test then some code else none }),
  record_audit keys.digest seed.now (code_audit "CODE_SENT" (some input.ip) (some input.device_id))
      s,
)

abbrev pub send_reserved :
    Prisma
    → CodeKeys
    → (String → String → Result String)
    → CodeSeed
    → IssueVerificationCodeInput
    → String
    → CodeReservation
    → Action Database VerificationIssueResult
send_reserved db keys send seed input phone_e164 (limited_by d) s = (
  throw (too_many_requests "Too many verification codes requested."),
  record_audit keys.digest seed.now
      (code_audit "RATE_LIMITED" (some input.ip) (some input.device_id)) s,
)
send_reserved db keys send seed input phone_e164 (reserved code) s =
    after_sending db keys seed input phone_e164 code (send phone_e164 code) s

unfoldable pub issue :
    Prisma
    → CodeKeys
    → (String → String → Result String)
    → CodeSeed
    → IssueVerificationCodeInput
    → Action Database VerificationIssueResult
issue db keys send seed input = do
  phone_e164 ← lift (normalize_chinese_phone input.phone)
  reservation ←
      reserve_with_retry db keys seed input phone_e164 reservation_transaction_max_attempts
  send_reserved db keys send seed input phone_e164 reservation

abbrev pub is_row : ℕ → String → VerificationCode → Bool
is_row now id r = r.id == id && (not (is_some r.consumed_at) && ltb now r.expires_at)

-- The newest of the usable codes is consumed, by its id.
abbrev pub consume_newest : Prisma → ℕ → List VerificationCode → Action Database Bool
consume_newest db now [] s = (ok false, s)
consume_newest db now (r ∷ rs) s =
    let updated =
      db.update_many VerificationCode (is_row now r.id) (consumed_code now) s.verification_codes in
    (ok (updated.1 == 1), record s { verification_codes = updated.0 })

unfoldable pub consume_in_transaction : Prisma → ℕ → HashedCode → Action Database Bool
consume_in_transaction db now c s =
    consume_newest db now
      (db.find_latest VerificationCode (is_usable now c) (λ r. r.created_at) s.verification_codes) s

abbrev pub record_outcome : CodeKeys → ℕ → Bool → Action Database (Unit {0})
record_outcome keys now true s =
    (ok tt, record_audit keys.digest now (code_audit "CODE_CONSUMED" none none) s)
record_outcome keys now false s = (
  throw (bad_request "Verification code is invalid or expired."),
  record_audit keys.digest now (code_audit "CODE_REJECTED" none none) s,
)

-- `run` says in which transaction the body runs.
abbrev pub consume_by :
    (Action Database Bool → Action Database Bool)
    → Prisma
    → CodeKeys
    → ℕ
    → ConsumeVerificationCodeInput
    → Action Database (Unit {0})
consume_by run db keys now input = do
  phone_e164 ← lift (normalize_chinese_phone input.phone)
  consumed ← run (consume_in_transaction db now (hashed keys input.purpose phone_e164 input.code))
  record_outcome keys now consumed

-- A call without a transaction client has a transaction of its own.
unfoldable pub consume :
    Prisma → CodeKeys → ℕ → ConsumeVerificationCodeInput → Action Database (Unit {0})
consume = consume_by transaction

-- A call with a client is a part of the caller's transaction.
unfoldable pub consume_within :
    Prisma → CodeKeys → ℕ → ConsumeVerificationCodeInput → Action Database (Unit {0})
consume_within = consume_by λ body. body
