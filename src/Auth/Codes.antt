-- ===== src/Auth/Codes.antt =====
-- Verification codes (`VerificationService` of `backend/src/modules/auth/verification.service.ts`).
-- `hash` is the HMAC with the pepper, `send` the SMS provider. The clock, the random numbers and
-- row ids are arguments, and so is which of the tries of the serializable transaction the database
-- gives up (P2034).
use Prim.Native.String
use ling_dian.Prelude.{
  ℕ, ◌-◌, ◌*◌, String, Bool, not, ◌&&◌, Option, none, some, ltb, leb, is_some, if◌then◌else◌,
}
use ling_dian.Prelude.Equality.{◌==◌, string_eq, nat_eq}
use ling_dian.Schema.AuthEnums.{VerificationPurpose, verification_purpose_eq}
use ling_dian.Schema.AuthRows.{VerificationCode}
use ling_dian.Auth.Audit.{Digest}

-- `test` says that the program runs its tests, where it returns the code.
pub record CodeKeys : Type 0 where
  pub hash : String → String
  pub digest : Digest
  pub test : Bool

pub record IssueVerificationCodeInput : Type 0 where
  pub purpose : VerificationPurpose
  pub phone : String
  pub ip : String
  pub device_id : String

pub record ConsumeVerificationCodeInput : Type 0 where
  pub purpose : VerificationPurpose
  pub phone : String
  pub code : String

pub record VerificationIssueResult : Type 0 where
  pub message_id : String
  pub test_code : Option String

pub data RateLimitDimension : Type 0 where
  by_phone by_ip by_device : RateLimitDimension

pub data CodeReservation : Type 0 where
  reserved : String → CodeReservation
  limited_by : RateLimitDimension → CodeReservation

abbrev pub reservation_transaction_max_attempts : ℕ
reservation_transaction_max_attempts = 3

-- The clock of a call, the id of its row, its random numbers by draw, and the tries that the
-- database gives up, counted down to 0.
pub record CodeSeed : Type 0 where
  pub now : ℕ
  pub failed_at : ℕ
  pub row_id : String
  pub random_int : ℕ → ℕ
  pub conflicts : ℕ → Bool

abbrev pub purpose_text : VerificationPurpose → String
purpose_text VerificationPurpose.phone_login = "PHONE_LOGIN"
purpose_text VerificationPurpose.phone_link = "PHONE_LINK"
purpose_text VerificationPurpose.admin_login = "ADMIN_LOGIN"
purpose_text VerificationPurpose.password_reset = "PASSWORD_RESET"

unfoldable pub hash_target : CodeKeys → String → String
hash_target keys phone_e164 = keys.hash (String.◌++◌ "target:" phone_e164)

unfoldable pub hash_code : CodeKeys → VerificationPurpose → String → String → String
hash_code keys purpose phone_e164 code = keys.hash (
    String.◌++◌ (purpose_text purpose)
      (String.◌++◌ ":" (String.◌++◌ phone_e164 (String.◌++◌ ":" code))))

-- A code as the table has it: its purpose, and the hashes of its target and of itself.
pub record HashedCode : Type 0 where
  pub purpose : VerificationPurpose
  pub target : String
  pub hash : String

abbrev pub hashed : CodeKeys → VerificationPurpose → String → String → HashedCode
hashed keys purpose phone_e164 code = record {
  purpose = purpose;
  target = hash_target keys phone_e164;
  hash = hash_code keys purpose phone_e164 code;
}

abbrev pub is_unconsumed : HashedCode → VerificationCode → Bool
is_unconsumed c r =
    r.purpose == c.purpose
    && (r.target_hash == c.target && (r.code_hash == c.hash && not (is_some r.consumed_at)))

abbrev pub is_usable : ℕ → HashedCode → VerificationCode → Bool
is_usable now c r = is_unconsumed c r && ltb now r.expires_at

-- The codes of a phone that the rate limit counts.
abbrev pub is_active_code : ℕ → String → VerificationCode → Bool
is_active_code now target r =
    r.target_hash == target
    && (not (is_some r.consumed_at)
        && (leb (now - 10 * 60 * 1000) r.created_at && ltb now r.expires_at))

abbrev pub limit : ℕ → ℕ → ℕ → Option RateLimitDimension
limit phone_codes ip_reservations device_reservations =
    if leb 3 phone_codes
    then some by_phone
    else if leb 10 ip_reservations
    then some by_ip
    else if leb 8 device_reservations
    then some by_device
    else none
