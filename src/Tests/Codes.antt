-- ===== src/Tests/Codes.antt =====
-- A code is sent to a phone and used.
use ling_dian.Prelude.{
  ℕ, List, ◌<◌, ◌≡◌, refl, String, true, false, none, some, [], ◌∷◌, ◌++◌, arith, count_where,
}
use ling_dian.Prelude.Decimal.{to_string}
use ling_dian.Prelude.Results.{Result, ok, throw}
use ling_dian.Prelude.Actions.{transaction}
use ling_dian.Schema.AuthEnums.{VerificationPurpose}
use ling_dian.Schema.AuthRows.{VerificationCode}
use ling_dian.Schema.Database.{Database}
use ling_dian.Db.{listed, UniqueBy}
use ling_dian.Auth.Audit.{record_audit, count_audit}
use ling_dian.Auth.Phone.{
  is_e164, normalize_chinese_phone, normalize_chinese_phone-normalize_chinese_phone,
}
use ling_dian.Auth.Codes.{
  CodeKeys, CodeSeed, IssueVerificationCodeInput, ConsumeVerificationCodeInput,
  VerificationIssueResult, hashed, hash_target, hash_code, is_usable, is_active_code,
}
use ling_dian.Auth.Reservation.{
  count_since_an_hour, new_code, unique_code, reserve_code, reserve_with_retry,
}
use ling_dian.Auth.Sending.{issue, consume_in_transaction, consume}
use ling_dian.Auth.CodesSent.{issue_bounds}
use ling_dian.Auth.SingleUse.{IsSingleUse, issue-IsSingleUse, later-IsSingleUse}
use ling_dian.Auth.Consumption.{refused, use_all, consume_once}
use ling_dian.Auth.CodesWork.{consume-issue}
use ling_dian.Tests.Samples.{empty}

abbrev keys : CodeKeys
keys = record { hash = λ s. s; digest = λ s. s; test = true }

abbrev send : String → String → Result String
send phone code = ok "m1"

abbrev seed : CodeSeed
seed = record {
  now = 1000;
  failed_at = 1000;
  row_id = "c1";
  random_int = λ i. 123456;
  conflicts = λ left. false;
}

abbrev input : IssueVerificationCodeInput
input = record {
  purpose = VerificationPurpose.phone_login;
  phone = "13800000000";
  ip = "10.0.0.1";
  device_id = "d1";
}

abbrev issued : Result VerificationIssueResult × Database
issued = issue listed keys send seed input empty

abbrev answer : VerificationIssueResult
answer = record { message_id = "m1"; test_code = some "123456" }

sent_once : issued ≡ (ok answer, issued.1)
unfolding issue normalize_chinese_phone reserve_with_retry transaction reserve_code listed
    unique_code to_string count_audit
sent_once = refl

none_yet : IsSingleUse 1000 empty.verification_codes
none_yet c = omega arith

issue_bounds_example :
    (phone_e164 : String) × (code : String) × (normalize_chinese_phone "13800000000"
      ≡ ok phone_e164)
    × (count_where (is_active_code 1000 (hash_target keys phone_e164)) [] < 3)
    × (count_since_an_hour listed keys 1000 (some "10.0.0.1") none empty < 10)
    × (count_since_an_hour listed keys 1000 none (some "d1") empty < 8)
    × (issued.1.verification_codes
        ≡ [] ++ new_code seed (hashed keys VerificationPurpose.phone_login phone_e164 code) ∷ [])
    × (count_where (is_usable 1000 (hashed keys VerificationPurpose.phone_login phone_e164 code)) []
        ≡ 0)
issue_bounds_example = issue_bounds listed keys send seed input empty issued.1 answer sent_once

issue-IsSingleUse_example : IsSingleUse 1000 issued.1.verification_codes
issue-IsSingleUse_example = issue-IsSingleUse listed keys send seed input empty none_yet

one_row : UniqueBy (λ (r : VerificationCode). r.id) issued.1.verification_codes
unfolding issue normalize_chinese_phone reserve_with_retry transaction reserve_code listed
    unique_code to_string count_audit record_audit
one_row = (tt, tt)

abbrev used_input : ConsumeVerificationCodeInput
used_input = record {
  purpose = VerificationPurpose.phone_login;
  phone = "13800000000";
  code = "123456";
}

consume-issue_example :
    (phone_e164 : String) × (code : String) × (send phone_e164 code ≡ ok "m1")
    × ((consume listed keys 2000
          (record { purpose = VerificationPurpose.phone_login; phone = "13800000000"; code = code })
          issued.1).0
        ≡ ok tt)
consume-issue_example =
    consume-issue listed keys send seed input empty issued.1 answer 2000 (omega arith) sent_once
      one_row

abbrev used : Result (Unit {0}) × Database
used = consume listed keys 2000 used_input issued.1

used_once : used ≡ (ok tt, used.1)
unfolding consume consume_in_transaction issue normalize_chinese_phone reserve_with_retry
    transaction reserve_code listed unique_code to_string count_audit record_audit hash_target
    hash_code
used_once = refl

issue-IsSingleUse_lem : IsSingleUse 1000 issued.1.verification_codes
issue-IsSingleUse_lem = issue-IsSingleUse listed keys send seed input empty none_yet

single_later : IsSingleUse 2000 issued.1.verification_codes
single_later =
    later-IsSingleUse 1000 2000 issued.1.verification_codes (omega arith) issue-IsSingleUse_lem

-- Other uses of codes come between the two.
abbrev tries : List (ℕ × ConsumeVerificationCodeInput)
tries = (2100, used_input) ∷ (2200, record used_input { code = "654321" }) ∷ []

consume_once_example :
    (consume listed keys 2500 used_input (use_all listed keys tries used.1)).0 ≡ throw refused
consume_once_example =
    consume_once listed keys 2000 2500 used_input tries issued.1 used.1 (omega arith) single_later
      used_once

in_international_form : normalize_chinese_phone "13800000000" ≡ ok "+8613800000000"
unfolding normalize_chinese_phone
in_international_form = refl

normalize_chinese_phone-normalize_chinese_phone_example :
    (is_e164 "+8613800000000" ≡ true)
    × (normalize_chinese_phone "+8613800000000" ≡ ok "+8613800000000")
normalize_chinese_phone-normalize_chinese_phone_example =
    normalize_chinese_phone-normalize_chinese_phone "13800000000" "+8613800000000"
      in_international_form
