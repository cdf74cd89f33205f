-- ===== src/Auth/Consumption.antt =====
-- The use of a verification code
-- (`backend/src/modules/auth/verification.service.ts`).
use mathlib.Core.Path.{subst}
use ling_dian.Prelude.{
  ℕ, ◌≤◌, String, Bool, true, false, ◌≡◌, refl, ap, ◌∙◌, List, [], ◌∷◌, arith, count_where,
}
use ling_dian.Prelude.Results.{Exception, Result, ok, throw, bad_request}
use ling_dian.Prelude.Equality.{nat_eq, string_eq}
use ling_dian.Prelude.Actions.{
  ◌>>=◌, continue, lift, transaction, rolled_back, continue-eq-ok, transaction-eq-ok,
}
use ling_dian.Schema.AuthEnums.{verification_purpose_eq}
use ling_dian.Schema.AuthRows.{VerificationCode}
use ling_dian.Schema.Database.{Database}
use ling_dian.Db.{Prisma, count_where_le}
use ling_dian.Auth.Audit.{record_audit}
use ling_dian.Auth.Phone.{normalize_chinese_phone}
use ling_dian.Auth.Codes.{CodeKeys, ConsumeVerificationCodeInput, HashedCode, hashed, is_usable}
use ling_dian.Auth.Sending.{
  consumed_code, is_row, consume_newest, consume_in_transaction, record_outcome, consume,
}
use ling_dian.Auth.SingleUse.{IsSingleUse}
use ling_dian.Auth.UsedUp.{no_rows, used_up}

abbrev pub refused : Exception
refused = bad_request "Verification code is invalid or expired."

module _ (db : Prisma) (keys : CodeKeys) where
  record_outcome-eq-ok :
      (now : ℕ) (consumed : Bool) (s t : Database)
      → record_outcome keys now consumed s ≡ (ok tt, t)
      → (consumed ≡ true) × (s.verification_codes ≡ t.verification_codes)
  unfolding record_audit
  record_outcome-eq-ok now true s t h = (refl, ap (λ x. x.1.verification_codes) h)
  record_outcome-eq-ok now false s t h = cc

  -- Other uses, each at its own time, with whatever input and result.
  pub use_all : List (ℕ × ConsumeVerificationCodeInput) → Database → Database
  use_all [] s = s
  use_all ((now, input) ∷ uses) s = use_all uses (consume db keys now input s).1

  -- A use only consumes, so it makes no row usable.
  consume-usable :
      (at now : ℕ) (c : HashedCode) (input : ConsumeVerificationCodeInput) (s : Database)
      → count_where (is_usable at c) s.verification_codes ≡ 0
      → count_where (is_usable at c) (consume db keys now input s).1.verification_codes ≡ 0
  unfolding consume transaction consume_in_transaction record_audit
  consume-usable at now c input s h = normalized (normalize_chinese_phone input.phone)
    where
      recorded :
          (r : Result Bool × Database)
          → count_where (is_usable at c) r.1.verification_codes ≡ 0
          → count_where (is_usable at c) (continue r (record_outcome keys now)).1.verification_codes
            ≡ 0
      recorded (ok true, t) k = k
      recorded (ok false, t) k = k
      recorded (throw e, t) k = k

      undone :
          (r : Result Bool × Database)
          → count_where (is_usable at c) r.1.verification_codes ≡ 0
          → count_where (is_usable at c) (rolled_back s r).1.verification_codes ≡ 0
      undone (ok r, t) k = k
      undone (throw e, t) k = h

      consumed :
          (rs : List VerificationCode)
          → count_where (is_usable at c) (consume_newest db now rs s).1.verification_codes ≡ 0
      consumed [] = h
      consumed (r ∷ rs) =
          let fewer =
            count_where_le (is_row now r.id) (is_usable at c) (consumed_code now)
              s.verification_codes (λ x k. ground arith) in
          rw
            (db.update_many_rows VerificationCode (is_row now r.id) (consumed_code now)
              s.verification_codes)
            (omega (arith, fewer, h))

      normalized :
          (p : Result String)
          → count_where
              (is_usable at c)
              (continue (lift p s) (λ phone_e164.
                transaction
                  (consume_in_transaction db now (hashed keys input.purpose phone_e164 input.code))
                >>= record_outcome keys now)).1.verification_codes
            ≡ 0
      normalized (throw e) = h
      normalized (ok phone_e164) =
          let d = hashed keys input.purpose phone_e164 input.code in
          recorded (rolled_back s (consume_in_transaction db now d s)) (
            undone (consume_in_transaction db now d s) (
              consumed (
                db.find_latest VerificationCode (is_usable now d) (λ r. r.created_at)
                  s.verification_codes)))

  use_all-usable :
      (at : ℕ) (c : HashedCode) (uses : List (ℕ × ConsumeVerificationCodeInput)) (s : Database)
      → count_where (is_usable at c) s.verification_codes ≡ 0
      → count_where (is_usable at c) (use_all uses s).verification_codes ≡ 0
  unfolding use_all
  use_all-usable at c [] s h = h
  use_all-usable at c ((now, input) ∷ uses) s h =
      use_all-usable at c uses (consume db keys now input s).1 (consume-usable at now c input s h)

  -- A code works once: where no two usable rows are for one purpose, number and code, a use that goes
  -- through makes a later use of the same purpose, number and code fail, whatever other uses of codes
  -- come between them, as long as no code is issued between them.
  pub consume_once :
      (now later : ℕ) (input : ConsumeVerificationCodeInput)
      (uses : List (ℕ × ConsumeVerificationCodeInput)) (s t : Database)
      → now ≤ later
      → IsSingleUse now s.verification_codes
      → consume db keys now input s ≡ (ok tt, t)
      → (consume db keys later input (use_all uses t)).0 ≡ throw refused
  unfolding consume transaction
  consume_once now later input uses s t order single h =
      let (phone_e164, s1, lifted, h1) =
        continue-eq-ok (lift (normalize_chinese_phone input.phone) s) _ h in
      let (consumed, s2, tx, h2) =
        continue-eq-ok
          (transaction
            (consume_in_transaction db now (hashed keys input.purpose phone_e164 input.code)) s1)
          _ h1 in
      let (yes_, same) = record_outcome-eq-ok now consumed s2 t h2 in
      let c = hashed keys input.purpose phone_e164 input.code in
      let done =
        transaction-eq-ok (consume_in_transaction db now c) s1 tx ∙ ap (λ x. (ok x, s2)) yes_ in
      let used =
        used_up db now later c s1 s2 order
          (subst (λ x. IsSingleUse now x.verification_codes) (ap (λ x. x.1) lifted) single) done in
      let none_left : count_where (is_usable later c) t.verification_codes ≡ 0 =
        subst (λ x. count_where (is_usable later c) x ≡ 0) same used in
      rw (ap (λ x. x.0) lifted)
        (rw (no_rows db later c (use_all uses t) (use_all-usable later c uses t none_left)) refl)
