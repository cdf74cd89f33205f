-- ===== src/Auth/SingleUse.antt =====
-- A verification code is usable at most once (`backend/src/modules/auth/verification.service.ts`).
use ling_dian.Prelude.{
  ℕ, zero, suc, ◌≤◌, String, Bool, true, false, not, ◌&&◌, ◌≡◌, refl, inl, inr, Option, none, some,
  List, [], ◌∷◌, ◌++◌, Bool-cases, arith, count_where,
}
use ling_dian.Prelude.Results.{Result, ok, throw, write_conflict}
use ling_dian.Prelude.Equality.{◌==◌, nat_eq, string_eq, eq_of_beq}
use ling_dian.Prelude.Actions.{◌>>=◌, continue, lift, transaction, rolled_back}
use ling_dian.Schema.AuthEnums.{verification_purpose_eq}
use ling_dian.Schema.AuthRows.{VerificationCode}
use ling_dian.Schema.Database.{Database}
use ling_dian.Db.{Prisma, update_where, count_where_le, count_where-weaker, count_where-append_one}
use ling_dian.Auth.Audit.{record_audit}
use ling_dian.Auth.Phone.{normalize_chinese_phone}
use ling_dian.Auth.Codes.{
  CodeKeys, CodeSeed, IssueVerificationCodeInput, CodeReservation, reserved, limited_by, HashedCode,
  RateLimitDimension, hashed, is_unconsumed, is_usable, reservation_transaction_max_attempts,
}
use ling_dian.Auth.Reservation.{
  limited, unique_code, new_code, write_code, reserve_unless, reserve_code, try_reserve,
  is_write_conflict, keep_or_retry, reserve_with_retry,
}
use ling_dian.Auth.Sending.{consumed_code, after_sending, send_reserved, issue}
use ling_dian.Auth.CodeLimits.{unique_code-eq-ok}

-- No two usable rows are for one purpose, number and code.
abbrev pub IsSingleUse : ℕ → List VerificationCode → Type 0
IsSingleUse now t = (c : HashedCode) → count_where (is_usable now c) t ≤ 1

usable_later :
    (now later : ℕ) (c : HashedCode) (r : VerificationCode)
    → now ≤ later
    → is_usable later c r ≡ true
    → is_usable now c r ≡ true
usable_later now later c r h k = ground arith

-- Time passes: rows expire.
pub later-IsSingleUse :
    (now later : ℕ) (t : List VerificationCode)
    → now ≤ later
    → IsSingleUse now t
    → IsSingleUse later t
later-IsSingleUse now later t h single c =
    let fewer =
      count_where-weaker (is_usable now c) (is_usable later c) t
        (λ r. usable_later now later c r h) in
    let old = single c in omega arith

-- A row is for one code only.
usable_as :
    (now : ℕ) (c d : HashedCode) (r : VerificationCode)
    → is_usable now c r ≡ true
    → r.purpose ≡ d.purpose
    → r.target_hash ≡ d.target
    → r.code_hash ≡ d.hash
    → c ≡ d
usable_as now c d r h p q k =
    let purpose = eq_of_beq r.purpose c.purpose (ground arith) in
    let target = eq_of_beq r.target_hash c.target (ground arith) in
    let hash = eq_of_beq r.code_hash c.hash (ground arith) in cc

append-IsSingleUse :
    (now : ℕ) (c : HashedCode) (r : VerificationCode) (t : List VerificationCode)
    → r.purpose ≡ c.purpose
    → r.target_hash ≡ c.target
    → r.code_hash ≡ c.hash
    → count_where (is_usable now c) t ≡ 0
    → IsSingleUse now t
    → IsSingleUse now (t ++ r ∷ [])
append-IsSingleUse now c r t p q k unused single d = elim (Bool-cases (is_usable now d r)) [
  | inl e ↦
      let same = usable_as now d c r e p q k in
      rw (count_where-append_one (is_usable now d) t r) (rw e (rw same (rw unused (omega arith))))
  | inr e ↦
      let old = single d in rw (count_where-append_one (is_usable now d) t r) (rw e (omega arith))
]

pub consumed-IsSingleUse :
    (now at : ℕ) (p : VerificationCode → Bool) (t : List VerificationCode)
    → IsSingleUse now t
    → IsSingleUse now (update_where p (consumed_code at) t)
consumed-IsSingleUse now at p t single c =
    let less = count_where_le p (is_usable now c) (consumed_code at) t (λ r h. ground arith) in
    let old = single c in omega arith

module _ (db : Prisma) (keys : CodeKeys) (seed : CodeSeed) (input : IssueVerificationCodeInput)
    (phone_e164 : String) where
  abbrev Single : Database → Type 0
  Single s = IsSingleUse seed.now s.verification_codes

  reserve_code-Single :
      (s : Database) → Single s → Single (reserve_code db keys seed input phone_e164 s).1
  unfolding reserve_code record_audit
  reserve_code-Single s h = checked (limited db keys seed.now input phone_e164 s)
    where
      code_of : String → HashedCode
      code_of = hashed keys input.purpose phone_e164

      drawn :
          (draw : Result String)
          → ((code : String)
              → draw ≡ ok code
              → count_where (is_usable seed.now (code_of code)) s.verification_codes ≡ 0)
          → Single (continue (lift draw s) (write_code keys seed input phone_e164)).1
      drawn (throw e) free = h
      drawn (ok code) free =
          append-IsSingleUse seed.now (code_of code) (new_code seed (code_of code))
            s.verification_codes refl refl refl (free code refl) h

      checked :
          (o : Option RateLimitDimension)
          → Single (reserve_unless o db keys seed input phone_e164 s).1
      checked (some d) = h
      checked none =
          drawn (unique_code db code_of seed.random_int seed.now 10 0 s.verification_codes) (λ code.
            unique_code-eq-ok db code_of seed.random_int seed.now 10 0 s.verification_codes code)

  reserve_with_retry-Single :
      (left : ℕ) (s : Database)
      → Single s
      → Single (reserve_with_retry db keys seed input phone_e164 left s).1
  unfolding reserve_with_retry transaction
  reserve_with_retry-Single zero s h = h
  reserve_with_retry-Single (suc left) s h =
      tried (seed.conflicts left) (reserve_with_retry-Single left s h)
    where
      kept :
          (tried again : Result CodeReservation × Database)
          → Single again.1
          → Single tried.1
          → Single (keep_or_retry tried left again).1
      kept (ok r, t) again f g = g
      kept (throw e, t) again f g = elim (Bool-cases (is_write_conflict e && not (left == 0))) [
        | inl q ↦ rw q f
        | inr q ↦ rw q g
      ]

      undone : (r : Result CodeReservation × Database) → Single r.1 → Single (rolled_back s r).1
      undone (ok r, t) k = k
      undone (throw e, t) k = h

      tried :
          (conflict : Bool)
          → Single (reserve_with_retry db keys seed input phone_e164 left s).1
          → Single
              (keep_or_retry
                (try_reserve db keys seed input phone_e164 conflict s)
                left
                (reserve_with_retry db keys seed input phone_e164 left s)).1
      tried true f =
          kept (throw write_conflict, s) (reserve_with_retry db keys seed input phone_e164 left s) f
            h
      tried false f =
          kept (transaction (reserve_code db keys seed input phone_e164) s)
            (reserve_with_retry db keys seed input phone_e164 left s) f
            (undone (reserve_code db keys seed input phone_e164 s) (reserve_code-Single s h))

  send_reserved-Single :
      (send : String → String → Result String) (r : CodeReservation) (s : Database)
      → Single s
      → Single (send_reserved db keys send seed input phone_e164 r s).1
  unfolding record_audit
  send_reserved-Single send (limited_by d) s h = h
  send_reserved-Single send (reserved code) s h = answered (send phone_e164 code)
    where
      answered :
          (a : Result String) → Single (after_sending db keys seed input phone_e164 code a s).1
      answered (ok id) = h
      answered (throw e) =
          rw
            (db.update_many_rows VerificationCode
              (is_unconsumed (hashed keys input.purpose phone_e164 code))
              (consumed_code seed.failed_at) s.verification_codes)
            (consumed-IsSingleUse seed.now seed.failed_at _ s.verification_codes h)

-- Issuing a code, whatever the call returns, whatever the provider answers and however often the
-- transaction is given up, keeps at most one usable row for each purpose, number and code.
pub issue-IsSingleUse :
    (db : Prisma) (keys : CodeKeys) (send : String → String → Result String) (seed : CodeSeed)
    (input : IssueVerificationCodeInput) (s : Database)
    → IsSingleUse seed.now s.verification_codes
    → IsSingleUse seed.now (issue db keys send seed input s).1.verification_codes
unfolding issue
issue-IsSingleUse db keys send seed input s h = normalized (normalize_chinese_phone input.phone)
  where
    retried :
        (phone_e164 : String) (r : Result CodeReservation × Database)
        → IsSingleUse seed.now r.1.verification_codes
        → IsSingleUse seed.now
            (continue r (send_reserved db keys send seed input phone_e164)).1.verification_codes
    retried phone_e164 (ok reservation, t) k =
        send_reserved-Single db keys seed input phone_e164 send reservation t k
    retried phone_e164 (throw e, t) k = k

    normalized :
        (p : Result String)
        → IsSingleUse seed.now
            (continue (lift p s) (λ phone_e164.
              reserve_with_retry db keys seed input phone_e164 reservation_transaction_max_attempts
              >>= send_reserved db keys send seed input phone_e164)).1.verification_codes
    normalized (throw e) = h
    normalized (ok phone_e164) =
        retried phone_e164
          (reserve_with_retry db keys seed input phone_e164 reservation_transaction_max_attempts s)
          (reserve_with_retry-Single db keys seed input phone_e164
            reservation_transaction_max_attempts s h)
