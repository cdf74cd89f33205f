-- ===== src/Auth/Lockout.antt =====
-- Revoking a user's sessions keeps the user out (`revokeAll` of
-- `backend/src/modules/auth/session.service.ts` and the guard).
use mathlib.Core.Path.{subst}
use ling_dian.Prelude.{
  ℕ, String, Bool, false, ◌≡◌, ◌≢◌, refl, sym, ap, ◌∙◌, inl, inr, Option, none, some, List, [], ◌∷◌,
  All, All-member, if◌then◌else◌, Bool-cases, arith,
}
use ling_dian.Prelude.Equality.{◌==◌, string_eq, nat_eq, beq_refl}
use ling_dian.Prelude.Results.{Result, ok, throw}
use ling_dian.Schema.AuthEnums.{SessionStatus, auth_audience_eq, user_status_eq, session_status_eq}
use ling_dian.Schema.AuthRows.{User, AuthSession}
use ling_dian.Schema.Database.{Database}
use ling_dian.Db.{Prisma, update_where}
use ling_dian.Auth.Audit.{AuditContext, record_audit}
use ling_dian.Auth.Users.{AuthenticatedUser}
use ling_dian.Auth.Sessions.{
  SessionKeys, audit_input, is_active_of_user, revoked_session, next_version, revoke_all,
  no_such_row,
}
use ling_dian.Auth.TokenClaims.{RawClaims}
use ling_dian.Auth.Guard.{can_activate}
use ling_dian.Auth.Access.{can_activate-IsAdmitted}

All-revoked :
    (user_id : String) (now : ℕ) (t : List AuthSession)
    → All
        (λ r. r.user_id ≡ user_id → r.status ≡ SessionStatus.revoked)
        (update_where (is_active_of_user user_id) (revoked_session now) t)
All-revoked user_id now [] = tt
All-revoked user_id now (r ∷ t) = elim (Bool-cases (is_active_of_user user_id r)) [
  | inl e ↦ rw e (λ _. refl, All-revoked user_id now t)
  | inr e ↦ rw e (λ q. inactive_status r.status (off q e), All-revoked user_id now t)
]
  where
    off :
        r.user_id ≡ user_id
        → is_active_of_user user_id r ≡ false
        → (r.status == SessionStatus.active) ≡ false
    off q k = ground (arith, beq_refl user_id)

    inactive_status :
        (st : SessionStatus) → (st == SessionStatus.active) ≡ false → st ≡ SessionStatus.revoked
    inactive_status SessionStatus.active k = cc
    inactive_status SessionStatus.revoked k = refl

revoke_all-status :
    (db : Prisma) (keys : SessionKeys) (at : ℕ) (user_id : String) (context : AuditContext)
    (s t : Database)
    → revoke_all db keys at user_id context s ≡ (ok tt, t)
    → All (λ r. r.user_id ≡ user_id → r.status ≡ SessionStatus.revoked) t.auth_sessions
unfolding revoke_all record_audit
revoke_all-status db keys at user_id context s t h =
    went_through (db.update_many User (λ u. u.id == user_id) next_version s.users) h
  where
    gone :
        All
          (λ r. r.user_id ≡ user_id → r.status ≡ SessionStatus.revoked)
          (db.update_many AuthSession
            (is_active_of_user user_id)
            (revoked_session at)
            s.auth_sessions).0
    gone =
        rw
          (db.update_many_rows AuthSession (is_active_of_user user_id) (revoked_session at)
            s.auth_sessions)
          (All-revoked user_id at s.auth_sessions)

    after : List User → Result (Unit {0}) × Database
    after users = (
      ok tt,
      record_audit keys.digest at
          (audit_input "SESSION_REVOKED_ALL" (some user_id) none context none)
          (record s {
            auth_sessions =
                (db.update_many AuthSession (is_active_of_user user_id) (revoked_session at)
                  s.auth_sessions).0;
            users = users;
          }),
    )

    went_through :
        (users : List User × ℕ)
        → (if users.1 == 0 then (throw no_such_row, s) else after users.0) ≡ (ok tt, t)
        → All (λ r. r.user_id ≡ user_id → r.status ≡ SessionStatus.revoked) t.auth_sessions
    went_through (users, n) k = elim (Bool-cases (n == 0)) [
      | inl e ↦
          let q : Path (Result (Unit {0}) × Database) (throw no_such_row, s) (ok tt, t) =
            (rw e at k) in
          cc
      | inr e ↦
          let q : after users ≡ (ok tt, t) = (rw e at k) in
          subst (λ x. All (λ r. r.user_id ≡ user_id → r.status ≡ SessionStatus.revoked) x)
            (ap (λ x. x.1.auth_sessions) q) gone
    ]

-- Once all sessions of a user are revoked, the guard lets nobody in as that user, whatever token is
-- sent: no access token that was issued before goes on working.
pub revoke_all-locks_out :
    (db : Prisma) (keys : SessionKeys) (verify : ℕ → String → Option RawClaims) (at now : ℕ)
    (user_id : String) (context : AuditContext) (may_change_password : Bool)
    (header : Option String) (s t : Database) (user : AuthenticatedUser)
    → revoke_all db keys at user_id context s ≡ (ok tt, t)
    → can_activate db verify now may_change_password header t ≡ ok user
    → user.user_id ≢ user_id
revoke_all-locks_out db keys verify at now user_id context may header s t user done h same =
    let a = can_activate-IsAdmitted db verify now header t may user h in
    let gone =
      All-member _ a.live.session _ (revoke_all-status db keys at user_id context s t done)
        a.live.stored (a.live.same_user ∙ same) in
    let clash : SessionStatus.active ≡ SessionStatus.revoked = sym a.live.active ∙ gone in
    ground arith
