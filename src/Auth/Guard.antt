-- ===== src/Auth/Guard.antt =====
-- The guard of every authenticated endpoint (`canActivate` of
-- `backend/src/common/auth/access-token.guard.ts`). `verify` is the verification of a
-- JWT: its claims as JSON, or `none` if the token is invalid or has expired.
use ling_dian.Prelude.{ℕ, String, Bool, false, not, ◌&&◌, Option, none, some, ltb, if◌then◌else◌}
use ling_dian.Prelude.Int.{ℤ, pos, int_beq}
use ling_dian.Prelude.Equality.{◌==◌, string_eq, nat_eq}
use ling_dian.Prelude.Results.{Result, ok, throw, bind, or_throw, unauthorized, forbidden}
use ling_dian.Schema.AuthEnums.{
  UserStatus, SessionStatus, auth_audience_eq, user_status_eq, session_status_eq,
}
use ling_dian.Schema.AuthRows.{User, AuthSession}
use ling_dian.Schema.Database.{Database}
use ling_dian.Db.{Prisma}
use ling_dian.Auth.Users.{AuthenticatedUser}
use ling_dian.Auth.TokenClaims.{RawClaims, bearer_token, validate_claims}

abbrev pub no_longer_active : Result (Unit {0})
no_longer_active = throw (unauthorized "Access token session is no longer active.")

abbrev pub user_accepts : ℤ → Option User → Bool
user_accepts version none = false
user_accepts version (some u) =
    u.status == UserStatus.active && int_beq (pos u.session_version) version

abbrev pub session_accepts : ℕ → AuthenticatedUser → AuthSession → Bool
session_accepts now user r =
    r.status == SessionStatus.active
    && (ltb now r.expires_at && (r.user_id == user.user_id && r.audience == user.audience))

abbrev pub check_found :
    Prisma → ℕ → AuthenticatedUser → ℤ → Option AuthSession → Database → Result (Unit {0})
check_found db now user version none s = no_longer_active
check_found db now user version (some r) s =
    if session_accepts now user r
      && user_accepts version (db.find_first User (λ u. u.id == r.user_id) s.users)
    then ok tt
    else no_longer_active

abbrev pub check_session : Prisma → ℕ → AuthenticatedUser → ℤ → Database → Result (Unit {0})
check_session db now user version s =
    check_found db now user version
      (db.find_first AuthSession (λ r. r.id == user.session_id) s.auth_sessions) s

-- `may_change_password` says that the endpoint is open to users who must change their password.
unfoldable pub can_activate :
    Prisma
    → (ℕ → String → Option RawClaims)
    → ℕ
    → Bool
    → Option String
    → Database
    → Result AuthenticatedUser
can_activate db verify now may_change_password header s = bind (bearer_token header) λ token.
    bind (or_throw (verify now token) (unauthorized "Access token is invalid or expired."))
      λ claims. bind (validate_claims claims) λ checked.
        bind (check_session db now checked.0 checked.1 s) λ _.
          if checked.0.must_change_password && not may_change_password
          then throw (forbidden "Password change is required before using this endpoint.")
          else ok checked.0
