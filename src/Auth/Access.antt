-- ===== src/Auth/Access.antt =====
-- Whom the guard lets in (`backend/src/common/auth/access-token.guard.ts`).
use mathlib.Core.Path.{subst}
use ling_dian.Prelude.{
  ℕ, ◌<◌, String, Bool, true, false, ◌&&◌, ◌≡◌, refl, Option, none, some, Member, if◌then◌else◌,
  arith,
}
use ling_dian.Prelude.Int.{ℤ, pos, int_beq}
use ling_dian.Prelude.Equality.{◌==◌, string_eq, nat_eq, eq_of_beq}
use ling_dian.Prelude.Results.{
  ok, throw, or_throw, bind-eq-ok, or_throw-eq-ok, Exception, ok-injective,
}
use ling_dian.Schema.AuthEnums.{
  UserStatus, SessionStatus, auth_audience_eq, user_status_eq, session_status_eq,
}
use ling_dian.Schema.AuthRows.{User, AuthSession}
use ling_dian.Schema.Database.{Database}
use ling_dian.Db.{Prisma}
use ling_dian.Auth.Users.{AuthenticatedUser}
use ling_dian.Auth.TokenClaims.{RawClaims, bearer_token, validate_claims}
use ling_dian.Auth.Guard.{
  session_accepts, user_accepts, check_found, check_session, can_activate, no_longer_active,
}

-- The session of the claims is live, of the same user and audience; the user's account is active, at
-- the version of the claims.
pub record IsLive (now : ℕ) (user : AuthenticatedUser) (version : ℤ) (s : Database) : Type 0 where
  pub session : AuthSession
  pub stored : Member session s.auth_sessions
  pub same_session : session.id ≡ user.session_id
  pub active : session.status ≡ SessionStatus.active
  pub unexpired : now < session.expires_at
  pub same_user : session.user_id ≡ user.user_id
  pub same_audience : session.audience ≡ user.audience
  pub account : User
  pub account_stored : Member account s.users
  pub account_of : account.id ≡ session.user_id
  pub account_active : account.status ≡ UserStatus.active
  pub current : int_beq (pos account.session_version) version ≡ true

-- The request's token was verified and its claims are valid, and their session is live.
pub record IsAdmitted (verify : ℕ → String → Option RawClaims) (now : ℕ) (header : Option String)
    (s : Database) (user : AuthenticatedUser) : Type 0 where
  pub token : String
  pub sent : bearer_token header ≡ ok token
  pub claims : RawClaims
  pub verified : verify now token ≡ some claims
  pub version : ℤ
  pub valid : validate_claims claims ≡ ok (user, version)
  pub live : IsLive now user version s

both_accept :
    (a b : Bool) → (if a && b then ok tt else no_longer_active) ≡ ok tt → (a ≡ true) × (b ≡ true)
both_accept true true h = (refl, refl)
both_accept true false h = cc
both_accept false b h = cc

let_through :
    (refused : Bool) (e : Exception) (checked user : AuthenticatedUser)
    → (if refused then throw e else ok checked) ≡ ok user
    → checked ≡ user
let_through true e checked user h = cc
let_through false e checked user h = ok-injective h

module _ (db : Prisma) (verify : ℕ → String → Option RawClaims) (now : ℕ) (header : Option String)
    (s : Database) where
  session_facts :
      (user : AuthenticatedUser) (r : AuthSession)
      → session_accepts now user r ≡ true
      → (r.status ≡ SessionStatus.active)
        × (now < r.expires_at)
        × (r.user_id ≡ user.user_id)
        × (r.audience ≡ user.audience)
  session_facts user r h = (
    eq_of_beq r.status SessionStatus.active (ground arith),
    ground arith,
    eq_of_beq r.user_id user.user_id (ground arith),
    eq_of_beq r.audience user.audience (ground arith),
  )

  account_found :
      (version : ℤ) (found : Option User)
      → user_accepts version found ≡ true
      → (u : User) × (found ≡ some u)
        × (u.status ≡ UserStatus.active)
        × (int_beq (pos u.session_version) version ≡ true)
  account_found version none h = cc
  account_found version (some u) h =
      (u, refl, eq_of_beq u.status UserStatus.active (ground arith), ground arith)

  session-IsLive :
      (user : AuthenticatedUser) (version : ℤ) (found : Option AuthSession)
      → db.find_first AuthSession (λ r. r.id == user.session_id) s.auth_sessions ≡ found
      → check_found db now user version found s ≡ ok tt
      → IsLive now user version s
  session-IsLive user version none e k = cc
  session-IsLive user version (some r) e k =
      let (pr, mr) =
        db.find_first_found AuthSession (λ x. x.id == user.session_id) s.auth_sessions r e in
      let account = db.find_first User (λ u. u.id == r.user_id) s.users in
      let (accepted, accepted_user) =
        both_accept (session_accepts now user r) (user_accepts version account) k in
      let (active, unexpired, same_user, same_audience) = session_facts user r accepted in
      let (u, fu, on, current) = account_found version account accepted_user in
      let (pu, mu) = db.find_first_found User (λ u. u.id == r.user_id) s.users u fu in
      record {
        session = r;
        stored = mr;
        same_session = eq_of_beq r.id user.session_id pr;
        active = active;
        unexpired = unexpired;
        same_user = same_user;
        same_audience = same_audience;
        account = u;
        account_stored = mu;
        account_of = eq_of_beq u.id r.user_id pu;
        account_active = on;
        current = current;
      }

  admitted :
      (may : Bool) (token : String) (claims : RawClaims) (checked : AuthenticatedUser × ℤ)
      (user : AuthenticatedUser)
      → bearer_token header ≡ ok token
      → verify now token ≡ some claims
      → validate_claims claims ≡ ok checked
      → check_session db now checked.0 checked.1 s ≡ ok tt
      → checked.0 ≡ user
      → IsAdmitted verify now header s user
  admitted may token claims (checked, version) user sent verified valid passed same =
      subst (IsAdmitted verify now header s) same (record {
        token = token;
        sent = sent;
        claims = claims;
        verified = verified;
        version = version;
        valid = valid;
        live =
            session-IsLive checked version
              (db.find_first AuthSession (λ r. r.id == checked.session_id) s.auth_sessions) refl
              passed;
      })

  -- Whoever the guard lets in has a verified token with valid claims, a live session of the same
  -- user and audience, and an active account whose session version is that of the claims.
  pub can_activate-IsAdmitted :
      (may_change_password : Bool) (user : AuthenticatedUser)
      → can_activate db verify now may_change_password header s ≡ ok user
      → IsAdmitted verify now header s user
  unfolding can_activate
  can_activate-IsAdmitted may user h =
      let (token, sent, h1) = bind-eq-ok (bearer_token header) _ h in
      let (claims, e2, h2) = bind-eq-ok (or_throw (verify now token) _) _ h1 in
      let (checked, valid, h3) = bind-eq-ok (validate_claims claims) _ h2 in
      let (_, live, h4) = bind-eq-ok (check_session db now checked.0 checked.1 s) _ h3 in
      admitted may token claims checked user sent (or_throw-eq-ok (verify now token) _ e2) valid
        live (let_through _ _ checked.0 user h4)
