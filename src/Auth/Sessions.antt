-- ===== src/Auth/Sessions.antt =====
-- Sessions (`SessionService` of `backend/src/modules/auth/session.service.ts`). `hash` is the HMAC of
-- a token with the pepper, `sign` the signing of an access token; the clock and random tokens are
-- arguments. Every part of it but the exchange of a refresh token is here.
use ling_dian.Prelude.{
  ℕ, suc, ◌+◌, ◌*◌, String, Bool, ◌&&◌, Option, none, some, [], or_else, if◌then◌else◌,
}
use ling_dian.Prelude.Equality.{◌==◌, string_eq, nat_eq, option_eq}
use ling_dian.Prelude.Results.{Exception, ok, throw, other_error}
use ling_dian.Prelude.Actions.{Action}
use ling_dian.Schema.AuthEnums.{
  AuthAudience, SessionStatus, auth_audience_eq, session_status_eq, user_status_eq,
}
use ling_dian.Schema.AuthRows.{User, AuthSession}
use ling_dian.Schema.Database.{Database}
use ling_dian.Db.{Prisma}
use ling_dian.Auth.Audit.{AuthAuditInput, AuditContext, Digest, record_audit}
use ling_dian.Auth.Users.{AuthenticatedUser, SessionUser, to_authenticated_user}

-- `AccessTokenClaims`.
pub record AccessTokenClaims : Type 0 where
  pub user : AuthenticatedUser
  pub session_version : ℕ

-- What the service is made with: the hash of tokens, the signer, the digest of the audit log, and
-- the life times of its settings.
pub record SessionKeys : Type 0 where
  pub hash : String → String
  pub sign : ℕ → ℕ → AccessTokenClaims → String
  pub digest : Digest
  pub access_token_ttl_seconds : ℕ
  pub refresh_token_ttl_days : ℕ

pub record SessionTokens : Type 0 where
  pub access_token : String
  pub refresh_token : String
  pub expires_in : ℕ
  pub user : AuthenticatedUser

-- The clock and the random values of a call.
pub record SessionSeed : Type 0 where
  pub now : ℕ
  pub session_id : String
  pub refresh_token : String

abbrev pub issue_tokens : SessionKeys → SessionSeed → AuthenticatedUser → ℕ → SessionTokens
issue_tokens keys seed user session_version = record {
  access_token =
      keys.sign seed.now keys.access_token_ttl_seconds
        (record { user = user; session_version = session_version });
  refresh_token = seed.refresh_token;
  expires_in = keys.access_token_ttl_seconds;
  user = user;
}

abbrev pub audit_input :
    String → Option String → Option String → AuditContext → Option String → AuthAuditInput
audit_input event user_id session_id context reason = record {
  event = event;
  user_id = user_id;
  session_id = session_id;
  ip = context.ip;
  device = context.device;
  reason = reason;
}

abbrev pub is_device_session : String → AuthAudience → String → AuthSession → Bool
is_device_session user_id audience device r =
    r.user_id == user_id && (r.audience == audience && r.device == device)

abbrev pub day_ms : ℕ
day_ms = 24 * 60 * 60 * 1000

abbrev pub new_session : SessionKeys → SessionSeed → String → AuthAudience → String → AuthSession
new_session keys seed user_id audience device = record {
  id = seed.session_id;
  user_id = user_id;
  audience = audience;
  refresh_token_hash = keys.hash seed.refresh_token;
  previous_refresh_token_hash = none;
  refresh_token_history = [];
  device = device;
  status = SessionStatus.active;
  expires_at = seed.now + keys.refresh_token_ttl_days * day_ms;
  revoked_at = none;
}

abbrev pub renewed_session : SessionKeys → SessionSeed → AuthSession → AuthSession
renewed_session keys seed r = record r {
  refresh_token_hash = keys.hash seed.refresh_token;
  previous_refresh_token_hash = none;
  refresh_token_history = [];
  status = SessionStatus.active;
  expires_at = seed.now + keys.refresh_token_ttl_days * day_ms;
  revoked_at = none;
}

-- One session for each user, audience and device.
unfoldable pub create_session :
    Prisma
    → SessionKeys
    → SessionSeed
    → SessionUser
    → AuthAudience
    → String
    → AuditContext
    → Action Database SessionTokens
create_session db keys seed user audience device context s =
    let stored =
      db.upsert AuthSession (is_device_session user.id audience device)
        (new_session keys seed user.id audience device) (renewed_session keys seed)
        s.auth_sessions in
    let shown = to_authenticated_user user stored.0.id audience in
    (
      ok (issue_tokens keys seed shown user.session_version),
      record_audit keys.digest seed.now
          (audit_input "SESSION_CREATED" (some user.id) (some stored.0.id)
            (record { ip = context.ip; device = some (or_else context.device device) }) none)
          (record s { auth_sessions = stored.1 }),
    )

abbrev pub is_active_session : String → AuthSession → Bool
is_active_session id r = r.id == id && r.status == SessionStatus.active

abbrev pub revoked_session : ℕ → AuthSession → AuthSession
revoked_session now r = record r { status = SessionStatus.revoked; revoked_at = some now }

unfoldable pub revoke :
    Prisma → SessionKeys → ℕ → String → AuditContext → String → Database → Database
revoke db keys now session_id context reason s =
    record_audit keys.digest now
      (audit_input "SESSION_REVOKED" none (some session_id) context (some reason))
      (record s {
        auth_sessions =
            (db.update_many AuthSession (is_active_session session_id) (revoked_session now)
              s.auth_sessions).0;
      })

abbrev pub is_active_of_user : String → AuthSession → Bool
is_active_of_user user_id r = r.user_id == user_id && r.status == SessionStatus.active

abbrev pub next_version : User → User
next_version u = record u { session_version = suc u.session_version }

-- P2025: `update` found no row.
abbrev pub no_such_row : Exception
no_such_row = other_error "Record to update not found."

-- The two writes are one transaction.
unfoldable pub revoke_all :
    Prisma → SessionKeys → ℕ → String → AuditContext → Action Database (Unit {0})
revoke_all db keys now user_id context s =
    let users = db.update_many User (λ u. u.id == user_id) next_version s.users in
    if users.1 == 0 then (throw no_such_row, s) else (
      ok tt,
      record_audit keys.digest now
          (audit_input "SESSION_REVOKED_ALL" (some user_id) none context none)
          (record s {
            auth_sessions =
                (db.update_many AuthSession (is_active_of_user user_id) (revoked_session now)
                  s.auth_sessions).0;
            users = users.0;
          }),
    )
