-- ===== src/Auth/Refreshing.antt =====
-- The exchange of a refresh token (`refresh` of `backend/src/modules/auth/session.service.ts`). It reads
-- first and rotates later, so it is two functions. It is not one transaction: what was written before
-- an error stays.
use ling_dian.Prelude.{
  ℕ, ◌-◌, String, Bool, not, ◌&&◌, ◌||◌, Option, none, some, List, [], ◌∷◌, ◌++◌, length, drop, ltb,
  or_else, if◌then◌else◌,
}
use ling_dian.Prelude.Equality.{◌==◌, includes, string_eq, nat_eq, option_eq}
use ling_dian.Prelude.Results.{Exception, ok, throw, unauthorized, type_error}
use ling_dian.Prelude.Actions.{Action, ◌>>=◌}
use ling_dian.Schema.AuthEnums.{
  UserStatus, SessionStatus, auth_audience_eq, session_status_eq, user_status_eq,
}
use ling_dian.Schema.AuthRows.{User, AuthSession}
use ling_dian.Schema.Database.{Database}
use ling_dian.Db.{Prisma}
use ling_dian.Auth.Audit.{AuditContext, record_audit}
use ling_dian.Auth.Users.{to_authenticated_user, session_user}
use ling_dian.Auth.Sessions.{
  revoke, SessionKeys, SessionTokens, SessionSeed, issue_tokens, audit_input,
}

abbrev pub has_current : String → AuthSession → Bool
has_current hash r = r.refresh_token_hash == hash

-- The token was rotated away from this session.
abbrev pub has_previous : String → AuthSession → Bool
has_previous hash r =
    r.previous_refresh_token_hash == some hash || includes hash r.refresh_token_history

abbrev pub is_live : ℕ → AuthSession → Bool
is_live now r = r.status == SessionStatus.active && ltb now r.expires_at

abbrev pub inactive : Exception
inactive = unauthorized "Session is inactive or expired."

abbrev pub replay_detected : Exception
replay_detected = unauthorized "Refresh token replay detected."

abbrev pub rejected :
    SessionKeys → ℕ → Option AuthSession → AuditContext → String → Database → Database
rejected keys now none context reason s =
    record_audit keys.digest now
      (audit_input "SESSION_REFRESH_REJECTED" none none context (some reason)) s
rejected keys now (some r) context reason s =
    record_audit keys.digest now
      (audit_input "SESSION_REFRESH_REJECTED" (some r.user_id) (some r.id) context (some reason)) s

-- A token that is not the current one of any session: of an earlier rotation, or of none.
abbrev pub refuse_old :
    Prisma
    → SessionKeys
    → ℕ
    → AuditContext
    → Option AuthSession
    → Action Database (AuthSession × User)
refuse_old db keys now context none s =
    (throw inactive, rejected keys now none context "inactive-or-expired" s)
refuse_old db keys now context (some r) s =
    if not (is_live now r)
    then (throw inactive, rejected keys now none context "inactive-or-expired" s)
    else (
      throw replay_detected,
      rejected keys now (some r) context "replay"
          (revoke db keys now r.id context "refresh-token-replay" s),
    )

-- The user that a session refers to; the foreign key makes sure that there is one.
abbrev pub with_user :
    SessionKeys
    → ℕ
    → AuditContext
    → AuthSession
    → Option User
    → Action Database (AuthSession × User)
with_user keys now context r none s = (throw (type_error "session.user"), s)
with_user keys now context r (some u) s =
    if not (u.status == UserStatus.active)
    then (
      throw (unauthorized "User is inactive."),
      rejected keys now (some r) context "user-inactive" s,
    )
    else (ok (r, u), s)

abbrev pub accept_current :
    Prisma → SessionKeys → ℕ → AuditContext → AuthSession → Action Database (AuthSession × User)
accept_current db keys now context r s =
    if not (is_live now r)
    then (throw inactive, rejected keys now none context "inactive-or-expired" s)
    else with_user keys now context r (db.find_first User (λ u. u.id == r.user_id) s.users) s

abbrev pub begin_with :
    Prisma
    → SessionKeys
    → ℕ
    → String
    → AuditContext
    → Option AuthSession
    → Action Database (AuthSession × User)
begin_with db keys now hash context none s =
    refuse_old db keys now context (db.find_first AuthSession (has_previous hash) s.auth_sessions) s
begin_with db keys now hash context (some r) s = accept_current db keys now context r s

-- The reads and checks of a refresh, with what they write when they refuse.
unfoldable pub begin_refresh :
    Prisma → SessionKeys → ℕ → String → AuditContext → Action Database (AuthSession × User)
begin_refresh db keys now raw_token context s =
    begin_with db keys now (keys.hash raw_token) context
      (db.find_first AuthSession (has_current (keys.hash raw_token)) s.auth_sessions) s

-- `slice(-32)`.
abbrev last_32 : List String → List String
last_32 history = drop (length history - 32) history

unfoldable pub append_refresh_token_history : List String → String → List String
append_refresh_token_history history hash =
    last_32 (if includes hash history then history else history ++ hash ∷ [])

abbrev pub is_rotatable : ℕ → String → String → AuthSession → Bool
is_rotatable now id hash r =
    r.id == id
    && (r.status == SessionStatus.active && (r.refresh_token_hash == hash && ltb now r.expires_at))

-- The history is that of the session as it was read.
abbrev pub rotated : String → String → List String → AuthSession → AuthSession
rotated fresh hash history r = record r {
  refresh_token_hash = fresh;
  previous_refresh_token_hash = some hash;
  refresh_token_history = append_refresh_token_history history hash;
}

abbrev pub revoke_replayed :
    Prisma → SessionKeys → ℕ → AuditContext → Option AuthSession → Database → Database
revoke_replayed db keys now context none s = s
revoke_replayed db keys now context (some r) s =
    if r.status == SessionStatus.active
    then revoke db keys now r.id context "refresh-token-replay" s
    else s

abbrev pub lose_race :
    Prisma → SessionKeys → ℕ → String → AuditContext → AuthSession → Action Database SessionTokens
lose_race db keys now hash context r s = (
  throw replay_detected,
  rejected keys now (some r) context "rotation-race-or-replay" (
      revoke_replayed db keys now context
        (db.find_first AuthSession (has_previous hash) s.auth_sessions) s),
)

abbrev pub refreshed :
    SessionKeys → SessionSeed → AuditContext → AuthSession → User → Action Database SessionTokens
refreshed keys seed context r u s = (
  ok (
      issue_tokens keys seed (to_authenticated_user (session_user u) r.id r.audience)
        u.session_version),
  record_audit keys.digest seed.now
      (audit_input "SESSION_REFRESHED" (some r.user_id) (some r.id)
        (record { ip = context.ip; device = some (or_else context.device r.device) }) none)
      s,
)

-- The rotation of the session and user that were read.
unfoldable pub commit_refresh :
    Prisma
    → SessionKeys
    → SessionSeed
    → String
    → AuditContext
    → AuthSession × User
    → Action Database SessionTokens
commit_refresh db keys seed raw_token context read s =
    let hash = keys.hash raw_token in
    let r = read.0 in
    let updated =
      db.update_many AuthSession (is_rotatable seed.now r.id hash)
        (rotated (keys.hash seed.refresh_token) hash r.refresh_token_history) s.auth_sessions in
    let t = record s { auth_sessions = updated.0 } in
    if updated.1 == 1
    then refreshed keys seed context r read.1 t
    else lose_race db keys seed.now hash context r t

unfoldable pub refresh :
    Prisma → SessionKeys → SessionSeed → String → AuditContext → Action Database SessionTokens
refresh db keys seed raw_token context = do
  read ← begin_refresh db keys seed.now raw_token context
  commit_refresh db keys seed raw_token context read
