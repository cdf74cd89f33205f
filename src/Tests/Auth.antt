-- ===== src/Tests/Auth.antt =====
-- A customer with one session: its token is rotated, used again, and all sessions are revoked.
use ling_dian.Prelude.{
  ℕ, ◌≡◌, ◌≢◌, refl, String, true, false, trim, Option, none, some, [], ◌∷◌, All, not_both,
}
use ling_dian.Prelude.Int.{pos}
use ling_dian.Prelude.Equality.{string_eq}
use ling_dian.Prelude.Results.{Exception, Result, ok, throw}
use ling_dian.Schema.AuthEnums.{UserRole, AuthAudience, UserStatus, SessionStatus}
use ling_dian.Schema.AuthRows.{User, AuthSession}
use ling_dian.Schema.Database.{Database}
use ling_dian.Db.{listed}
use ling_dian.Auth.Audit.{AuditContext, record_audit}
use ling_dian.Auth.Users.{
  AuthenticatedUser, SessionUser, to_authenticated_user, normalize_store_ids, insert_text,
  sort_texts,
}
use ling_dian.Auth.Sessions.{AccessTokenClaims, SessionKeys, SessionSeed, SessionTokens, revoke_all}
use ling_dian.Auth.Refreshing.{begin_refresh, commit_refresh, refresh, replay_detected, is_live}
use ling_dian.Auth.TokenClaims.{RawClaims, claims_of, bearer_token, validate_claims}
use ling_dian.Auth.Guard.{can_activate}
use ling_dian.Auth.Access.{IsAdmitted, can_activate-IsAdmitted}
use ling_dian.Auth.Lockout.{revoke_all-locks_out}
use ling_dian.Auth.Replay.{refresh-refuses_replay}
use ling_dian.Auth.Race.{commit_refresh-rotates_once}
use ling_dian.Auth.Claims.{validate_claims-claims_of}
use ling_dian.Tests.Samples.{empty}

-- The hash of a token is the token here, and tokens are not really signed.
abbrev keys : SessionKeys
keys = record {
  hash = λ s. s;
  sign = λ now ttl claims. "jwt";
  digest = λ s. s;
  access_token_ttl_seconds = 900;
  refresh_token_ttl_days = 30;
}

abbrev customer : User
customer = record {
  id = "u1";
  status = UserStatus.active;
  session_version = 3;
  must_change_password = false;
  roles = [];
}

abbrev session : AuthSession
session = record {
  id = "s1";
  user_id = "u1";
  audience = AuthAudience.user_api;
  refresh_token_hash = "token1";
  previous_refresh_token_hash = none;
  refresh_token_history = [];
  device = "mobile";
  status = SessionStatus.active;
  expires_at = 90000;
  revoked_at = none;
}

abbrev with_session : Database
with_session = record empty { users = customer ∷ []; auth_sessions = session ∷ [] }

abbrev context : AuditContext
context = record { ip = none; device = none }

abbrev seed : SessionSeed
seed = record { now = 2000; session_id = "s2"; refresh_token = "token2" }

abbrev second_seed : SessionSeed
second_seed = record { now = 3000; session_id = "s3"; refresh_token = "token3" }

abbrev visitor : AuthenticatedUser
visitor = record {
  user_id = "u1";
  session_id = "s1";
  audience = AuthAudience.user_api;
  roles = [];
  must_change_password = false;
  merchant_store_ids = [];
}

abbrev claims : AccessTokenClaims
claims = record { user = visitor; session_version = 3 }

abbrev verify : ℕ → String → Option RawClaims
verify now token = some (claims_of claims)

abbrev header : Option String
header = some "Bearer jwt"

let_in : can_activate listed verify 2000 false header with_session ≡ ok visitor
unfolding can_activate listed bearer_token validate_claims claims_of
let_in = refl

can_activate-IsAdmitted_example : IsAdmitted verify 2000 header with_session visitor
can_activate-IsAdmitted_example =
    can_activate-IsAdmitted listed verify 2000 header with_session false visitor let_in

-- Another customer is still let in.
abbrev other_customer : User
other_customer = record customer { id = "u2" }

abbrev other_session : AuthSession
other_session = record session { id = "s9"; user_id = "u2"; refresh_token_hash = "token9" }

abbrev two_signed_in : Database
two_signed_in = record empty {
  users = customer ∷ other_customer ∷ [];
  auth_sessions = session ∷ other_session ∷ [];
}

abbrev other_shown : AuthenticatedUser
other_shown = record visitor { user_id = "u2"; session_id = "s9" }

abbrev other_verify : ℕ → String → Option RawClaims
other_verify now token = some (claims_of (record { user = other_shown; session_version = 3 }))

abbrev revocation : Result (Unit {0}) × Database
revocation = revoke_all listed keys 2000 "u1" context two_signed_in

all_revoked : revocation ≡ (ok tt, revocation.1)
unfolding revoke_all listed
all_revoked = refl

other_let_in : can_activate listed other_verify 2500 false header revocation.1 ≡ ok other_shown
unfolding can_activate listed bearer_token validate_claims claims_of revoke_all record_audit
other_let_in = refl

revoke_all-locks_out_example : other_shown.user_id ≢ "u1"
revoke_all-locks_out_example =
    revoke_all-locks_out listed keys other_verify 2000 2500 "u1" context false header two_signed_in
      revocation.1 other_shown all_revoked other_let_in

-- A merchant whose stores are named twice and with blanks.
abbrev merchant : SessionUser
merchant = record {
  id = "u5";
  session_version = 4;
  roles = UserRole.merchant ∷ [];
  must_change_password = true;
  merchant_store_ids = " s2" ∷ "s1" ∷ "" ∷ "s2" ∷ [];
}

abbrev merchant_shown : AuthenticatedUser
merchant_shown = to_authenticated_user merchant "s5" AuthAudience.merchant_api

stores_test : merchant_shown.merchant_store_ids ≡ "s1" ∷ "s2" ∷ []
unfolding to_authenticated_user normalize_store_ids sort_texts insert_text trim
stores_test = refl

validate_claims-claims_of_example :
    validate_claims (claims_of (record { user = merchant_shown; session_version = 4 }))
    ≡ ok (merchant_shown, pos 4)
validate_claims-claims_of_example =
    validate_claims-claims_of merchant "s5" AuthAudience.merchant_api 4

abbrev rotation : Result SessionTokens × Database
rotation = refresh listed keys seed "token1" context with_session

abbrev tokens : SessionTokens
tokens = record { access_token = "jwt"; refresh_token = "token2"; expires_in = 900; user = visitor }

rotated_once : rotation ≡ (ok tokens, rotation.1)
unfolding refresh begin_refresh commit_refresh listed to_authenticated_user
rotated_once = refl

fresh_differs : keys.hash seed.refresh_token ≢ keys.hash "token1"
fresh_differs h = not_both _ ((string_eq.same_iff "token2" "token1").1 h) refl

refresh-refuses_replay_example :
    ((e : Exception) × ((refresh listed keys second_seed "token1" context rotation.1).0 ≡ throw e))
    × All
        (λ r. r.id ≡ "s1" → is_live 3000 r ≡ false)
        (refresh listed keys second_seed "token1" context rotation.1).1.auth_sessions
refresh-refuses_replay_example =
    refresh-refuses_replay listed keys seed second_seed "token1" context context with_session
      rotation.1 tokens rotated_once (tt, tt) (tt, tt) (refl, tt) fresh_differs

began :
    begin_refresh listed keys 2000 "token1" context with_session
    ≡ (ok (session, customer), with_session)
unfolding begin_refresh listed
began = refl

abbrev commitment : Result SessionTokens × Database
commitment = commit_refresh listed keys seed "token1" context (session, customer) with_session

committed_once : commitment ≡ (ok tokens, commitment.1)
unfolding commit_refresh listed to_authenticated_user
committed_once = refl

commit_refresh-rotates_once_example :
    ((commit_refresh listed keys second_seed "token1" context (session, customer) commitment.1).0
      ≡ throw replay_detected)
    × All
        (λ r. r.id ≡ "s1" → is_live 3000 r ≡ false)
        (commit_refresh listed keys second_seed "token1" context
          (session, customer)
          commitment.1).1.auth_sessions
commit_refresh-rotates_once_example =
    commit_refresh-rotates_once listed keys seed second_seed "token1" context context
      (session, customer) (session, customer) with_session commitment.1 tokens began committed_once
      (tt, tt) (tt, tt) (refl, tt) fresh_differs
