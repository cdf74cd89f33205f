-- ===== src/Auth/Claims.antt =====
-- The claims that a token is signed with, read back by the guard: `sign` of
-- `backend/src/modules/auth/session.service.ts` and the checks of
-- `backend/src/common/auth/access-token.guard.ts`.
use ling_dian.Prelude.{
  ℕ, String, Bool, true, false, ◌≡◌, refl, some, List, [], ◌∷◌, if◌then◌else◌, inl, inr, ◌⊎◌,
}
use ling_dian.Prelude.Int.{pos}
use ling_dian.Prelude.Results.{ok}
use ling_dian.Schema.AuthEnums.{UserRole, AuthAudience, auth_audience_eq}
use ling_dian.Auth.Users.{AuthenticatedUser, SessionUser, to_authenticated_user}
use ling_dian.Auth.StoreIds.{normalize_store_ids-valid_ids}
use ling_dian.Auth.Sessions.{AccessTokenClaims}
use ling_dian.Auth.TokenClaims.{
  text_items, role_items, audience_text, role_text, audience_of, role_named, roles_in, texts_in,
  valid_ids, store_ids_of, flag_of, claims_of, validate_claims, boolean, undefined, present_ids,
  text,
}

-- A user as tokens are issued to: stores only at the merchants' API, named and without repetition.
abbrev pub IsIssuable : AuthenticatedUser → Type 0
IsIssuable user =
    (user.merchant_store_ids ≡ [])
    ⊎ ((user.audience ≡ AuthAudience.merchant_api) × (valid_ids user.merchant_store_ids ≡ true))

audience_back : (a : AuthAudience) → audience_of (text (audience_text a)) ≡ some a
audience_back AuthAudience.user_api = refl
audience_back AuthAudience.admin_api = refl
audience_back AuthAudience.merchant_api = refl

role_back : (r : UserRole) → role_named (role_text r) ≡ some r
role_back UserRole.user = refl
role_back UserRole.admin = refl
role_back UserRole.super_admin = refl
role_back UserRole.merchant = refl

roles_back : (rs : List UserRole) → roles_in (role_items rs) ≡ some rs
unfolding roles_in
roles_back [] = refl
roles_back (r ∷ rs) = rw (role_back r, roles_back rs) refl

texts_back : (xs : List String) → texts_in (text_items xs) ≡ some xs
unfolding texts_in
texts_back [] = refl
texts_back (x ∷ xs) = rw (texts_back xs) refl

flag_back : (b : Bool) → flag_of (if b then boolean true else undefined) ≡ some b
flag_back true = refl
flag_back false = refl

ids_back :
    (audience : AuthAudience) (ids : List String)
    → (ids ≡ []) ⊎ ((audience ≡ AuthAudience.merchant_api) × (valid_ids ids ≡ true))
    → store_ids_of audience (present_ids ids) ≡ some ids
unfolding texts_in
ids_back audience [] h = refl
ids_back audience (x ∷ xs) (inl e) = cc
ids_back audience (x ∷ xs) (inr h) = rw (texts_back xs) (rw (h.0) (rw (h.1) refl))

claims_back :
    (c : AccessTokenClaims)
    → IsIssuable c.user
    → validate_claims (claims_of c) ≡ ok (c.user, pos c.session_version)
unfolding validate_claims claims_of
claims_back c issuable =
    rw
      (
        audience_back c.user.audience,
        roles_back c.user.roles,
        flag_back c.user.must_change_password,
        ids_back c.user.audience c.user.merchant_store_ids issuable,
      )
      refl

-- Tokens are issued to users as `to_authenticated_user` makes them.
to_authenticated_user-IsIssuable :
    (user : SessionUser) (session_id : String) (audience : AuthAudience)
    → IsIssuable (to_authenticated_user user session_id audience)
unfolding to_authenticated_user
to_authenticated_user-IsIssuable user session_id AuthAudience.user_api = inl refl
to_authenticated_user-IsIssuable user session_id AuthAudience.admin_api = inl refl
to_authenticated_user-IsIssuable user session_id AuthAudience.merchant_api =
    inr (refl, normalize_store_ids-valid_ids user.merchant_store_ids)

-- Whatever the user, the session, the audience and the stores of the user's roles, the guard accepts
-- the claims that a token is signed with, and reads them back as the user of the issued tokens and
-- the session version.
pub validate_claims-claims_of :
    (user : SessionUser) (session_id : String) (audience : AuthAudience) (session_version : ℕ)
    → validate_claims (
        claims_of (record {
          user = to_authenticated_user user session_id audience;
          session_version = session_version;
        }))
      ≡ ok (to_authenticated_user user session_id audience, pos session_version)
validate_claims-claims_of user session_id audience session_version =
    claims_back
      (record {
        user = to_authenticated_user user session_id audience;
        session_version = session_version;
      })
      (to_authenticated_user-IsIssuable user session_id audience)
