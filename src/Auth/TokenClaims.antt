-- ===== src/Auth/TokenClaims.antt =====
-- The token of a request and the check of its claims (`bearerToken` and `validateClaims` of
-- `backend/src/common/auth/access-token.guard.ts`), and the claims that `sign` of
-- `backend/src/modules/auth/session.service.ts` puts into a token.
use Prim.Native.Char.{Char, code}
use ling_dian.Prelude.{
  ℕ, ◌+◌, String, Bool, true, false, ◌&&◌, ◌||◌, Option, none, some, List, [], ◌∷◌, all, length,
  leb, trim, non_empty, if◌then◌else◌,
}
use ling_dian.Prelude.Int.{ℤ, pos}
use ling_dian.Prelude.Equality.{◌==◌, distinct, string_eq, nat_eq}
use ling_dian.Prelude.Results.{Exception, Result, ok, throw, bind, or_throw, unauthorized}
use ling_dian.Schema.AuthEnums.{
  UserRole, AuthAudience, auth_audience_eq, user_status_eq, session_status_eq,
}
use ling_dian.Auth.Users.{AuthenticatedUser}
use ling_dian.Auth.Sessions.{AccessTokenClaims}

-- A JSON value as the checks tell values apart; `undefined` is an absent field.
mutual
  pub data Json : Type 0 where
    undefined : Json
    boolean : Bool → Json
    integer : ℤ → Json
    text : String → Json
    array : JsonItems → Json
    other : Json

  pub data JsonItems : Type 0 where
    end : JsonItems
    item : Json → JsonItems → JsonItems

pub record RawClaims : Type 0 where
  pub sub : Json
  pub sid : Json
  pub aud : Json
  pub sv : Json
  pub roles : Json
  pub must_change_password : Json
  pub merchant_store_ids : Json

abbrev pub audience_text : AuthAudience → String
audience_text AuthAudience.user_api = "user-api"
audience_text AuthAudience.admin_api = "admin-api"
audience_text AuthAudience.merchant_api = "merchant-api"

abbrev pub role_text : UserRole → String
role_text UserRole.user = "USER"
role_text UserRole.admin = "ADMIN"
role_text UserRole.super_admin = "SUPER_ADMIN"
role_text UserRole.merchant = "MERCHANT"

abbrev pub text_items : List String → JsonItems
text_items [] = end
text_items (x ∷ xs) = item (text x) (text_items xs)

abbrev pub role_items : List UserRole → JsonItems
role_items [] = end
role_items (x ∷ xs) = item (text (role_text x)) (role_items xs)

abbrev pub present_ids : List String → Json
present_ids [] = undefined
present_ids (x ∷ xs) = array (text_items (x ∷ xs))

-- The claims of a token.
unfoldable pub claims_of : AccessTokenClaims → RawClaims
claims_of c = record {
  sub = text c.user.user_id;
  sid = text c.user.session_id;
  aud = text (audience_text c.user.audience);
  sv = integer (pos c.session_version);
  roles = array (role_items c.user.roles);
  must_change_password = if c.user.must_change_password then boolean true else undefined;
  merchant_store_ids = present_ids c.user.merchant_store_ids;
}

-- `\s`, of ASCII; a header has no line breaks, so `.` is any character.
is_blank : Char → Bool
is_blank c = code c == 32 || (leb 9 (code c) && leb (code c) 13)

-- `\s+(.+)$`: the blanks give one back if nothing else is left.
after_blanks : String → Option String
after_blanks String.[] = none
after_blanks (String.◌∷◌ c s) =
    let deeper = after_blanks s in
    if is_blank c
    then (elim deeper [ some t ↦ some t | none ↦ if non_empty s then some s else none ])
    else none

lower : Char → ℕ
lower c = if leb 65 (code c) && leb (code c) 90 then code c + 32 else code c

-- The text after a prefix, in any letter case; the prefix is in lower case.
after_prefix : String → String → Option String
after_prefix String.[] s = some s
after_prefix (String.◌∷◌ p ps) String.[] = none
after_prefix (String.◌∷◌ p ps) (String.◌∷◌ c s) =
    let rest = after_prefix ps s in if lower c == code p then rest else none

abbrev missing_token : Exception
missing_token = unauthorized "Bearer access token is required."

abbrev blanks_and_token : Option String → Result String
blanks_and_token none = throw missing_token
blanks_and_token (some rest) = or_throw (after_blanks rest) missing_token

unfoldable pub bearer_token : Option String → Result String
unfolding after_blanks is_blank after_prefix lower
bearer_token none = throw missing_token
bearer_token (some header) = blanks_and_token (after_prefix "bearer" header)

abbrev pub text_of : Json → Option String
text_of (text s) = some s
text_of _ = none

abbrev pub integer_of : Json → Option ℤ
integer_of (integer n) = some n
integer_of _ = none

abbrev pub audience_named : String → Option AuthAudience
audience_named s =
    if s == "user-api"
    then some AuthAudience.user_api
    else if s == "admin-api"
    then some AuthAudience.admin_api
    else if s == "merchant-api"
    then some AuthAudience.merchant_api
    else none

abbrev pub role_named : String → Option UserRole
role_named s =
    if s == "USER"
    then some UserRole.user
    else if s == "ADMIN"
    then some UserRole.admin
    else if s == "SUPER_ADMIN"
    then some UserRole.super_admin
    else if s == "MERCHANT"
    then some UserRole.merchant
    else none

abbrev pub audience_of : Json → Option AuthAudience
audience_of (text s) = audience_named s
audience_of _ = none

abbrev push {ℓ} : {A : Type ℓ} → Option A → Option (List A) → Option (List A)
push (some a) (some as_) = some (a ∷ as_)
push _ _ = none

abbrev role_of : Json → Option UserRole
role_of (text s) = role_named s
role_of _ = none

unfoldable pub roles_in : JsonItems → Option (List UserRole)
roles_in end = some []
roles_in (item j js) = push (role_of j) (roles_in js)

abbrev pub roles_of : Json → Option (List UserRole)
roles_of (array js) = roles_in js
roles_of _ = none

unfoldable pub texts_in : JsonItems → Option (List String)
texts_in end = some []
texts_in (item j js) = push (text_of j) (texts_in js)

abbrev pub valid_ids : List String → Bool
valid_ids ids = all (λ s. non_empty (trim s)) ids && length (distinct ids) == length ids

abbrev checked_ids : AuthAudience → Option (List String) → Option (List String)
checked_ids audience none = none
checked_ids audience (some ids) =
    if audience == AuthAudience.merchant_api && valid_ids ids then some ids else none

-- `validMerchantStoreIds`, with the ids if they are valid.
abbrev pub store_ids_of : AuthAudience → Json → Option (List String)
store_ids_of audience undefined = some []
store_ids_of audience (array js) = checked_ids audience (texts_in js)
store_ids_of audience _ = none

abbrev pub flag_of : Json → Option Bool
flag_of undefined = some false
flag_of (boolean b) = some b
flag_of _ = none

abbrev pub need {ℓ} : {A : Type ℓ} → Option A → Result A
need found = or_throw found (unauthorized "Access token claims are invalid.")

-- The user of the claims, and the session version.
unfoldable pub validate_claims : RawClaims → Result (AuthenticatedUser × ℤ)
unfolding roles_in texts_in
validate_claims c = bind (need (text_of c.sub)) λ user_id. bind (need (text_of c.sid)) λ session_id.
    bind (need (audience_of c.aud)) λ audience. bind (need (integer_of c.sv)) λ version.
      bind (need (roles_of c.roles)) λ roles.
        bind (need (store_ids_of audience c.merchant_store_ids)) λ ids.
          bind (need (flag_of c.must_change_password)) λ must_change. ok (
            record {
              user_id = user_id;
              session_id = session_id;
              audience = audience;
              roles = roles;
              must_change_password = must_change;
              merchant_store_ids = ids;
            },
            version,
          )
