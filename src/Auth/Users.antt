-- ===== src/Auth/Users.antt =====
-- The users of a session and of a request (`backend/src/common/auth/authenticated-user.type.ts`, and
-- the functions below the class of `backend/src/modules/auth/session.service.ts`). A list of stores
-- that is absent there is empty here: the program tells the two apart nowhere.
use Prim.Native.Nat.{Ordering}
use Prim.Native.String.{compare}
use ling_dian.Prelude.{
  ℕ, String, Bool, true, false, ◌&&◌, List, [], ◌∷◌, map, keep, non_empty, trim, if◌then◌else◌,
}
use ling_dian.Prelude.Equality.{◌==◌, string_eq, distinct}
use ling_dian.Schema.AuthEnums.{
  UserRole, AuthAudience, UserStatus, user_role_eq, user_status_eq, auth_audience_eq,
}
use ling_dian.Schema.AuthRows.{User, UserRoleAssignment}

pub record AuthenticatedUser : Type 0 where
  pub user_id : String
  pub session_id : String
  pub audience : AuthAudience
  pub roles : List UserRole
  pub must_change_password : Bool
  pub merchant_store_ids : List String

pub record SessionUser : Type 0 where
  pub id : String
  pub session_version : ℕ
  pub roles : List UserRole
  pub must_change_password : Bool
  pub merchant_store_ids : List String

abbrev pub text_leb : String → String → Bool
text_leb a b = elim (compare a b) [ Ordering.gt ↦ false | _ ↦ true ]

unfoldable pub insert_text : String → List String → List String
insert_text a [] = a ∷ []
insert_text a (b ∷ bs) =
    let rest = insert_text a bs in if text_leb a b then a ∷ b ∷ bs else b ∷ rest

-- `.sort()`.
unfoldable pub sort_texts : List String → List String
unfolding insert_text
sort_texts [] = []
sort_texts (a ∷ as_) = insert_text a (sort_texts as_)

unfoldable pub normalize_store_ids : List String → List String
normalize_store_ids ids = sort_texts (distinct (keep non_empty (map trim ids)))

abbrev is_merchant_of_store : UserRoleAssignment → Bool
is_merchant_of_store a =
    a.status == UserStatus.active && (a.role == UserRole.merchant && a.scope_type == "STORE")

pub active_merchant_store_ids : List UserRoleAssignment → List String
active_merchant_store_ids roles =
    normalize_store_ids (map (λ a. a.scope_id) (keep is_merchant_of_store roles))

abbrev pub active_roles : List UserRoleAssignment → List UserRole
active_roles roles = map (λ a. a.role) (keep (λ a. a.status == UserStatus.active) roles)

unfoldable pub to_authenticated_user : SessionUser → String → AuthAudience → AuthenticatedUser
to_authenticated_user user session_id audience = record {
  user_id = user.id;
  session_id = session_id;
  audience = audience;
  roles = user.roles;
  must_change_password = user.must_change_password;
  merchant_store_ids =
      if audience == AuthAudience.merchant_api
      then normalize_store_ids user.merchant_store_ids
      else [];
}

-- The user of a refreshed session, by its row.
abbrev pub session_user : User → SessionUser
session_user u = record {
  id = u.id;
  session_version = u.session_version;
  roles = active_roles u.roles;
  must_change_password = u.must_change_password;
  merchant_store_ids = active_merchant_store_ids u.roles;
}
