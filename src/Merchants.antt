-- ===== src/Merchants.antt =====
-- Who may act for a store: the guards of the roles (`backend/src/common/auth/user-api.guard.ts`,
-- `admin.guard.ts`, `super-admin.guard.ts` and `merchant.guard.ts`), the store scope of a merchant
-- (`backend/src/modules/merchant/merchant-store-scope.ts`) and the ranks of
-- `backend/src/modules/admin-users/admin-user-policy.ts`.
pub mod Scope
pub mod Ranks
use ling_dian.Prelude.{
  ℕ, String, Bool, true, false, not, ◌&&◌, ◌||◌, Option, none, some, List, [], ◌∷◌, leb,
  if◌then◌else◌, trim,
}
use Prim.Native.Nat.{max}
use ling_dian.Prelude.Int.{ℤ, pos}
use ling_dian.Prelude.Equality.{◌==◌, includes, string_eq}
use ling_dian.Prelude.Results.{Exception, Result, ok, throw, bind, forbidden, unauthorized}
use ling_dian.Schema.AuthEnums.{UserRole, AuthAudience, user_role_eq, auth_audience_eq}
use ling_dian.Stores.{resolve_store_ids}
use ling_dian.Auth.Users.{AuthenticatedUser, normalize_store_ids}

abbrev pub signed_out : Result AuthenticatedUser
signed_out = throw (unauthorized "Authentication is required.")

abbrev is_empty : List String → Bool
is_empty [] = true
is_empty (x ∷ xs) = false

-- Each guard gives back the user that it lets through.
unfoldable pub user_api_guard : Option AuthenticatedUser → Result AuthenticatedUser
user_api_guard none = signed_out
user_api_guard (some user) =
    if not (user.audience == AuthAudience.user_api)
    then throw (forbidden "User audience required.")
    else ok user

unfoldable pub admin_guard : Option AuthenticatedUser → Result AuthenticatedUser
admin_guard none = signed_out
admin_guard (some user) =
    if not (user.audience == AuthAudience.admin_api)
    then throw (forbidden "Admin audience required.")
    else if not (includes UserRole.admin user.roles)
        && not (includes UserRole.super_admin user.roles)
    then throw (forbidden "Administrator role required.")
    else ok user

unfoldable pub super_admin_guard : Option AuthenticatedUser → Result AuthenticatedUser
super_admin_guard none = signed_out
super_admin_guard (some user) =
    if not (user.audience == AuthAudience.admin_api)
    then throw (forbidden "Admin audience required.")
    else if not (includes UserRole.super_admin user.roles)
    then throw (forbidden "Super administrator role required.")
    else ok user

unfoldable pub merchant_guard : Option AuthenticatedUser → Result AuthenticatedUser
merchant_guard none = signed_out
merchant_guard (some user) =
    if not (user.audience == AuthAudience.merchant_api)
    then throw (forbidden "Merchant audience required.")
    else if not (includes UserRole.merchant user.roles)
    then throw (forbidden "Merchant role required.")
    else if is_empty user.merchant_store_ids
    then throw (forbidden "Merchant store scope required.")
    else ok user

abbrev pub scoped : Option String → List String → Result (List String)
scoped config [] = throw (forbidden "Merchant store scope required.")
scoped config (x ∷ xs) = resolve_store_ids config (some (x ∷ xs))

-- `MerchantStoreScope.storeIds`.
unfoldable pub store_ids : Option String → AuthenticatedUser → Result (List String)
store_ids config user =
    if not (user.audience == AuthAudience.merchant_api)
      || not (includes UserRole.merchant user.roles)
    then throw (forbidden "Merchant access is required.")
    else scoped config (normalize_store_ids user.merchant_store_ids)

abbrev pub check_included : String → List String → Result (Unit {0})
check_included store_id ids =
    if not (includes (trim store_id) ids)
    then throw (forbidden "Merchant is not authorized for this store.")
    else ok tt

unfoldable pub assert_includes : Option String → AuthenticatedUser → String → Result (Unit {0})
assert_includes config user store_id = bind (store_ids config user) (check_included store_id)
