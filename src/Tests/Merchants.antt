-- ===== src/Tests/Merchants.antt =====
-- A merchant of the shop, and an administrator who manages an account.
use ling_dian.Prelude.{false, ◌≡◌, ◌≢◌, ◌<◌, refl, some, List, [], ◌∷◌, All, Member, trim}
use ling_dian.Prelude.Results.{ok}
use ling_dian.Schema.AuthEnums.{UserRole, AuthAudience}
use ling_dian.Stores.{primary_store_id, resolve_store_ids}
use ling_dian.Stores.Policy.{IsPrimaryOrBlank}
use ling_dian.Auth.Users.{AuthenticatedUser, normalize_store_ids, sort_texts}
use ling_dian.Merchants.{merchant_guard, store_ids, assert_includes}
use ling_dian.Merchants.Scope.{assert_includes-primary}
use ling_dian.Merchants.Ranks.{
  role_rank, highest_rank, assert_can_manage, assert_can_manage-outranks,
}
use ling_dian.Tests.Samples.{config}

abbrev merchant : AuthenticatedUser
merchant = record {
  user_id = "u7";
  session_id = "s7";
  audience = AuthAudience.merchant_api;
  roles = UserRole.user ∷ UserRole.merchant ∷ [];
  must_change_password = false;
  merchant_store_ids = "s1" ∷ [];
}

let_through : merchant_guard (some merchant) ≡ ok merchant
unfolding merchant_guard
let_through = refl

authorized : assert_includes config merchant " s1" ≡ ok tt
unfolding assert_includes store_ids resolve_store_ids primary_store_id normalize_store_ids
    sort_texts trim
authorized = refl

assert_includes-primary_example :
    (merchant.audience ≡ AuthAudience.merchant_api)
    × Member UserRole.merchant merchant.roles
    × (primary_store_id config ≡ ok (trim " s1"))
    × (normalize_store_ids merchant.merchant_store_ids ≢ [])
    × All (IsPrimaryOrBlank (trim " s1")) (normalize_store_ids merchant.merchant_store_ids)
assert_includes-primary_example = assert_includes-primary config merchant " s1" authorized

abbrev administrator : List UserRole
administrator = UserRole.user ∷ UserRole.admin ∷ []

may_manage :
    assert_can_manage administrator (UserRole.user ∷ []) (some (UserRole.merchant ∷ [])) false
    ≡ ok tt
unfolding assert_can_manage highest_rank
may_manage = refl

assert_can_manage-outranks_example :
    (false ≡ false)
    × (o : UserRole) × Member o administrator
    × All (λ r. role_rank r < role_rank o) (UserRole.user ∷ [])
    × All (λ r. role_rank r < role_rank o) (UserRole.merchant ∷ [])
assert_can_manage-outranks_example =
    assert_can_manage-outranks administrator (UserRole.user ∷ []) (some (UserRole.merchant ∷ []))
      false may_manage
