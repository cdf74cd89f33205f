-- ===== src/Merchants/Scope.antt =====
-- The stores that a merchant's session reaches
-- (`backend/src/modules/merchant/merchant-store-scope.ts`).
use mathlib.Core.Path.{subst}
use ling_dian.Prelude.{
  String, Bool, true, false, not, ◌≡◌, ◌≢◌, refl, sym, ap, ◌∙◌, Option, some, List, [], ◌∷◌, All,
  Member, trim, if◌then◌else◌, arith,
}
use ling_dian.Prelude.Equality.{includes, includes-Member, string_eq, eq_of_beq}
use ling_dian.Prelude.Results.{Exception, Result, ok, throw, bind-eq-ok}
use ling_dian.Schema.AuthEnums.{UserRole, AuthAudience, user_role_eq, auth_audience_eq}
use ling_dian.Stores.{primary_store_id, resolve_store_ids}
use ling_dian.Stores.Policy.{IsPrimaryOrBlank, resolve_store_ids-primary}
use ling_dian.Auth.Users.{AuthenticatedUser, normalize_store_ids}
use ling_dian.Merchants.{scoped, store_ids, check_included, assert_includes}

if_ok :
    {A : Type 0} (b : Bool) (e : Exception) (m : Result A) (a : A)
    → (if b then throw e else m) ≡ ok a
    → (b ≡ false) × (m ≡ ok a)
if_ok true e m a h = cc
if_ok false e m a h = (refl, h)

scoped-eq-ok :
    (config : Option String) (ids answer : List String)
    → scoped config ids ≡ ok answer
    → (ids ≢ []) × (resolve_store_ids config (some ids) ≡ ok answer)
scoped-eq-ok config [] answer h = cc
scoped-eq-ok config (x ∷ xs) answer h = (λ e. cc, h)

-- Whoever may act for a store as a merchant has a session for the merchants' API with the role of a
-- merchant; the store is the configured one, and the session names stores, each of which is that one.
pub assert_includes-primary :
    (config : Option String) (user : AuthenticatedUser) (store_id : String)
    → assert_includes config user store_id ≡ ok tt
    → (user.audience ≡ AuthAudience.merchant_api)
      × Member UserRole.merchant user.roles
      × (primary_store_id config ≡ ok (trim store_id))
      × (normalize_store_ids user.merchant_store_ids ≢ [])
      × All (IsPrimaryOrBlank (trim store_id)) (normalize_store_ids user.merchant_store_ids)
unfolding assert_includes store_ids
assert_includes-primary config user store_id h =
    let (ids, found, checked) = bind-eq-ok (store_ids config user) (check_included store_id) h in
    let (let_through, reached) =
      if_ok _ _ (scoped config (normalize_store_ids user.merchant_store_ids)) ids found in
    let (named, resolved) =
      scoped-eq-ok config (normalize_store_ids user.merchant_store_ids) ids reached in
    let (p, configured, only, asked) =
      resolve_store_ids-primary config (normalize_store_ids user.merchant_store_ids) ids resolved in
    let (kept, _) = if_ok _ _ (ok tt) tt checked in
    let same : trim store_id ≡ p =
      the_one p (subst (λ x. includes (trim store_id) x ≡ true) only (flipped _ kept)) in
    (
      eq_of_beq user.audience AuthAudience.merchant_api (ground (arith, let_through)),
      includes-Member UserRole.merchant user.roles (ground (arith, let_through)),
      configured ∙ ap ok (sym same),
      named,
      subst (λ x. All (IsPrimaryOrBlank x) (normalize_store_ids user.merchant_store_ids)) (sym same)
          asked,
    )
  where
    flipped : (b : Bool) → not b ≡ false → b ≡ true
    flipped true k = refl
    flipped false k = cc

    the_one : (p : String) → includes (trim store_id) (p ∷ []) ≡ true → trim store_id ≡ p
    the_one p k = eq_of_beq (trim store_id) p (ground (arith, k))
