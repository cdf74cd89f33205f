-- ===== src/Merchants/Ranks.antt =====
-- Who may manage whose account (`backend/src/modules/admin-users/admin-user-policy.ts`).
use Prim.Native.Nat.{max}
use ling_dian.Prelude.{
  ℕ, suc, Bool, true, false, ◌≡◌, ◌<◌, refl, Option, none, some, List, [], ◌∷◌, All, leb, leb→le,
  Member, inl, inr, Bool-cases, if◌then◌else◌, arith,
}
use ling_dian.Prelude.Results.{Result, ok, throw, forbidden}
use ling_dian.Schema.AuthEnums.{UserRole}

abbrev pub role_rank : UserRole → ℕ
role_rank UserRole.user = 0
role_rank UserRole.merchant = 1
role_rank UserRole.admin = 2
role_rank UserRole.super_admin = 3

-- `Math.max(-1, ...ranks)`, plus one.
unfoldable pub highest_rank : List UserRole → ℕ
highest_rank [] = 0
highest_rank (r ∷ rs) = max (suc (role_rank r)) (highest_rank rs)

abbrev assigns_too_much : Option (List UserRole) → ℕ → Bool
assigns_too_much none rank = false
assigns_too_much (some roles) rank = leb rank (highest_rank roles)

unfoldable pub assert_can_manage :
    List UserRole → List UserRole → Option (List UserRole) → Bool → Result (Unit {0})
assert_can_manage operator_roles target_roles requested_roles is_self =
    if is_self
    then throw (forbidden "You cannot manage your own account.")
    else if leb (highest_rank operator_roles) (highest_rank target_roles)
    then throw (forbidden "The target account has equal or higher authority.")
    else if assigns_too_much requested_roles (highest_rank operator_roles)
    then throw (forbidden "You cannot assign a role at or above your authority.")
    else ok tt

highest-Member :
    (roles : List UserRole)
    → 0 < highest_rank roles
    → (o : UserRole) × Member o roles × (suc (role_rank o) ≡ highest_rank roles)
unfolding highest_rank
highest-Member [] h = absurd (omega (arith, h))
highest-Member (r ∷ rs) h = elim (Bool-cases (leb (highest_rank rs) (suc (role_rank r)))) [
  | inl e ↦ (r, inl refl, omega (arith, leb→le _ _ e))
  | inr e ↦
      let more : suc (role_rank r) < highest_rank rs = ground arith in
      let (o, m, same) = highest-Member rs (omega (arith, more)) in
      (o, inr m, omega (arith, same, more))
]

highest-All :
    (roles : List UserRole) (n : ℕ) → highest_rank roles < suc n → All (λ r. role_rank r < n) roles
unfolding highest_rank
highest-All [] n h = tt
highest-All (r ∷ rs) n h = (omega (arith, h), highest-All rs n (omega (arith, h)))

-- The roles that are asked for.
abbrev asked : Option (List UserRole) → List UserRole
asked none = []
asked (some roles) = roles

-- Whoever may manage an account has a role that outranks each role of the account and each role
-- that the account is to get, and it is not the own account.
pub assert_can_manage-outranks :
    (operator_roles target_roles : List UserRole) (requested_roles : Option (List UserRole))
    (is_self : Bool)
    → assert_can_manage operator_roles target_roles requested_roles is_self ≡ ok tt
    → (is_self ≡ false)
      × (o : UserRole) × Member o operator_roles
      × All (λ r. role_rank r < role_rank o) target_roles
      × All (λ r. role_rank r < role_rank o) (asked requested_roles)
unfolding assert_can_manage highest_rank
assert_can_manage-outranks operator_roles target_roles requested_roles is_self h =
    let (other, above, within) = facts is_self requested_roles h in
    let (o, m, same) = highest-Member operator_roles (omega (arith, above)) in
    (
      other,
      o,
      m,
      highest-All target_roles (role_rank o) (omega (arith, above, same)),
      highest-All (asked requested_roles) (role_rank o) (omega (arith, within, same)),
    )
  where
    facts :
        (self : Bool) (requested : Option (List UserRole))
        → assert_can_manage operator_roles target_roles requested self ≡ ok tt
        → (self ≡ false)
          × (highest_rank target_roles < highest_rank operator_roles)
          × (highest_rank (asked requested) < highest_rank operator_roles)
    facts true requested k = cc
    facts false none k = ground arith
    facts false (some roles) k = ground arith
