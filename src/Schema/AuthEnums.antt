-- ===== src/Schema/AuthEnums.antt =====
-- The enumerations of `packages/db/prisma/schema.prisma` (auth).
use ling_dian.Prelude.{ℕ, ◌≡◌, arith}
use ling_dian.Prelude.Equality.{Eq, eq_by}

pub data UserRole : Type 0 where
  user admin super_admin merchant : UserRole

abbrev pub user_role_code : UserRole → ℕ
user_role_code UserRole.user = 0
user_role_code UserRole.admin = 1
user_role_code UserRole.super_admin = 2
user_role_code UserRole.merchant = 3

pub user_role_code-injective : (a b : UserRole) → user_role_code a ≡ user_role_code b → a ≡ b
user_role_code-injective a b h = ground arith

instance abbrev pub user_role_eq : Eq UserRole
user_role_eq = eq_by user_role_code user_role_code-injective

pub data AuthAudience : Type 0 where
  user_api admin_api merchant_api : AuthAudience

abbrev pub auth_audience_code : AuthAudience → ℕ
auth_audience_code AuthAudience.user_api = 0
auth_audience_code AuthAudience.admin_api = 1
auth_audience_code AuthAudience.merchant_api = 2

pub auth_audience_code-injective :
    (a b : AuthAudience) → auth_audience_code a ≡ auth_audience_code b → a ≡ b
auth_audience_code-injective a b h = ground arith

instance abbrev pub auth_audience_eq : Eq AuthAudience
auth_audience_eq = eq_by auth_audience_code auth_audience_code-injective

pub data UserStatus : Type 0 where
  active disabled : UserStatus

abbrev pub user_status_code : UserStatus → ℕ
user_status_code UserStatus.active = 0
user_status_code UserStatus.disabled = 1

pub user_status_code-injective :
    (a b : UserStatus) → user_status_code a ≡ user_status_code b → a ≡ b
user_status_code-injective a b h = ground arith

instance abbrev pub user_status_eq : Eq UserStatus
user_status_eq = eq_by user_status_code user_status_code-injective

pub data SessionStatus : Type 0 where
  active revoked : SessionStatus

abbrev pub session_status_code : SessionStatus → ℕ
session_status_code SessionStatus.active = 0
session_status_code SessionStatus.revoked = 1

pub session_status_code-injective :
    (a b : SessionStatus) → session_status_code a ≡ session_status_code b → a ≡ b
session_status_code-injective a b h = ground arith

instance abbrev pub session_status_eq : Eq SessionStatus
session_status_eq = eq_by session_status_code session_status_code-injective

pub data VerificationPurpose : Type 0 where
  phone_login phone_link admin_login password_reset : VerificationPurpose

abbrev pub verification_purpose_code : VerificationPurpose → ℕ
verification_purpose_code VerificationPurpose.phone_login = 0
verification_purpose_code VerificationPurpose.phone_link = 1
verification_purpose_code VerificationPurpose.admin_login = 2
verification_purpose_code VerificationPurpose.password_reset = 3

pub verification_purpose_code-injective :
    (a b : VerificationPurpose) → verification_purpose_code a ≡ verification_purpose_code b → a ≡ b
verification_purpose_code-injective a b h = ground arith

instance abbrev pub verification_purpose_eq : Eq VerificationPurpose
verification_purpose_eq = eq_by verification_purpose_code verification_purpose_code-injective

pub data IdentityProvider : Type 0 where
  phone wechat qq account : IdentityProvider

abbrev pub identity_provider_code : IdentityProvider → ℕ
identity_provider_code IdentityProvider.phone = 0
identity_provider_code IdentityProvider.wechat = 1
identity_provider_code IdentityProvider.qq = 2
identity_provider_code IdentityProvider.account = 3

pub identity_provider_code-injective :
    (a b : IdentityProvider) → identity_provider_code a ≡ identity_provider_code b → a ≡ b
identity_provider_code-injective a b h = ground arith

instance abbrev pub identity_provider_eq : Eq IdentityProvider
identity_provider_eq = eq_by identity_provider_code identity_provider_code-injective
