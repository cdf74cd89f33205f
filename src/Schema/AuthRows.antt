-- ===== src/Schema/AuthRows.antt =====
-- Users, identities, sessions, verification codes and the audit log
-- (`packages/db/prisma/schema.prisma`).
use ling_dian.Prelude.{ℕ, Bool, String, Option, List}
use ling_dian.Schema.AuthEnums.{
  UserRole, AuthAudience, UserStatus, SessionStatus, VerificationPurpose, IdentityProvider,
}

pub record UserRoleAssignment : Type 0 where
  pub role : UserRole
  pub scope_type : String
  pub scope_id : String
  pub status : UserStatus

pub record User : Type 0 where
  pub id : String
  pub status : UserStatus
  pub session_version : ℕ
  pub must_change_password : Bool
  pub roles : List UserRoleAssignment

pub record AuthIdentity : Type 0 where
  pub user_id : String
  pub provider : IdentityProvider
  pub phone_e164 : Option String
  pub verified_at : Option ℕ

pub record AuthSession : Type 0 where
  pub id : String
  pub user_id : String
  pub audience : AuthAudience
  pub refresh_token_hash : String
  pub previous_refresh_token_hash : Option String
  pub refresh_token_history : List String
  pub device : String
  pub status : SessionStatus
  pub expires_at : ℕ
  pub revoked_at : Option ℕ

pub record VerificationCode : Type 0 where
  pub id : String
  pub purpose : VerificationPurpose
  pub target_hash : String
  pub code_hash : String
  pub expires_at : ℕ
  pub consumed_at : Option ℕ
  pub created_at : ℕ

pub record AuthAuditLog : Type 0 where
  pub event : String
  pub user_id : Option String
  pub session_id : Option String
  pub ip : Option String
  pub device : Option String
  pub reason : Option String
  pub created_at : ℕ

pub record UserAddress : Type 0 where
  pub id : String
  pub user_id : String
  pub recipient_name : String
  pub phone_number : String
  pub province_name : String
  pub city_name : String
  pub county_name : String
  pub street_name : String
  pub detail_info : String
  pub postal_code : String
  pub national_code : String
  pub is_default : Bool
  pub updated_at : ℕ
