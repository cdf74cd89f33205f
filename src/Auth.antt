-- ===== src/Auth.antt =====
-- Accounts, sessions and access (`backend/src/modules/auth`, `backend/src/common/auth`).
pub mod Audit
pub mod Users
pub mod Phone
pub mod Codes
pub mod Reservation
pub mod Sending
pub mod CodeLimits
pub mod CodesSent
pub mod SingleUse
pub mod UsedUp
pub mod Consumption
pub mod CodesWork
pub mod Sessions
pub mod Refreshing
pub mod TokenClaims
pub mod Guard
pub mod Rotation
pub mod Refusal
pub mod Replay
pub mod Race
pub mod Access
pub mod Lockout
pub mod StoreIds
pub mod Claims
