-- ===== src/Payments.antt =====
-- Payments (`backend/src/modules/payments/payments.service.ts`).
pub mod Rules
pub mod Intents
pub mod Webhooks
pub mod Trails
pub mod Events
pub mod Replay
pub mod Accounts
