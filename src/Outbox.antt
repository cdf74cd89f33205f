-- ===== src/Outbox.antt =====
-- The integration outbox (`backend/src/modules/integrations/integration-outbox.service.ts`).
pub mod Enqueue
pub mod Delivery
pub mod Soundness
pub mod Interleavings
pub mod Attempts
pub mod Settling
