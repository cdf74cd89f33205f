-- ===== src/Orders.antt =====
-- Orders (`backend/src/modules/orders/orders.service.ts`).
pub mod Transitions
pub mod Scope
pub mod Detail
pub mod Status
pub mod Trail
pub mod Commits
pub mod Rivals
pub mod Audit
pub mod Pricing
pub mod Amounts
pub mod Selections
pub mod Bill
pub mod Create
pub mod Placement
pub mod NewTrail
pub mod Outcome
pub mod NewOrder
pub mod Retry
pub mod Contest
pub mod Lists
pub mod Pages
