-- ===== src/Tests.antt =====
-- Tests of the models and examples of their theorems, on a small shop.
pub mod Samples
pub mod Stores
pub mod Pickup
pub mod Orders
pub mod NewOrders
pub mod Addresses
pub mod Lists
pub mod Payments
pub mod Outbox
pub mod Auth
pub mod Codes
pub mod Merchants
