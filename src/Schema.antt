-- ===== src/Schema.antt =====
-- The rows that the services read and write (`packages/db/prisma/schema.prisma`).
pub mod OrdersEnums
pub mod PaymentsEnums
pub mod StoresEnums
pub mod AuthEnums
pub mod OrderRows
pub mod CatalogRows
pub mod PaymentRows
pub mod AuthRows
pub mod Database
