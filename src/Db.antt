-- ===== src/Db.antt =====
-- The tables and the client that the services call (`backend/src/prisma/prisma.service.ts`).
mod Tables
mod Client
mod Listed
mod Unique
pub use Tables.*
pub use Client.*
unfoldable pub use Listed.*
pub use Unique.*
