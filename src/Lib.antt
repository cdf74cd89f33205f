-- ===== src/Lib.antt =====
-- LingDian, the ordering system of a single store: a model of the core of its backend, and what
-- is proved of it.
--
-- The program. A NestJS backend (`backend/`) over MySQL (`packages/db/prisma/schema.prisma`,
-- through the Prisma client) serves a mini-program, an administration site and external
-- connectors. Placing an order (`backend/src/modules/orders`) asks the store policy
-- (`backend/src/modules/stores`) for the one configured store, prices the items by the
-- catalogue, takes a pickup code (`pickup-code.service.ts`), and writes the order, its status
-- logs and the work for the connectors (`backend/src/modules/integrations`) in one transaction.
-- Payments (`backend/src/modules/payments`) start an attempt at a gateway and mark the order
-- paid when a verified webhook confirms it. A poller hands the work for the connectors to them.
-- Users sign in with a code that was sent to their phone, hold a session whose refresh token is
-- exchanged at each use (`backend/src/modules/auth`), and pass a guard with every request
-- (`backend/src/common/auth`).
--
-- The files. `Prelude` has the shared library: Boolean tests, lists, text, decimal numbers,
-- integers, `Result` (a value or an exception), `Action` (a call that changes a state and may
-- throw) and the transaction that undoes a call that throws. `Db` is the database client as an
-- interface with the client's documented laws, and one implementation over lists. `Schema` has
-- the tables as records and the database as a record of lists of rows. `Stores` is
-- `store-context.resolver.ts`; `Addresses` is `addresses.service.ts` without `list`, `Pickup` is
-- `pickup-code.service.ts`; `Outbox/Enqueue` is `enqueueOrderCreated` and `Outbox/Delivery` the
-- delivery of `integration-outbox.service.ts`; `Outbox/Interleavings` has the steps of the
-- processes that share the outbox. Of `orders.service.ts`, `Orders/Transitions` has the status
-- machine, `Orders/Scope` the scopes and filters, `Orders/Detail` the view of an order,
-- `Orders/Lists` the lists and the summary, `Orders/Status` `updateOrderStatus` and
-- `deleteOrder`, `Orders/Pricing` the loop over the items, and `Orders/Create` `createOrder`;
-- the other files of `Orders` have proofs. `Payments/Rules`, `Payments/Intents`,
-- `Payments/Webhooks` and `Payments/Accounts` are `payments.service.ts`; the other files of
-- `Payments` have proofs. Of `backend/src/modules/auth`, `Auth/Audit` is `audit.service.ts`,
-- `Auth/Users`, `Auth/Sessions` and `Auth/Refreshing` are `session.service.ts`, `Auth/Phone` is
-- `phone.ts`; `Auth/Codes`, `Auth/Reservation` and `Auth/Sending` are `verification.service.ts`;
-- `Auth/TokenClaims` and `Auth/Guard` are `backend/src/common/auth/access-token.guard.ts`; the
-- other files of `Auth` have proofs. `Merchants` has the guards of the roles and the store scope
-- of merchants (`backend/src/modules/merchant/merchant-store-scope.ts`), `Merchants/Ranks` is
-- `backend/src/modules/admin-users/admin-user-policy.ts`. `Tests` runs the models on a small
-- shop.
--
-- The state. Every call is a function from the database to a result and a database. Where a
-- theorem lets other calls run between the reads of a method and its writes, the method is two
-- functions: `begin_update` and `commit_update`, `begin_delete` and `commit_delete`,
-- `begin_refresh` and `commit_refresh`, `begin_order` and `commit_order`, and `commit_event` of
-- a webhook takes the attempt and the order as they were read. `commit_order` also takes the
-- snapshot that the reads of its transaction see, which may lack what other calls have
-- committed. A whole method (`update_order_status`, `refresh`, `create_order`,
-- `handle_webhook`, `create_intent` and all others) is one run of its parts with nothing in
-- between. A transaction that throws leaves the database as it was. The clock, random ids,
-- the payment gateway, the connectors, the SMS provider, signatures and hashes, `new
-- Date(text)` and the deployment's settings are arguments. Processes that share the outbox are
-- a relation of steps: a row that one has read stays as it was read, whatever the others write.
--
-- Numbers. A money column has two decimals, so an amount is its number of cents, an integer;
-- the range checks of `toCents` and `fromCents` are kept. A time is its milliseconds since the
-- epoch, and Asia/Shanghai is UTC+8. The loops of the program run over lists, but for the three
-- tries of an address transaction and of a code's reservation and the ten draws of a code,
-- which count down as in the source; no other fuel is needed.
--
-- Not modelled: controllers, OAuth, accounts and passwords, the login by phone around the codes
-- and sessions, the timer of the outbox, the list of addresses, the catalogue's administration,
-- system logs, metrics and the front ends. Request bodies are taken after their validation by
-- the DTO classes. Text in error messages that repeats an argument is shortened.
pub mod Prelude
pub mod Db
pub mod Schema
pub mod Stores
pub mod Addresses
pub mod Pickup
pub mod Outbox
pub mod Orders
pub mod Payments
pub mod Auth
pub mod Merchants
pub mod Tests
