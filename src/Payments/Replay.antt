-- ===== src/Payments/Replay.antt =====
-- A webhook delivery that is sent again (`handleWebhook` of
-- `backend/src/modules/payments/payments.service.ts`): proofs.
use ling_dian.Prelude.Equality.{string_eq, nat_eq}
use ling_dian.Schema.OrdersEnums.{order_status_eq}
use ling_dian.Schema.PaymentsEnums.{payment_intent_status_eq}
use ling_dian.Schema.Database.{Database}
