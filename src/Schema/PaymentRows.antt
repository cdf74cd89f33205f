-- ===== src/Schema/PaymentRows.antt =====
-- Receiving accounts, payment attempts and webhook deliveries
-- (`packages/db/prisma/schema.prisma`). Amounts are minor units (cents).
use ling_dian.Prelude.{ℕ, String, Option}
use ling_dian.Prelude.Int.{ℤ}
use ling_dian.Schema.OrdersEnums.{PaymentChannel}
use ling_dian.Schema.PaymentsEnums.{
  PaymentProvider, PaymentAccountStatus, PaymentIntentStatus, PaymentReconciliationStatus,
  PaymentTransactionType,
}

pub record PaymentAccount : Type 0 where
  pub id : String
  pub store_id : String
  pub provider : PaymentProvider
  pub channel : PaymentChannel
  pub external_account_id : String
  pub connector_config_key : String
  pub status : PaymentAccountStatus

pub record PaymentIntent : Type 0 where
  pub id : String
  pub payment_no : String
  pub order_id : String
  pub account_id : String
  pub provider : PaymentProvider
  pub channel : PaymentChannel
  pub status : PaymentIntentStatus
  pub reconciliation_status : PaymentReconciliationStatus
  pub amount_minor : ℤ
  pub currency : String
  pub client_request_id : String
  pub provider_intent_id : Option String
  pub client_action : Option String
  pub failure_code : Option String
  pub failure_message : Option String
  pub expires_at : ℕ
  pub paid_at : Option ℕ

pub record PaymentTransaction : Type 0 where
  pub transaction_no : String
  pub payment_intent_id : String
  pub type : PaymentTransactionType
  pub amount_minor : ℤ
  pub currency : String
  pub provider_transaction_id : Option String
  pub idempotency_key : String
  pub occurred_at : Option ℕ

pub record PaymentWebhookEvent : Type 0 where
  pub provider : PaymentProvider
  pub account_id : String
  pub event_id : String
  pub payload_hash : String
  pub processed_at : Option ℕ
  pub processing_error : Option String
