-- ===== src/Schema/Database.antt =====
-- The whole database: one list of rows for each table that the modelled services use.
use ling_dian.Prelude.{List}
use ling_dian.Schema.OrderRows.{
  Order, OrderStatusLog, PickupCodeSequence, IntegrationOutbox, StoreIntegration,
}
use ling_dian.Schema.CatalogRows.{Store, ProductSku, SelectionOption}
use ling_dian.Schema.PaymentRows.{
  PaymentAccount, PaymentIntent, PaymentTransaction, PaymentWebhookEvent,
}
use ling_dian.Schema.AuthRows.{
  User, AuthIdentity, AuthSession, VerificationCode, AuthAuditLog, UserAddress,
}

pub record Database : Type 0 where
  pub orders : List Order
  pub order_status_logs : List OrderStatusLog
  pub pickup_code_sequences : List PickupCodeSequence
  pub integration_outbox : List IntegrationOutbox
  pub store_integrations : List StoreIntegration
  pub stores : List Store
  pub product_skus : List ProductSku
  pub selection_options : List SelectionOption
  pub payment_accounts : List PaymentAccount
  pub payment_intents : List PaymentIntent
  pub payment_transactions : List PaymentTransaction
  pub payment_webhook_events : List PaymentWebhookEvent
  pub users : List User
  pub auth_identities : List AuthIdentity
  pub auth_sessions : List AuthSession
  pub verification_codes : List VerificationCode
  pub auth_audit_logs : List AuthAuditLog
  pub user_addresses : List UserAddress
