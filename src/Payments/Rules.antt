-- ===== src/Payments/Rules.antt =====
-- The shared parts of `backend/src/modules/payments/payments.service.ts`: the channel of a provider,
-- amounts, the public view of a payment attempt (`mapIntent`), and `validatePayload`. A column in
-- minor units and an order amount in cents are the same number.
use ling_dian.Prelude.{
  ℕ, String, Bool, not, ◌&&◌, ◌||◌, Option, List, [], ◌∷◌, leb, truthy, non_empty, if◌then◌else◌,
}
use ling_dian.Prelude.Int.{ℤ, magnitude, is_negative}
use ling_dian.Prelude.Equality.{◌==◌, includes, string_eq}
use ling_dian.Prelude.Results.{Result, ok, throw, bad_request, conflict}
use ling_dian.Schema.OrdersEnums.{PaymentChannel}
use ling_dian.Schema.PaymentsEnums.{PaymentProvider, PaymentIntentStatus}
use ling_dian.Schema.PaymentRows.{PaymentIntent}
use ling_dian.Orders.Pricing.{max_safe_integer}

abbrev pub provider_channel : PaymentProvider → PaymentChannel
provider_channel PaymentProvider.wechat_pay = PaymentChannel.wechat
provider_channel PaymentProvider.alipay = PaymentChannel.alipay
provider_channel PaymentProvider.unionpay = PaymentChannel.unionpay
provider_channel PaymentProvider.stripe = PaymentChannel.stripe
provider_channel PaymentProvider.paypal = PaymentChannel.paypal

abbrev pub is_safe : ℤ → Bool
is_safe amount = leb (magnitude amount) max_safe_integer

unfoldable pub to_minor : ℤ → Result ℤ
to_minor value = if is_safe value then ok value else throw (bad_request "Order amount is too large")

-- `amount <= 0`.
abbrev pub not_positive : ℤ → Bool
not_positive amount = is_negative amount || leb (magnitude amount) 0

pub record PaymentIntentView : Type 0 where
  pub payment_no : String
  pub order_id : String
  pub provider : PaymentProvider
  pub channel : PaymentChannel
  pub status : PaymentIntentStatus
  pub amount_minor : ℤ
  pub currency : String
  pub client_action : Option String
  pub expires_at : ℕ
  pub paid_at : Option ℕ

unfoldable pub map_intent : PaymentIntent → Result PaymentIntentView
map_intent i =
    if is_safe i.amount_minor
    then ok (record {
      payment_no = i.payment_no;
      order_id = i.order_id;
      provider = i.provider;
      channel = i.channel;
      status = i.status;
      amount_minor = i.amount_minor;
      currency = i.currency;
      client_action = i.client_action;
      expires_at = i.expires_at;
      paid_at = i.paid_at;
    })
    else throw (conflict "Payment amount exceeds API numeric range")

pub record PaymentWebhookPayload : Type 0 where
  pub event_id : String
  pub event_type : String
  pub payment_no : String
  pub provider_intent_id : String
  pub provider_transaction_id : Option String
  pub account_external_id : String
  pub amount_minor : ℤ
  pub currency : String
  pub occurred_at : String
  pub failure_code : Option String

abbrev pub known_events : List String
known_events = "PAYMENT_SUCCEEDED" ∷ "PAYMENT_PROCESSING" ∷ "PAYMENT_FAILED" ∷ []

abbrev pub is_succeeded : PaymentWebhookPayload → Bool
is_succeeded p = p.event_type == "PAYMENT_SUCCEEDED"

abbrev incomplete : PaymentWebhookPayload → Bool
incomplete p =
    not (non_empty p.event_id)
    || (not (non_empty p.payment_no)
        || (not (non_empty p.provider_intent_id) || not (non_empty p.account_external_id)))

unfoldable pub validate_payload : PaymentWebhookPayload → Result (Unit {0})
validate_payload p =
    if incomplete p
      || (not (is_safe p.amount_minor)
          || (not_positive p.amount_minor
              || (not (includes p.event_type known_events)
                  || (is_succeeded p && not (truthy p.provider_transaction_id)))))
    then throw (bad_request "Invalid payment webhook payload")
    else ok tt
