-- ===== src/Tests/Payments.antt =====
-- A webhook that confirms the payment of a waiting order.
use ling_dian.Prelude.{true, ◌≡◌, refl, none, some, [], ◌∷◌, map, trim}
use ling_dian.Prelude.Int.{pos}
use ling_dian.Prelude.Results.{ok}
use ling_dian.Schema.OrdersEnums.{OrderStatus, PaymentChannel}
use ling_dian.Schema.PaymentsEnums.{
  PaymentProvider, PaymentAccountStatus, PaymentIntentStatus, PaymentReconciliationStatus,
}
use ling_dian.Schema.PaymentRows.{PaymentAccount, PaymentIntent}
use ling_dian.Schema.Database.{Database}
use ling_dian.Db.{listed}
use ling_dian.Stores.{primary_store_id}
use ling_dian.Orders.Audit.{Audited}
use ling_dian.Payments.Rules.{PaymentIntentView, PaymentWebhookPayload, validate_payload}
use ling_dian.Payments.Webhooks.{
  Connector, WebhookSeed, Delivery, handle_webhook, receive, reserve_event, process, match_intent,
  commit_event, is_refused, apply_event, mark_event, settle_intent, pay_order,
}
use ling_dian.Payments.Trails.{handle_webhook-Audited}
use ling_dian.Tests.Samples.{config}
use ling_dian.Tests.Orders.{open_shop, audited}

abbrev account : PaymentAccount
account = record {
  id = "acc1";
  store_id = "s1";
  provider = PaymentProvider.wechat_pay;
  channel = PaymentChannel.wechat;
  external_account_id = "m1";
  connector_config_key = "wx";
  status = PaymentAccountStatus.active;
}

abbrev attempt : PaymentIntent
attempt = record {
  id = "i1";
  payment_no = "PAY1";
  order_id = "order1";
  account_id = "acc1";
  provider = PaymentProvider.wechat_pay;
  channel = PaymentChannel.wechat;
  status = PaymentIntentStatus.pending;
  reconciliation_status = PaymentReconciliationStatus.pending;
  amount_minor = pos 3800;
  currency = "CNY";
  client_request_id = "c1";
  provider_intent_id = some "wx1";
  client_action = none;
  failure_code = none;
  failure_message = none;
  expires_at = 900000;
  paid_at = none;
}

abbrev counter : Database
counter = record open_shop { payment_accounts = account ∷ []; payment_intents = attempt ∷ [] }

abbrev confirmation : PaymentWebhookPayload
confirmation = record {
  event_id = "ev1";
  event_type = "PAYMENT_SUCCEEDED";
  payment_no = "PAY1";
  provider_intent_id = "wx1";
  provider_transaction_id = some "t1";
  account_external_id = "m1";
  amount_minor = pos 3800;
  currency = "CNY";
  occurred_at = "2024-01-01T00:00:00Z";
  failure_code = none;
}

abbrev connector : Connector
connector = record {
  verify_webhook = λ a body. ok confirmation;
  hash = λ body. body;
  parse_date = λ text. some 5000;
}

abbrev seed : WebhookSeed
seed = record { now = 6000; transaction_no = "TX1" }

abbrev delivery : Delivery
delivery = record { provider = PaymentProvider.wechat_pay; account_id = "acc1"; raw_body = "{}" }

abbrev after : Database
after = (handle_webhook listed config connector seed delivery counter).1

-- The order is paid, and the same delivery sent again is known.
confirmed_test : map (λ o. o.status) after.orders ≡ OrderStatus.paid ∷ []
unfolding listed handle_webhook primary_store_id trim receive validate_payload reserve_event process
    match_intent commit_event is_refused apply_event mark_event settle_intent pay_order
confirmed_test = refl

replay_test :
    (handle_webhook listed config connector seed delivery after).0
    ≡ ok (record { duplicate = true })
unfolding listed handle_webhook primary_store_id trim receive validate_payload reserve_event process
    match_intent commit_event is_refused apply_event mark_event settle_intent pay_order
replay_test = refl

counter_audited : Audited counter
counter_audited = audited

handle_webhook-Audited_example : Audited after
handle_webhook-Audited_example =
    handle_webhook-Audited listed config connector seed delivery counter counter_audited

abbrev later : WebhookSeed
later = record { now = 7000; transaction_no = "TX2" }

abbrev view : PaymentIntentView
view = record {
  payment_no = "PAY1";
  order_id = "order1";
  provider = PaymentProvider.wechat_pay;
  channel = PaymentChannel.wechat;
  status = PaymentIntentStatus.pending;
  amount_minor = pos 3800;
  currency = "CNY";
  client_action = none;
  expires_at = 900000;
  paid_at = none;
}
