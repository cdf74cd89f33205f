-- ===== src/Payments/Trails.antt =====
-- Webhook deliveries keep the audit trail of the orders.
use ling_dian.Prelude.{
  ℕ, ◌≤◌, String, Bool, true, ◌≡◌, ◌≢◌, refl, sym, ap, inl, inr, Option, none, some, List, [], ◌∷◌,
  All, count_where, Bool-cases, arith,
}
use mathlib.Core.Path.{subst}
use ling_dian.Prelude.Equality.{◌==◌, string_eq, nat_eq, eq_of_beq}
use ling_dian.Prelude.Results.{Result, ok, throw, or_throw, bad_request, not_found}
use ling_dian.Prelude.Actions.{Action, continue}
use ling_dian.Schema.OrdersEnums.{OrderStatus, order_status_eq}
use ling_dian.Schema.PaymentsEnums.{PaymentProvider, PaymentIntentStatus, payment_intent_status_eq}
use ling_dian.Schema.OrderRows.{Order}
use ling_dian.Schema.PaymentRows.{PaymentAccount, PaymentIntent}
use ling_dian.Schema.Database.{Database}
use ling_dian.Db.{Prisma, update_where}
use ling_dian.Orders.Transitions.{is_legal}
use ling_dian.Orders.Trail.{UniqueIds, move-TrailInv}
use ling_dian.Orders.Audit.{Audited}
use ling_dian.Payments.Rules.{PaymentWebhookPayload, is_succeeded, validate_payload}
use ling_dian.Stores.{primary_store_id}
use ling_dian.Payments.Webhooks.{
  Connector, WebhookSeed, Delivery, Reservation, proceed, processed, awaits_payment, paid,
  payment_log, pay_order, confirm, settle_intent, progress_intent, mark_event, apply_event,
  is_refused, commit_event, applied, process, receive, reserve_event, reserved, match_intent,
  handle_webhook, own_account,
}

update_where_none :
    {Row : Type 0} (p : Row → Bool) (f : Row → Row) (t : List Row)
    → count_where p t ≡ 0
    → update_where p f t ≡ t
update_where_none p f [] h = refl
update_where_none p f (r ∷ t) h = ground (arith, update_where_none p f t)

module _ (id store_id : String) where
  others_await :
      (orders : List Order)
      → All (λ o. o.id ≢ id) orders
      → count_where (awaits_payment id store_id) orders ≡ 0
  others_await [] h = refl
  others_await (o ∷ orders) h = ground (arith, eq_of_beq o.id id, h.0, others_await orders h.1)

  -- Ids are unique, so one order at most awaits this payment.
  one_awaits :
      (orders : List Order) → UniqueIds orders → count_where (awaits_payment id store_id) orders ≤ 1
  one_awaits [] u = omega arith
  one_awaits (o ∷ orders) u = elim (Bool-cases (awaits_payment id store_id o)) [
    | inl e ↦
        let same : o.id ≡ id = eq_of_beq o.id id (ground arith) in
        let rest : count_where (awaits_payment id store_id) orders ≡ 0 =
          others_await orders (subst (λ x. All (λ y. y.id ≢ x) orders) same u.0) in
        rw e (rw rest (omega arith))
    | inr e ↦ rw e (one_awaits orders u.1)
  ]

awaits-selects :
    (id store_id : String) (o : Order)
    → awaits_payment id store_id o ≡ true
    → (o.id ≡ id) × (some OrderStatus.pending_payment ≡ some o.status)
awaits-selects id store_id o h = (
  eq_of_beq o.id id (ground arith),
  ap some (sym (eq_of_beq o.status OrderStatus.pending_payment (ground arith))),
)

payment_legal :
    (from : OrderStatus)
    → some OrderStatus.pending_payment ≡ some from
    → is_legal (some from) OrderStatus.paid ≡ true
unfolding is_legal
payment_legal from e = subst (λ x. is_legal x OrderStatus.paid ≡ true) e refl

module _ (db : Prisma) where
  pay_order-Audited :
      (provider : PaymentProvider) (event_id : String) (i : PaymentIntent) (store_id : String)
      (occurred : ℕ) (s : Database)
      → Audited s
      → Audited (pay_order db provider event_id i store_id occurred s)
  unfolding pay_order
  pay_order-Audited provider event_id i store_id occurred s v =
      let id = i.order_id in
      rw (db.update_many_rows Order (awaits_payment id store_id) (paid occurred) s.orders)
        (elim (Bool-cases (count_where (awaits_payment id store_id) s.orders == 1)) [
          | inl e ↦ rw e (
              move-TrailInv (awaits_payment id store_id) (paid occurred)
                (payment_log provider event_id i) (awaits-selects id store_id) (λ o. (refl, refl))
                payment_legal s.orders s.order_status_logs
                (eq_of_beq (count_where (awaits_payment id store_id) s.orders) 1 e) v)
          | inr e ↦
              let none_ : count_where (awaits_payment id store_id) s.orders ≡ 0 =
                ground (arith, one_awaits id store_id s.orders v.unique, e) in
              rw e (
                rw (update_where_none (awaits_payment id store_id) (paid occurred) s.orders none_)
                  v)
        ])

  confirm-Audited :
      (seed : WebhookSeed) (w : Delivery) (account : PaymentAccount) (p : PaymentWebhookPayload)
      (i : PaymentIntent) (o : Order) (occurred : ℕ) (s : Database)
      → Audited s
      → Audited (confirm db seed w account p i o occurred s)
  unfolding settle_intent
  confirm-Audited seed w account p i o occurred s v =
      elim (Bool-cases (o.status == OrderStatus.pending_payment)) [
        | inl e ↦ rw e (pay_order-Audited w.provider p.event_id i account.store_id occurred _ v)
        | inr e ↦ rw e v
      ]

  apply_event-Audited :
      (seed : WebhookSeed) (w : Delivery) (account : PaymentAccount) (p : PaymentWebhookPayload)
      (i : PaymentIntent) (o : Order) (occurred : ℕ) (s : Database)
      → Audited s
      → Audited (apply_event db seed w account p i o occurred s)
  unfolding apply_event mark_event progress_intent
  apply_event-Audited seed w account p i o occurred s v = elim (Bool-cases (is_succeeded p)) [
    | inl e ↦ rw e (elim (Bool-cases (i.status == PaymentIntentStatus.succeeded)) [
      | inl f ↦ rw f v
      | inr f ↦ rw f (confirm-Audited seed w account p i o occurred s v)
    ])
    | inr e ↦ rw e v
  ]

  -- Whatever attempt and order were read, and however long ago, the transaction of a delivery keeps
  -- every order's status logs a chain of legal changes from its creation to its status.
  pub commit_event-Audited :
      (seed : WebhookSeed) (w : Delivery) (account : PaymentAccount) (p : PaymentWebhookPayload)
      (occurred : ℕ) (read : PaymentIntent × Order) (s : Database)
      → Audited s
      → Audited (commit_event db seed w account p occurred read s).1
  unfolding commit_event
  commit_event-Audited seed w account p occurred read s v =
      elim (Bool-cases (is_refused db seed p read.0 occurred s)) [
        | inl e ↦ rw e v
        | inr e ↦ rw e (apply_event-Audited seed w account p read.0 read.1 occurred s v)
      ]

  applied-Audited :
      (seed : WebhookSeed) (w : Delivery) (account : PaymentAccount) (p : PaymentWebhookPayload)
      (occurred : ℕ) (found : Option (PaymentIntent × Order)) (s : Database)
      → Audited s
      → Audited (applied db seed w account p occurred found s).1
  unfolding mark_event
  applied-Audited seed w account p occurred none s v = v
  applied-Audited seed w account p occurred (some x) s v =
      commit_event-Audited seed w account p occurred x s v

  process-Audited :
      (seed : WebhookSeed) (w : Delivery) (account : PaymentAccount) (p : PaymentWebhookPayload)
      (occurred : ℕ) (step : Reservation) (s : Database)
      → Audited s
      → Audited (process db seed w account p occurred step s).1
  unfolding process
  process-Audited seed w account p occurred processed s v = v
  process-Audited seed w account p occurred proceed s v =
      applied-Audited seed w account p occurred (match_intent db account p s) s v

  reserve_event-Audited :
      (w : Delivery) (event_id hash : String) (s : Database)
      → Audited s
      → Audited (reserve_event db w event_id hash s).1
  unfolding reserve_event
  reserve_event-Audited w event_id hash s v = go _ _
    where
      go :
          (events : Option (List _)) (found : Result Reservation)
          → Audited (reserved events found s).1
      go none found = v
      go (some events) found = v

-- A chain of two steps that keep a predicate keeps it.
continue-keeps :
    {S A B : Type 0} (P : S → Type 0) (r : Result A × S) (f : A → Action S B)
    → P r.1
    → ((a : A) (t : S) → P t → P (f a t).1)
    → P (continue r f).1
continue-keeps P (ok a, t) f h k = k a t h
continue-keeps P (throw e, t) f h k = h

receive-Audited :
    (db : Prisma) (c : Connector) (seed : WebhookSeed) (w : Delivery) (account : PaymentAccount)
    (p : PaymentWebhookPayload) (s : Database)
    → Audited s
    → Audited (receive db c seed w account p s).1
unfolding receive
receive-Audited db c seed w account p s v =
    continue-keeps Audited (validate_payload p, s) _ v
      λ _ t1 v1.
        continue-keeps Audited
          (
            or_throw (c.parse_date p.occurred_at) (bad_request "Invalid webhook occurrence time"),
            t1,
          )
          _ v1
          λ occurred t2 v2.
            continue-keeps Audited (reserve_event db w p.event_id (c.hash w.raw_body) t2) _
              (reserve_event-Audited db w p.event_id (c.hash w.raw_body) t2 v2)
              λ step t3 v3. process-Audited db seed w account p occurred step t3 v3

-- A webhook delivery, whatever it says and whatever the call returns, keeps every order's status
-- logs a chain of legal changes from its creation to its status.
pub handle_webhook-Audited :
    (db : Prisma) (config : Option String) (c : Connector) (seed : WebhookSeed) (w : Delivery)
    (s : Database)
    → Audited s
    → Audited (handle_webhook db config c seed w s).1
unfolding handle_webhook
handle_webhook-Audited db config c seed w s v =
    continue-keeps Audited (primary_store_id config, s) _ v
      λ store_id t1 v1.
        continue-keeps Audited
          (
            or_throw (db.find_first PaymentAccount (own_account w store_id) t1.payment_accounts)
                (not_found "Payment account not found"),
            t1,
          )
          _ v1
          λ account t2 v2.
            continue-keeps Audited (c.verify_webhook account w.raw_body, t2) _ v2
              λ p t3 v3. receive-Audited db c seed w account p t3 v3
