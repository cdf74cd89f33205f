-- ===== src/Orders/Retry.antt =====
-- Sending an order again is safe.
use ling_dian.Prelude.{
  String, true, false, ◌≡◌, refl, sym, ap, ◌∙◌, inl, inr, Option, some, none, List, [], ◌∷◌, ◌++◌,
  All-member, Member, if◌then◌else◌, truthy, Option-cases,
}
use ling_dian.Prelude.Equality.{string_eq, option_eq, beq_refl}
use ling_dian.Prelude.Results.{ok}
use ling_dian.Schema.StoresEnums.{IntegrationProvider}
use ling_dian.Schema.OrderRows.{Order}
use ling_dian.Schema.Database.{Database}
use ling_dian.Db.{Prisma}
use ling_dian.Stores.{resolve_requested_store_id}
use ling_dian.Orders.Detail.{OrderDetail, map_order_detail}
use ling_dian.Orders.Outcome.{Outcome, replayed, created, create_order-Outcome}
use ling_dian.Orders.NewOrder.{create_new-IsNewOrder}
use ling_dian.Orders.Create.{
  CreateOrder, Caller, find_idempotent_order, is_request, create_order, begin_order,
}

Member-snoc : (o : Order) (orders : List Order) → Member o (orders ++ o ∷ [])
Member-snoc o [] = inl refl
Member-snoc o (x ∷ orders) = inr (Member-snoc o orders)

module _ (db : Prisma) (store_id : String) (customer request : Option String)
    (signed : truthy customer ≡ true) (named : truthy request ≡ true) where
  find_idempotent_order_lem :
      (s : Database)
      → find_idempotent_order db store_id customer request s
        ≡ db.find_first Order (is_request store_id customer request) s.orders
  unfolding find_idempotent_order
  find_idempotent_order_lem s = rw (signed, named)

  -- A row with the request's key is found again, or another with that key.
  pub found_again :
      (s : Database) (o : Order)
      → Member o s.orders
      → is_request store_id customer request o ≡ true
      → (x : Order) × (find_idempotent_order db store_id customer request s ≡ some x)
        × Member x s.orders
        × (is_request store_id customer request x ≡ true)
  found_again s o m key =
      elim (Option-cases (db.find_first Order (is_request store_id customer request) s.orders)) [
        | inl e ↦
            let all =
              db.find_first_missing Order (is_request store_id customer request) s.orders e in
            let clash : true ≡ false = sym key ∙ All-member _ o s.orders all m in cc
        | inr (x, e) ↦
            let (px, mx) =
              db.find_first_found Order (is_request store_id customer request) s.orders x e in
            (x, find_idempotent_order_lem s ∙ e, mx, px)
      ]

module _ (db : Prisma) (config : Option String) (providers : List IntegrationProvider)
    (body : CreateOrder) (caller again : Caller)
    (same : again.customer_user_id ≡ caller.customer_user_id)
    (signed : truthy caller.customer_user_id ≡ true)
    (named : truthy body.client_request_id ≡ true) where
  -- The order of the request, as a later call finds it.
  abbrev pub IsKnown : Database → String → Order → Type 0
  IsKnown t store_id o =
      (resolve_requested_store_id config body.store_id ≡ ok store_id)
      × (find_idempotent_order db store_id caller.customer_user_id body.client_request_id t
          ≡ some o)
      × Member o t.orders
      × (is_request store_id caller.customer_user_id body.client_request_id o ≡ true)

  new_order-key :
      (store_id : String) (o : Order)
      → o.store_id ≡ store_id
      → o.customer_user_id ≡ caller.customer_user_id
      → o.client_request_id ≡ body.client_request_id
      → is_request store_id caller.customer_user_id body.client_request_id o ≡ true
  new_order-key store_id o e1 e2 e3 =
      rw (e1, e2, e3)
        (rw (beq_refl store_id)
          (rw (beq_refl caller.customer_user_id) (beq_refl body.client_request_id)))

  IsKnown-after :
      (s : Database) {t : Database} {d : OrderDetail}
      → Outcome db config providers body caller s t d
      → (store_id : String) × (o : Order) × IsKnown t store_id o
  IsKnown-after s (replayed store_id o store found) =
      let (px, m) =
        db.find_first_found Order
          (is_request store_id caller.customer_user_id body.client_request_id) s.orders o
          (sym (
              find_idempotent_order_lem db store_id caller.customer_user_id body.client_request_id
                signed named s)
            ∙ found) in
      (store_id, o, (store, found, m, px))
  IsKnown-after s {t} {d} (created store_id delivery items store unknown normal made) =
      let n =
        create_new-IsNewOrder db config providers body caller store_id delivery items s s t d
          made in
      let p = n.placed in
      let request : p.order.client_request_id ≡ body.client_request_id =
        ap (λ o. o.client_request_id) p.row
        ∙ ap (λ b. if b then body.client_request_id else none) signed in
      let (x, found, m, px) =
        found_again db store_id caller.customer_user_id body.client_request_id signed named t
          p.order (rw (p.orders) (Member-snoc p.order s.orders))
          (new_order-key store_id p.order (ap (λ o. o.store_id) p.row)
            (ap (λ o. o.customer_user_id) p.row) request) in
      (store_id, x, (store, found, m, px))

  -- A signed-in customer sends an order with a request id, and the call succeeds. Sending it again,
  -- at any later time, succeeds as well, changes nothing, and returns a stored order of the same
  -- store, customer and request id.
  pub create_order-retry :
      (s t : Database) (d : OrderDetail)
      → create_order db config providers body caller s ≡ (ok d, t)
      → (store_id : String) × (o : Order) × IsKnown t store_id o
        × (create_order db config providers body again t
            ≡ (ok (map_order_detail t.order_status_logs o), t))
  unfolding create_order begin_order
  create_order-retry s t d h =
      let (store_id, o, known) =
        IsKnown-after s (create_order-Outcome db config providers body caller s t d h) in
      (store_id, o, known, rw (known.0) (rw same (rw (known.1))))
