-- ===== src/Orders/Placement.antt =====
-- What placing an order writes.
use mathlib.Core.Path.{subst}
use ling_dian.Prelude.{
  String, false, ◌≡◌, sym, ap, ◌∙◌, inl, inr, ◌++◌, Option, some, List, [], ◌∷◌, any, Bool-cases,
}
use ling_dian.Prelude.Int.{ℤ}
use ling_dian.Prelude.Equality.{string_eq}
use ling_dian.Prelude.Results.{ok, ok-injective}
use ling_dian.Prelude.Actions.{continue-eq-ok}
use ling_dian.Schema.StoresEnums.{IntegrationProvider}
use ling_dian.Schema.OrderRows.{Order, OrderItem}
use ling_dian.Schema.Database.{Database}
use ling_dian.Db.{Prisma}
use ling_dian.Pickup.{AllocatedPickupCode, allocate_pickup_code}
use ling_dian.Pickup.Allocation.{Allocated, allocate_pickup_code-Allocated}
use ling_dian.Outbox.Enqueue.{enqueue_order_created, enqueue-rest}
use ling_dian.Orders.Detail.{OrderDetail, map_order_detail}
use ling_dian.Orders.Pricing.{from_cents}
use ling_dian.Orders.Amounts.{from_cents-ok}
use ling_dian.Orders.Create.{
  CreateOrder, Caller, Delivery, Customer, new_order, order_clash, first_logs, insert_order,
  place_order,
}

-- A new order was written: its row beside rows that it does not clash with, its two logs, and the
-- counters as they are after the next pickup code of its counter was taken.
pub record Placed (db : Prisma) (body : CreateOrder) (caller : Caller) (store_id : String)
    (delivery : Option Delivery) (customer : Customer) (items : List OrderItem) (total : ℤ)
    (s t : Database) (d : OrderDetail) : Type 0 where
  pub pickup : AllocatedPickupCode
  pub counted : Database
  pub allocated : Allocated db store_id caller.order_source s counted pickup
  pub order : Order
  pub row : order ≡ new_order body caller store_id delivery customer pickup items total
  pub fresh : any (order_clash order) s.orders ≡ false
  pub orders : t.orders ≡ s.orders ++ order ∷ []
  pub logs : t.order_status_logs ≡ s.order_status_logs ++ first_logs order.id
  pub counters : t.pickup_code_sequences ≡ counted.pickup_code_sequences
  pub shown : d ≡ map_order_detail t.order_status_logs order

insert_order-ok :
    (db : Prisma) (o : Order) (s t : Database)
    → insert_order db o s ≡ (ok tt, t)
    → (any (order_clash o) s.orders ≡ false)
      × (t.orders ≡ s.orders ++ o ∷ [])
      × (t.order_status_logs ≡ s.order_status_logs ++ first_logs o.id)
      × (t.pickup_code_sequences ≡ s.pickup_code_sequences)
unfolding insert_order
insert_order-ok db o s t h =
    let k = rw (db.create_row Order (order_clash o) o s.orders) at h in
    elim (Bool-cases (any (order_clash o) s.orders)) [
      | inl e ↦ let l = rw e at k in cc
      | inr e ↦
          let l = rw e at k in
          let after = sym (ap (λ r. r.1) l) in
          (
            e,
            ap (λ u. u.orders) after,
            ap (λ u. u.order_status_logs) after,
            ap (λ u. u.pickup_code_sequences) after,
          )
    ]

pub place_order-Placed :
    (db : Prisma) (config : Option String) (providers : List IntegrationProvider)
    (body : CreateOrder) (caller : Caller) (store_id : String) (delivery : Option Delivery)
    (customer : Customer) (items : List OrderItem) (total : ℤ) (s t : Database) (d : OrderDetail)
    → place_order db config providers body caller store_id delivery customer items total s
      ≡ (ok d, t)
    → Placed db body caller store_id delivery customer items total s t d
unfolding place_order
place_order-Placed db config providers body caller store_id delivery customer items total s t d h =
    let (pickup, s1, e1, k1) =
      continue-eq-ok (allocate_pickup_code db store_id caller.order_source (some caller.now) s) _
        h in
    let (amount, s2, e2, k2) = continue-eq-ok (from_cents total, s1) _ k1 in
    let o = new_order body caller store_id delivery customer pickup items amount in
    let (_, s3, e3, k3) = continue-eq-ok (insert_order db o s2) _ k2 in
    let (_, s4, e4, k4) =
      continue-eq-ok (enqueue_order_created db config providers caller.event o s3) _ k3 in
    let got =
      allocate_pickup_code-Allocated db store_id caller.order_source (some caller.now) s s1 pickup
        e1 in
    let same2 : s1 ≡ s2 = ap (λ r. r.1) e2 in
    let exact : amount ≡ total = (from_cents-ok total amount (ap (λ r. r.0) e2)).0 in
    let (fresh, rows, logs, sequences) = insert_order-ok db o s2 s3 e3 in
    let sent = enqueue-rest db config providers caller.event o s3 s4 e4 in
    let last : s4 ≡ t = ap (λ r. r.1) k4 in
    let base_orders : s2.orders ≡ s.orders = ap (λ u. u.orders) (sym same2 ∙ got.rest) in
    let base_logs : s2.order_status_logs ≡ s.order_status_logs =
      ap (λ u. u.order_status_logs) (sym same2 ∙ got.rest) in
    record {
      pickup = pickup;
      counted = s1;
      allocated = got;
      order = o;
      row = ap (new_order body caller store_id delivery customer pickup items) exact;
      fresh = subst (λ x. any (order_clash o) x ≡ false) base_orders fresh;
      orders = ap (λ u. u.orders) (sym last ∙ sent) ∙ rows ∙ ap (λ x. x ++ o ∷ []) base_orders;
      logs =
          ap (λ u. u.order_status_logs) (sym last ∙ sent)
          ∙ logs
          ∙ ap (λ x. x ++ first_logs o.id) base_logs;
      counters =
          ap (λ u. u.pickup_code_sequences) (sym last ∙ sent)
          ∙ sequences
          ∙ ap (λ u. u.pickup_code_sequences) (sym same2);
      shown =
          sym (ok-injective (ap (λ r. r.0) k4))
          ∙ ap (λ u. map_order_detail u.order_status_logs o) last;
    }
