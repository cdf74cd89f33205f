-- ===== src/Orders/NewOrder.antt =====
-- A new order by its checks and its writes: the bill and what is stored.
use mathlib.Core.Path.{subst}
use ling_dian.Prelude.{String, ◌≡◌, sym, ap, ◌∙◌, Option, List, [], ◌∷◌, ◌++◌, arith}
use ling_dian.Prelude.Int.{ℤ, pos, zero-+ℤ}
use ling_dian.Prelude.Equality.{nat_eq}
use ling_dian.Prelude.Results.{ok, bind-eq-ok, ok-injective}
use ling_dian.Prelude.Actions.{continue-eq-ok}
use ling_dian.Schema.StoresEnums.{IntegrationProvider}
use ling_dian.Schema.CatalogRows.{ProductSku, SelectionOption}
use ling_dian.Schema.OrderRows.{OrderItem}
use ling_dian.Schema.Database.{Database}
use ling_dian.Db.{Prisma}
use ling_dian.Stores.{resolve_current_store}
use ling_dian.Orders.Detail.{OrderDetail}
use ling_dian.Orders.Pricing.{NormalizedItem, sku_map, option_map, price_items}
use ling_dian.Orders.Amounts.{sum_subtotals}
use ling_dian.Orders.Bill.{AllBilled, price_items-AllBilled}
use ling_dian.Orders.NewTrail.{add-TrailInv}
use ling_dian.Orders.Trail.{TrailInv}
use ling_dian.Orders.Audit.{Audited}
use ling_dian.Orders.Placement.{Placed, place_order-Placed}
use ling_dian.Orders.Outcome.{Outcome, replayed, created, create_order-Outcome}
use ling_dian.Orders.Create.{
  CreateOrder, Caller, Delivery, Customer, sellable, selectable, wanted_skus, wanted_options,
  quote_items, accept_order, create_new, create_order, place_order, resolve_customer, check_store,
}

module _ (db : Prisma) (config : Option String) (providers : List IntegrationProvider)
    (body : CreateOrder) (caller : Caller) where
  -- A new order by its checks and its writes.
  pub record IsNewOrder (store_id : String) (delivery : Option Delivery)
      (items : List NormalizedItem) (snapshot s t : Database) (d : OrderDetail) : Type 0 where
    pub customer : Customer
    pub lines : List OrderItem
    pub total : ℤ
    pub billed :
        AllBilled
          (sku_map
            (db.find_many ProductSku (sellable store_id (wanted_skus items)) snapshot.product_skus))
          (option_map (
            db.find_many SelectionOption
              (selectable (wanted_options items))
              snapshot.selection_options))
          items
          lines
    pub sum : total ≡ sum_subtotals lines
    pub placed : Placed db body caller store_id delivery customer lines total s t d

  quote_items-priced :
      (store_id : String) (items : List NormalizedItem) (s : Database) (bill : List OrderItem × ℤ)
      → quote_items db store_id items s ≡ ok bill
      → price_items
          (sku_map (db.find_many ProductSku (sellable store_id (wanted_skus items)) s.product_skus))
          (option_map
            (db.find_many SelectionOption (selectable (wanted_options items)) s.selection_options))
          (pos 0)
          items
        ≡ ok bill
  unfolding quote_items
  quote_items-priced store_id items s bill h = ground arith

  accept_order-quoted :
      (store_id : String) (delivery : Option Delivery) (items : List NormalizedItem) (s : Database)
      (a : Customer × (List OrderItem × ℤ))
      → accept_order db config body caller store_id delivery items s ≡ ok a
      → quote_items db store_id items s ≡ ok a.1
  unfolding accept_order
  accept_order-quoted store_id delivery items s a h =
      let (customer, _, k1) =
        bind-eq-ok (resolve_customer db body caller.customer_user_id delivery s) _ h in
      let (store, _, k2) = bind-eq-ok (resolve_current_store db config s) _ k1 in
      let (_, _, k3) = bind-eq-ok (check_store body.order_type store) _ k2 in
      let (bill, quoted, k4) = bind-eq-ok (quote_items db store_id items s) _ k3 in
      quoted ∙ ap (λ x. ok x.1) (ok-injective k4)

  IsNewOrder-bill :
      (store_id : String) (delivery : Option Delivery) (items : List NormalizedItem)
      (snapshot s t : Database) (d : OrderDetail) (a : Customer × (List OrderItem × ℤ))
      → quote_items db store_id items snapshot ≡ ok a.1
      → place_order db config providers body caller store_id delivery a.0 a.1.0 a.1.1 s ≡ (ok d, t)
      → IsNewOrder store_id delivery items snapshot s t d
  IsNewOrder-bill store_id delivery items snapshot s t d a quoted placed =
      let (billed, total) =
        price_items-AllBilled _ _ (pos 0) items a.1
          (quote_items-priced store_id items snapshot a.1 quoted) in
      record {
        customer = a.0;
        lines = a.1.0;
        total = a.1.1;
        billed = billed;
        sum = total ∙ zero-+ℤ (sum_subtotals a.1.0);
        placed =
            place_order-Placed db config providers body caller store_id delivery a.0 a.1.0 a.1.1 s t
              d placed;
      }

  -- When the part of the transaction that makes a new order succeeds, whatever other calls committed
  -- since its snapshot was taken: the items were billed by the rows of this store in the snapshot's
  -- catalogue, the total is the sum of the subtotals, the order has the next pickup code of its
  -- counter, and its row, its two logs and the counter after that code are in the database that
  -- results, the row beside rows that it does not clash with.
  pub create_new-IsNewOrder :
      (store_id : String) (delivery : Option Delivery) (items : List NormalizedItem)
      (snapshot s t : Database) (d : OrderDetail)
      → create_new db config providers body caller store_id delivery items snapshot s ≡ (ok d, t)
      → IsNewOrder store_id delivery items snapshot s t d
  create_new-IsNewOrder store_id delivery items snapshot s t d h =
      let (a, s1, e1, k1) =
        continue-eq-ok (accept_order db config body caller store_id delivery items snapshot, s) _
          h in
      let here : s1 ≡ s = sym (ap (λ r. r.1) e1) in
      IsNewOrder-bill store_id delivery items snapshot s t d a
        (accept_order-quoted store_id delivery items snapshot a (ap (λ r. r.0) e1))
        (subst
          (λ u.
            place_order db config providers body caller store_id delivery a.0 a.1.0 a.1.1 u
            ≡ (ok d, t))
          here k1)

  Placed-Audited :
      (store_id : String) (delivery : Option Delivery) (customer : Customer)
      (items : List OrderItem) (total : ℤ) (s t : Database) (d : OrderDetail)
      → Placed db body caller store_id delivery customer items total s t d
      → Audited s
      → Audited t
  Placed-Audited store_id delivery customer items total s t d p v =
      subst (λ o. TrailInv o t.order_status_logs) (sym p.orders)
        (subst (TrailInv (s.orders ++ p.order ∷ [])) (sym p.logs)
          (add-TrailInv p.order (ap (λ o. o.status) p.row) s.orders s.order_status_logs p.fresh v))

  -- Placing an order, new or known, keeps every order's status logs a chain of legal changes from
  -- its creation to its status.
  pub create_order-Audited :
      (s t : Database) (d : OrderDetail)
      → create_order db config providers body caller s ≡ (ok d, t)
      → Audited s
      → Audited t
  create_order-Audited s t d h v =
      kept (create_order-Outcome db config providers body caller s t d h)
    where
      kept :
          {t : Database} {d : OrderDetail}
          → Outcome db config providers body caller s t d
          → Audited t
      kept (replayed store_id o store found) = v
      kept {t} {d} (created store_id delivery items store unknown normal made) =
          let n = create_new-IsNewOrder store_id delivery items s s t d made in
          Placed-Audited store_id delivery n.customer n.lines n.total s t d n.placed v
