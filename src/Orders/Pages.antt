-- ===== src/Orders/Pages.antt =====
-- What a page of orders and the summary of a list hold.
use ling_dian.Prelude.{
  ℕ, suc, ◌+◌, ◌-◌, ◌*◌, ◌≤◌, String, Bool, true, false, ◌&&◌, ◌≡◌, refl, sym, ap, ◌∙◌, Option,
  none, List, [], ◌∷◌, map, drop, length, length-take, length-drop, count_where, or_else, arith,
}
use Prim.Native.Nat.{min}
use mathlib.Core.Path.{subst}
use ling_dian.Prelude.Equality.{includes, string_eq}
use ling_dian.Prelude.Results.{ok, bind-eq-ok, ok-injective}
use ling_dian.Schema.OrdersEnums.{OrderStatus, order_status_eq}
use ling_dian.Schema.OrderRows.{Order}
use ling_dian.Schema.Database.{Database}
use ling_dian.Db.{Prisma}
use ling_dian.Orders.Scope.{OrderScope, QueryOrders, hides_deleted, build_order_where}
use ling_dian.Orders.Lists.{
  OrderPage, OrderSummaryStats, map_order_summary, page_rows, get_orders, get_order_summary,
  paid_statuses, with_statuses,
}

length-map : {A B : Type 0} (f : A → B) (xs : List A) → length (map f xs) ≡ length xs
length-map f [] = refl
length-map f (x ∷ xs) = ap suc (length-map f xs)

-- A list of orders succeeds with the page and size asked for, 1 and 50 by default; the page holds as
-- many orders as are left of the total after the earlier pages, but at most the page's size.
pub get_orders-length :
    (db : Prisma) (parse : String → Option ℕ) (contains : String → String → Bool)
    (config : Option String) (query : QueryOrders) (scope : OrderScope) (s : Database)
    (p : OrderPage)
    → get_orders db parse contains config query scope s ≡ ok p
    → (p.page ≡ or_else query.page 1)
      × (p.page_size ≡ or_else query.page_size 50)
      × (length p.items ≡ min p.page_size (p.total - (p.page - 1) * p.page_size))
unfolding get_orders
get_orders-length db parse contains config query scope s p h =
    let (where_, e, k) =
      bind-eq-ok (build_order_where parse contains config query true scope) _ h in
    let page = or_else query.page 1 in
    let size = or_else query.page_size 50 in
    let rows = db.find_latest Order where_ (λ o. o.created_at) s.orders in
    let counted : length rows ≡ db.count Order where_ s.orders =
      db.find_latest_count Order where_ (λ o. o.created_at) s.orders
      ∙ sym (db.count_rows Order where_ s.orders) in
    subst
      (λ q.
        (q.page ≡ page)
        × (q.page_size ≡ size)
        × (length q.items ≡ min q.page_size (q.total - (q.page - 1) * q.page_size)))
      (ok-injective k)
      (
        refl,
        refl,
        length-map (map_order_summary db s.stores) (page_rows db where_ page size s.orders)
            ∙ length-take size (drop ((page - 1) * size) rows)
            ∙ ap (min size)
                (length-drop ((page - 1) * size) rows ∙ ap (λ n. n - (page - 1) * size) counted),
      )

abbrev one : Bool → ℕ
one true = 1
one false = 0

count-cons :
    (p : Order → Bool) (o : Order) (orders : List Order)
    → count_where p (o ∷ orders) ≡ one (p o) + count_where p orders
count-cons p o orders = ground arith

-- A status is counted under one heading at most.
one_heading :
    (b : Bool) (st : OrderStatus)
    → one (b && includes st (OrderStatus.pending_payment ∷ []))
        + one (b && includes st paid_statuses)
        + one (b && includes st (OrderStatus.refunding ∷ []))
        + one (b && includes st (OrderStatus.refunded ∷ []))
      ≤ one b
one_heading false st = omega arith
one_heading true OrderStatus.creating = omega arith
one_heading true _ = omega arith

module _ (base : Order → Bool) where
  disjoint_counts :
      (orders : List Order)
      → count_where (with_statuses base (OrderStatus.pending_payment ∷ [])) orders
          + count_where (with_statuses base paid_statuses) orders
          + count_where (with_statuses base (OrderStatus.refunding ∷ [])) orders
          + count_where (with_statuses base (OrderStatus.refunded ∷ [])) orders
        ≤ count_where base orders
  disjoint_counts [] = omega arith
  disjoint_counts (o ∷ orders) = omega (
    arith,
    disjoint_counts orders,
    one_heading (base o) o.status,
    count-cons base o orders,
    count-cons (with_statuses base (OrderStatus.pending_payment ∷ [])) o orders,
    count-cons (with_statuses base paid_statuses) o orders,
    count-cons (with_statuses base (OrderStatus.refunding ∷ [])) o orders,
    count-cons (with_statuses base (OrderStatus.refunded ∷ [])) o orders,
  )

-- Without a status in the query, the orders that the summary counts as waiting for payment, paid,
-- refunding and refunded are together no more than the orders that it counts in all.
pub get_order_summary-total :
    (db : Prisma) (parse : String → Option ℕ) (contains : String → String → Bool)
    (config : Option String) (query : QueryOrders) (scope : OrderScope) (s : Database)
    (stats : OrderSummaryStats)
    → query.status ≡ none
    → get_order_summary db parse contains config query scope s ≡ ok stats
    → stats.pending_payment_count + stats.paid_count + stats.refunding_count + stats.refunded_count
      ≤ stats.total_count
unfolding get_order_summary
get_order_summary-total db parse contains config query scope s stats unfiltered h =
    let (whole, e, k) = bind-eq-ok (build_order_where parse contains config query true scope) _ h in
    let (base, f, l) =
      bind-eq-ok
        (build_order_where parse contains config (record query { status = none })
          (hides_deleted true query.status) scope)
        _ k in
    let plain : record query { status = none } ≡ query =
      ap (λ st. record query { status = st }) (sym unfiltered) in
    let hidden : hides_deleted true query.status ≡ true = ap (hides_deleted true) unfiltered in
    let same : base ≡ whole = ok-injective (
      sym f
      ∙ ap (λ q. build_order_where parse contains config q (hides_deleted true query.status) scope)
          plain
      ∙ ap (λ b. build_order_where parse contains config query b scope) hidden
      ∙ e) in
    subst
      (λ q.
        q.pending_payment_count + q.paid_count + q.refunding_count + q.refunded_count
        ≤ q.total_count)
      (ok-injective l)
      (rw
        (
          db.count_rows Order whole s.orders,
          db.count_rows Order (with_statuses base (OrderStatus.pending_payment ∷ [])) s.orders,
          db.count_rows Order (with_statuses base paid_statuses) s.orders,
          db.count_rows Order (with_statuses base (OrderStatus.refunding ∷ [])) s.orders,
          db.count_rows Order (with_statuses base (OrderStatus.refunded ∷ [])) s.orders,
          sym same,
        )
        (disjoint_counts base s.orders))
