-- ===== src/Orders/Contest.antt =====
-- Two calls that place the order of one request at once (`createOrder` of
-- `backend/src/modules/orders/orders.service.ts`): what the later one does.
use ling_dian.Prelude.{
  String, Bool, true, ◌≡◌, ◌≢◌, refl, ap, ◌∙◌, ◌⊎◌, inl, inr, Option, some, none, List, [], ◌∷◌,
  any, Member, truthy, if◌then◌else◌, not_both, arith,
}
use ling_dian.Prelude.Equality.{same_present, ◌==◌, string_eq, option_eq, beq_refl, eq_of_beq}
use ling_dian.Prelude.Results.{Exception, Result, ok, throw, unique_violation}
use ling_dian.Prelude.Actions.{transaction, rolled_back}
use ling_dian.Schema.StoresEnums.{IntegrationProvider}
use ling_dian.Schema.OrderRows.{Order}
use ling_dian.Schema.Database.{Database}
use ling_dian.Db.{Prisma}
use ling_dian.Orders.Detail.{OrderDetail, map_order_detail}
use ling_dian.Orders.NewOrder.{create_new-IsNewOrder}
use ling_dian.Orders.Retry.{found_again}
use ling_dian.Orders.Create.{
  CreateOrder, Caller, Prepared, find_idempotent_order, is_request, order_clash, create_new,
  create_in_transaction, recover, commit_order,
}

any_holds :
    {A : Type 0} (p : A → Bool) (x : A) (xs : List A) → Member x xs → p x ≡ true → any p xs ≡ true
any_holds p x [] m h = elim m [ ]
any_holds p x (y ∷ ys) (inl e) h = rw (← e) (rw h refl)
any_holds p x (y ∷ ys) (inr m) h = ground (arith, any_holds p x ys m h)

same_present_refl : (a : Option String) → truthy a ≡ true → same_present a a ≡ true
same_present_refl none h = cc
same_present_refl (some a) h = beq_refl a

-- Two orders with one store, customer and request clash.
request-order_clash :
    (o x : Order) (store_id : String) (customer request : Option String)
    → truthy customer ≡ true
    → truthy request ≡ true
    → o.store_id ≡ store_id
    → o.customer_user_id ≡ customer
    → o.client_request_id ≡ request
    → is_request store_id customer request x ≡ true
    → order_clash o x ≡ true
request-order_clash o x store_id customer request signed named e1 e2 e3 h =
    let store = eq_of_beq x.store_id store_id (ground (arith, h)) in
    let asker = eq_of_beq x.customer_user_id customer (ground (arith, h)) in
    let asked = eq_of_beq x.client_request_id request (ground (arith, h)) in
    let same_store : (x.store_id == o.store_id) ≡ true = rw (store, e1) (beq_refl store_id) in
    let same_customer : same_present o.customer_user_id x.customer_user_id ≡ true =
      rw (e2, asker) (same_present_refl customer signed) in
    let same_request : same_present o.client_request_id x.client_request_id ≡ true =
      rw (e3, asked) (same_present_refl request named) in
    ground (arith, same_store, same_customer, same_request)

module _ (db : Prisma) (config : Option String) (providers : List IntegrationProvider)
    (body : CreateOrder) (caller : Caller) (signed : truthy caller.customer_user_id ≡ true)
    (named : truthy body.client_request_id ≡ true) where
  abbrev request_of : Prepared → Order → Bool
  request_of p = is_request p.store_id caller.customer_user_id body.client_request_id

  abbrev Settled : Prepared → Database → Result OrderDetail × Database → Type 0
  Settled p s r =
      (r.1 ≡ s)
      × (((o : Order) × Member o s.orders
            × (request_of p o ≡ true)
            × (r.0 ≡ ok (map_order_detail s.order_status_logs o)))
          ⊎ ((e : Exception) × (e ≢ unique_violation) × (r.0 ≡ throw e)))

  -- A transaction that did not see the rival's order cannot write a second one.
  writes_nothing :
      (p : Prepared) (snapshot s t : Database) (d : OrderDetail) (rival : Order)
      → find_idempotent_order db p.store_id caller.customer_user_id body.client_request_id snapshot
        ≡ none
      → Member rival s.orders
      → request_of p rival ≡ true
      → create_in_transaction db config providers body caller p.store_id p.delivery p.items snapshot
          s
        ≡ (ok d, t)
      → ⊥
  unfolding create_in_transaction
  writes_nothing p snapshot s t d rival unseen m key h =
      let made : create_new db config providers body caller p.store_id p.delivery p.items snapshot s
          ≡ (ok d, t) =
        (rw unseen at h) in
      let n =
        create_new-IsNewOrder db config providers body caller p.store_id p.delivery p.items snapshot
          s t d made in
      let o = n.placed in
      let request : o.order.client_request_id ≡ body.client_request_id =
        ap (λ x. x.client_request_id) o.row
        ∙ ap (λ b. if b then body.client_request_id else none) signed in
      not_both (any (order_clash o.order) s.orders)
        (any_holds (order_clash o.order) rival s.orders m (
          request-order_clash o.order rival p.store_id caller.customer_user_id
            body.client_request_id signed named (ap (λ x. x.store_id) o.row)
            (ap (λ x. x.customer_user_id) o.row) request key))
        o.fresh

  -- Another call has stored the order of the same customer and request, and the reads of this call's
  -- transaction did not see it. Then this call writes nothing: it returns a stored order of that
  -- store, customer and request, or it throws something else than the violation of uniqueness.
  pub commit_order-once :
      (p : Prepared) (snapshot s : Database) (rival : Order)
      → find_idempotent_order db p.store_id caller.customer_user_id body.client_request_id snapshot
        ≡ none
      → Member rival s.orders
      → is_request p.store_id caller.customer_user_id body.client_request_id rival ≡ true
      → ((commit_order db config providers body caller p snapshot s).1 ≡ s)
        × (((o : Order) × Member o s.orders
              × (is_request p.store_id caller.customer_user_id body.client_request_id o ≡ true)
              × ((commit_order db config providers body caller p snapshot s).0
                  ≡ ok (map_order_detail s.order_status_logs o)))
            ⊎ ((e : Exception) × (e ≢ unique_violation)
                × ((commit_order db config providers body caller p snapshot s).0 ≡ throw e)))
  unfolding commit_order transaction
  commit_order-once p snapshot s rival unseen m key =
      settled
        (create_in_transaction db config providers body caller p.store_id p.delivery p.items
          snapshot s)
        (λ d t h. writes_nothing p snapshot s t d rival unseen m key h)
    where
      find : Database → Option Order
      find = find_idempotent_order db p.store_id caller.customer_user_id body.client_request_id

      settled :
          (r : Result OrderDetail × Database)
          → ((d : OrderDetail) (t : Database) → r ≡ (ok d, t) → ⊥)
          → Settled p s (recover find (rolled_back s r))
      settled (ok d, t) never = absurd (never d t refl)
      settled (throw Exception.unique_violation, t) never =
          let (x, found, mx, px) =
            found_again db p.store_id caller.customer_user_id body.client_request_id signed named s
              rival m key in
          rw found (refl, inl (x, mx, px, refl))
      settled (throw e, t) never = (refl, inr (e, (λ q. cc), refl))
