-- ===== src/Orders/Outcome.antt =====
-- The two ways in which placing an order succeeds: the request is known, or a new order is written.
use mathlib.Core.Path.{subst}
use ling_dian.Prelude.{
  String, ◌≡◌, refl, sym, ap, ◌⊎◌, inl, inr, Option, none, some, List, Option-cases,
}
use ling_dian.Prelude.Equality.{string_eq, nat_eq, option_eq}
use ling_dian.Prelude.Results.{
  Exception, Result, ok, throw, ok-injective, unique_violation, bind-eq-ok,
}
use ling_dian.Prelude.Actions.{
  continue-eq-ok, transaction, transaction-eq-ok, transaction_undone, fail,
}
use ling_dian.Schema.StoresEnums.{IntegrationProvider}
use ling_dian.Schema.OrderRows.{Order}
use ling_dian.Schema.Database.{Database}
use ling_dian.Db.{Prisma}
use ling_dian.Stores.{resolve_requested_store_id}
use ling_dian.Orders.Detail.{OrderDetail, map_order_detail}
use ling_dian.Orders.Pricing.{NormalizedItem, normalize_items}
use ling_dian.Orders.Create.{
  CreateOrder, Caller, Delivery, find_idempotent_order, create_new, create_in_transaction, or_new,
  recover, create_order, resolve_delivery, Prepared, Start, known, prepared, known_or_prepared,
  begin_order, commit_order, finish_order,
}

known-injective : (a b : OrderDetail) → Path (Result Start) (ok (known b)) (ok (known a)) → a ≡ b
known-injective a b h = cc

prepared-injective :
    (a b : Prepared) → Path (Result Start) (ok (prepared b)) (ok (prepared a)) → a ≡ b
prepared-injective a b h = cc

module _ (db : Prisma) (config : Option String) (providers : List IntegrationProvider)
    (body : CreateOrder) (caller : Caller) where
  abbrev pub known_order : String → Database → Option Order
  known_order store_id s =
      find_idempotent_order db store_id caller.customer_user_id body.client_request_id s

  -- A call that returned `d` either found the order of an earlier request and changed nothing, or
  -- wrote a new one in its transaction.
  pub data Outcome (s : Database) : Database → OrderDetail → Type 0 where
    replayed :
        (store_id : String) (o : Order)
        → resolve_requested_store_id config body.store_id ≡ ok store_id
        → known_order store_id s ≡ some o
        → Outcome s s (map_order_detail s.order_status_logs o)
    created :
        {t : Database} {d : OrderDetail} (store_id : String) (delivery : Option Delivery)
        (items : List NormalizedItem)
        → resolve_requested_store_id config body.store_id ≡ ok store_id
        → known_order store_id s ≡ none
        → normalize_items body.items ≡ ok items
        → create_new db config providers body caller store_id delivery items s s ≡ (ok d, t)
        → Outcome s t d

  shown-Outcome :
      (store_id : String) (s t : Database) (o : Order) (d : OrderDetail)
      → resolve_requested_store_id config body.store_id ≡ ok store_id
      → known_order store_id s ≡ some o
      → or_new s (some o) (fail unique_violation) s ≡ (ok d, t)
      → Outcome s t d
  shown-Outcome store_id s t o d store found h =
      subst (λ u. Outcome s u d) (ap (λ r. r.1) h)
        (subst (Outcome s s) (ok-injective (ap (λ r. r.0) h)) (replayed store_id o store found))

  -- After a unique violation the transaction is undone, and the order of the request is looked for.
  recover-Outcome :
      (store_id : String) (s : Database) (r : Result OrderDetail × Database) (t : Database)
      (d : OrderDetail)
      → recover (known_order store_id) r ≡ (ok d, t)
      → (r ≡ (ok d, t))
        ⊎ ((o : Order) × (r.0 ≡ throw unique_violation)
            × (known_order store_id r.1 ≡ some o)
            × (or_new r.1 (some o) (fail unique_violation) r.1 ≡ (ok d, t)))
  recover-Outcome store_id s (ok d', t') t d h = inl h
  recover-Outcome store_id s (throw Exception.unique_violation, t') t d h =
      elim (Option-cases (known_order store_id t')) [
        | inl e ↦ let k = rw e at h in cc
        | inr (o, e) ↦ inr (o, refl, e, rw e at h)
      ]
  recover-Outcome store_id s (throw _, t') t d h = cc

  -- The transaction itself: a duplicate that it finds, or a new order.
  in_transaction-Outcome :
      (store_id : String) (delivery : Option Delivery) (items : List NormalizedItem)
      (s t : Database) (d : OrderDetail)
      → resolve_requested_store_id config body.store_id ≡ ok store_id
      → normalize_items body.items ≡ ok items
      → create_in_transaction db config providers body caller store_id delivery items s s
        ≡ (ok d, t)
      → Outcome s t d
  unfolding create_in_transaction
  in_transaction-Outcome store_id delivery items s t d store normal h =
      elim (Option-cases (known_order store_id s)) [
        | inl e ↦ created store_id delivery items store e normal (rw e at h)
        | inr (o, e) ↦ shown-Outcome store_id s t o d store e (rw e at h)
      ]

  attempt-Outcome :
      (store_id : String) (delivery : Option Delivery) (items : List NormalizedItem)
      (s t : Database) (d : OrderDetail)
      → resolve_requested_store_id config body.store_id ≡ ok store_id
      → normalize_items body.items ≡ ok items
      → recover (known_order store_id) (
          transaction
            (create_in_transaction db config providers body caller store_id delivery items s)
            s)
        ≡ (ok d, t)
      → Outcome s t d
  attempt-Outcome store_id delivery items s t d store normal h =
      let tx = create_in_transaction db config providers body caller store_id delivery items s in
      elim (recover-Outcome store_id s (transaction tx s) t d h) [
        | inl e ↦
            in_transaction-Outcome store_id delivery items s t d store normal
              (transaction-eq-ok tx s e)
        | inr (o, thrown, found, e) ↦
            let undone = transaction_undone tx s unique_violation thrown in
            shown-Outcome store_id s t o d store
              (subst (λ u. known_order store_id u ≡ some o) undone found)
              (subst (λ u. or_new u (some o) (fail unique_violation) u ≡ (ok d, t)) undone e)
      ]

  started :
      (s : Database) (start : Start)
      → begin_order db config body caller s ≡ ok start
      → (t : Database) (d : OrderDetail)
      → finish_order db config providers body caller start s ≡ (ok d, t)
      → Outcome s t d
  unfolding begin_order commit_order
  started s start h t d done =
      let (store_id, store, h1) =
        bind-eq-ok (resolve_requested_store_id config body.store_id)
          (λ id. known_or_prepared db body caller id (known_order id s) s) h in
      looked store_id store (known_order store_id s) refl h1
    where
      from_known :
          (store_id : String) (o : Order) (begun : Start)
          → resolve_requested_store_id config body.store_id ≡ ok store_id
          → known_order store_id s ≡ some o
          → Path (Result Start) (ok (known (map_order_detail s.order_status_logs o))) (ok begun)
          → finish_order db config providers body caller begun s ≡ (ok d, t)
          → Outcome s t d
      from_known store_id o (known d') store found q k =
          shown-Outcome store_id s t o d store found (
            subst (λ x. Path (Result OrderDetail × Database) (ok x, s) (ok d, t))
              (known-injective d' _ q) k)
      from_known store_id o (prepared p) store found q k = cc

      from_prepared :
          (p : Prepared) (begun : Start)
          → resolve_requested_store_id config body.store_id ≡ ok p.store_id
          → normalize_items body.items ≡ ok p.items
          → Path (Result Start) (ok (prepared p)) (ok begun)
          → finish_order db config providers body caller begun s ≡ (ok d, t)
          → Outcome s t d
      from_prepared p (known d') store normal q k = cc
      from_prepared p (prepared p') store normal q k =
          attempt-Outcome p.store_id p.delivery p.items s t d store normal (
            subst (λ x. commit_order db config providers body caller x s s ≡ (ok d, t))
              (prepared-injective p' p q) k)

      looked :
          (store_id : String)
          → resolve_requested_store_id config body.store_id ≡ ok store_id
          → (o : Option Order) → known_order store_id s ≡ o
          → known_or_prepared db body caller store_id o s ≡ ok start
          → Outcome s t d
      looked store_id store (some o) e k = from_known store_id o start store e k done
      looked store_id store none e k =
          let (delivery, _, k1) =
            bind-eq-ok (resolve_delivery db body caller.customer_user_id s) _ k in
          let (items, normal, k2) = bind-eq-ok (normalize_items body.items) _ k1 in
          from_prepared (record { store_id = store_id; delivery = delivery; items = items }) start
            store normal k2 done

  -- A call that returns either found the order of an earlier request and changed nothing, or wrote a
  -- new order in its transaction, having found none before.
  pub create_order-Outcome :
      (s t : Database) (d : OrderDetail)
      → create_order db config providers body caller s ≡ (ok d, t)
      → Outcome s t d
  unfolding create_order
  create_order-Outcome s t d h =
      let (start, s1, e, k) =
        continue-eq-ok (begin_order db config body caller s, s)
          (finish_order db config providers body caller) h in
      started s start (ap (λ r. r.0) e) t d (
        subst (λ u. finish_order db config providers body caller start u ≡ (ok d, t))
          (sym (ap (λ r. r.1) e)) k)
