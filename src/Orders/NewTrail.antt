-- ===== src/Orders/NewTrail.antt =====
-- A placed order starts its audit trail, and leaves the others' as they are.
use mathlib.Core.Path.{subst}
use ling_dian.Prelude.{
  String, true, false, ◌≡◌, ◌≢◌, refl, sym, ap, ◌∙◌, inl, inr, ◌++◌, none, some, List, [], ◌∷◌, any,
  All, All-append, Bool-cases, arith,
}
use ling_dian.Prelude.Equality.{◌==◌, string_eq, eq_of_beq, beq_refl}
use ling_dian.Schema.OrdersEnums.{OrderStatus}
use ling_dian.Schema.OrderRows.{Order, OrderStatusLog}
use ling_dian.Orders.Detail.{logs_of}
use ling_dian.Orders.Transitions.{is_legal}
use ling_dian.Orders.Trail.{UniqueIds, TrailInv, Chain, has_id}
use ling_dian.Orders.Create.{order_clash, first_logs}

module _ (o : Order) (starts : o.status ≡ OrderStatus.pending_payment) where
  fresh_ids :
      (orders : List Order) → any (order_clash o) orders ≡ false → All (λ x. x.id ≢ o.id) orders
  fresh_ids [] h = tt
  fresh_ids (x ∷ orders) h =
      (λ e. ground (arith, string_eq.same_iff x.id o.id), fresh_ids orders (ground arith))

  snoc-UniqueIds :
      (orders : List Order)
      → All (λ x. x.id ≢ o.id) orders
      → UniqueIds orders
      → UniqueIds (orders ++ o ∷ [])
  snoc-UniqueIds [] h u = (tt, tt)
  snoc-UniqueIds (x ∷ orders) h u = (
    All-append (λ p. p.id ≢ x.id) orders (o ∷ []) u.0 (λ e. h.0 (sym e), tt),
    snoc-UniqueIds orders h.1 u.1,
  )

  has_id-snoc :
      (id : String) (orders : List Order)
      → any (has_id id) orders ≡ true
      → any (has_id id) (orders ++ o ∷ []) ≡ true
  has_id-snoc id [] h = cc
  has_id-snoc id (x ∷ orders) h = ground (arith, has_id-snoc id orders)

  has_id_self : (orders : List Order) → any (has_id o.id) (orders ++ o ∷ []) ≡ true
  has_id_self [] = rw (beq_refl o.id)
  has_id_self (x ∷ orders) = ground (arith, has_id_self orders)

  owned_kept :
      (orders : List Order) (logs : List OrderStatusLog)
      → All (λ l. any (has_id l.order_id) orders ≡ true) logs
      → All (λ l. any (has_id l.order_id) (orders ++ o ∷ []) ≡ true) logs
  owned_kept orders [] h = tt
  owned_kept orders (l ∷ logs) h = (has_id-snoc l.order_id orders h.0, owned_kept orders logs h.1)

  none_owned :
      (orders : List Order) → All (λ x. x.id ≢ o.id) orders → any (has_id o.id) orders ≡ false
  none_owned [] h = refl
  none_owned (x ∷ orders) h = ground (arith, none_owned orders h.1, eq_of_beq x.id o.id)

  -- A fresh id has no logs yet.
  no_logs :
      (orders : List Order) (logs : List OrderStatusLog)
      → any (has_id o.id) orders ≡ false
      → All (λ l. any (has_id l.order_id) orders ≡ true) logs
      → logs_of o.id logs ≡ []
  no_logs orders [] f h = refl
  no_logs orders (l ∷ logs) f h = elim (Bool-cases (l.order_id == o.id)) [
    | inl e ↦
        let here = subst (λ x. any (has_id x) orders ≡ true) (eq_of_beq l.order_id o.id e) h.0 in
        let clash : true ≡ false = sym here ∙ f in cc
    | inr e ↦ rw e (no_logs orders logs f h.1)
  ]

  own_logs :
      (logs : List OrderStatusLog)
      → logs_of o.id logs ≡ []
      → logs_of o.id (logs ++ first_logs o.id) ≡ first_logs o.id
  own_logs [] h = rw (beq_refl o.id)
  own_logs (l ∷ logs) h = elim (Bool-cases (l.order_id == o.id)) [
    | inl e ↦ let k = rw e at h in cc
    | inr e ↦ rw e (own_logs logs (rw e at h))
  ]

  other_logs :
      (id : String) (logs : List OrderStatusLog)
      → (o.id == id) ≡ false
      → logs_of id (logs ++ first_logs o.id) ≡ logs_of id logs
  other_logs id [] h = rw h refl
  other_logs id (l ∷ logs) h = ground (arith, other_logs id logs h)

  beq_false : (x : Order) → x.id ≢ o.id → (o.id == x.id) ≡ false
  beq_false x ne = elim (Bool-cases (o.id == x.id)) [
    | inl e ↦ absurd (ne (sym (eq_of_beq o.id x.id e)))
    | inr e ↦ e
  ]

  trails_kept :
      (orders : List Order) (logs : List OrderStatusLog)
      → All (λ x. x.id ≢ o.id) orders
      → All (λ x. Chain none (logs_of x.id logs) x.status) orders
      → All (λ x. Chain none (logs_of x.id (logs ++ first_logs o.id)) x.status) orders
  trails_kept [] logs ne h = tt
  trails_kept (x ∷ orders) logs ne h = (
    subst (λ ls. Chain none ls x.status) (sym (other_logs x.id logs (beq_false x ne.0))) h.0,
    trails_kept orders logs ne.1 h.1,
  )

  first-Chain : Chain none (first_logs o.id) o.status
  unfolding is_legal
  first-Chain = (refl, refl, (refl, refl, ap some (sym starts)))

  -- An order that clashes with no row, added with its two logs, keeps the audit trail.
  pub add-TrailInv :
      (orders : List Order) (logs : List OrderStatusLog)
      → any (order_clash o) orders ≡ false
      → TrailInv orders logs
      → TrailInv (orders ++ o ∷ []) (logs ++ first_logs o.id)
  add-TrailInv orders logs f v =
      let ne = fresh_ids orders f in
      record {
        unique = snoc-UniqueIds orders ne v.unique;
        trails =
            All-append (λ x. Chain none (logs_of x.id (logs ++ first_logs o.id)) x.status) orders
              (o ∷ []) (trails_kept orders logs ne v.trails)
              (
                subst (λ ls. Chain none ls o.status)
                    (sym (own_logs logs (no_logs orders logs (none_owned orders ne) v.owned)))
                    first-Chain,
                tt,
              );
        owned =
            All-append (λ l. any (has_id l.order_id) (orders ++ o ∷ []) ≡ true) logs
              (first_logs o.id) (owned_kept orders logs v.owned)
              (has_id_self orders, (has_id_self orders, tt));
      }
