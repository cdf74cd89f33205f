-- ===== src/Orders/Trail.antt =====
-- The audit trail: the status logs of each order, in the order of their rows, are a chain of legal
-- changes from the creation of the order to its status.
use mathlib.Core.Path.{subst}
use ling_dian.Prelude.{
  String, Bool, true, ◌≡◌, ◌≢◌, refl, sym, ◌∙◌, inl, inr, ◌++◌, Option, none, some, List, [], ◌∷◌,
  any, All, All-append, All-member, count_where, Bool-cases, arith,
}
use ling_dian.Prelude.Equality.{◌==◌, string_eq, eq_of_beq, beq_refl}
use ling_dian.Schema.OrdersEnums.{OrderStatus}
use ling_dian.Schema.OrderRows.{Order, OrderStatusLog}
use ling_dian.Db.{update_where, count_where-Member}
use ling_dian.Orders.Detail.{logs_of}
use ling_dian.Orders.Transitions.{is_legal}

abbrev pub Chain : Option OrderStatus → List OrderStatusLog → OrderStatus → Type 0
Chain cur [] final = cur ≡ some final
Chain cur (l ∷ ls) final =
    (l.from_status ≡ cur) × (is_legal cur l.to_status ≡ true) × Chain (some l.to_status) ls final

abbrev pub UniqueIds : List Order → Type 0
UniqueIds [] = Unit
UniqueIds (o ∷ orders) = All (λ p. p.id ≢ o.id) orders × UniqueIds orders

abbrev pub has_id : String → Order → Bool
has_id id o = o.id == id

pub record TrailInv (orders : List Order) (logs : List OrderStatusLog) : Type 0 where
  pub unique : UniqueIds orders
  pub trails : All (λ o. Chain none (logs_of o.id logs) o.status) orders
  pub owned : All (λ l. any (has_id l.order_id) orders ≡ true) logs

Chain-snoc :
    (cur : Option OrderStatus) (ls : List OrderStatusLog) (a : OrderStatus) (l : OrderStatusLog)
    → Chain cur ls a
    → l.from_status ≡ some a
    → is_legal (some a) l.to_status ≡ true
    → Chain cur (ls ++ l ∷ []) l.to_status
Chain-snoc cur [] a l h from legal = (from ∙ sym h, rw h legal, refl)
Chain-snoc cur (x ∷ ls) a l h from legal =
    (h.0, h.1, Chain-snoc (some x.to_status) ls a l h.2 from legal)

logs_of-snoc_same :
    (id : String) (logs : List OrderStatusLog) (l : OrderStatusLog)
    → l.order_id ≡ id
    → logs_of id (logs ++ l ∷ []) ≡ logs_of id logs ++ l ∷ []
logs_of-snoc_same id [] l e = ground (arith, beq_refl id)
logs_of-snoc_same id (x ∷ logs) l e = ground (arith, logs_of-snoc_same id logs l e)

logs_of-snoc_other :
    (id : String) (logs : List OrderStatusLog) (l : OrderStatusLog)
    → l.order_id ≢ id
    → logs_of id (logs ++ l ∷ []) ≡ logs_of id logs
logs_of-snoc_other id [] l ne = ground (arith, eq_of_beq l.order_id id)
logs_of-snoc_other id (x ∷ logs) l ne = ground (arith, logs_of-snoc_other id logs l ne)

-- A write that moves the one row which a test selects, and logs it.
module _ (p : Order → Bool) (patch : Order → Order) (l : OrderStatusLog)
    (selects : (o : Order) → p o ≡ true → (o.id ≡ l.order_id) × (l.from_status ≡ some o.status))
    (moves : (o : Order) → ((patch o).id ≡ o.id) × ((patch o).status ≡ l.to_status))
    (legal : (from : OrderStatus)
      → l.from_status ≡ some from
      → is_legal (some from) l.to_status ≡ true) where
  update-unique_ids :
      (x : String) (orders : List Order)
      → All (λ o. o.id ≢ x) orders
      → All (λ o. o.id ≢ x) (update_where p patch orders)
  update-unique_ids x [] h = tt
  update-unique_ids x (o ∷ orders) h = elim (Bool-cases (p o)) [
    | inl e ↦ rw e (λ q. h.0 (sym (moves o).0 ∙ q), update-unique_ids x orders h.1)
    | inr e ↦ rw e (h.0, update-unique_ids x orders h.1)
  ]

  update-UniqueIds :
      (orders : List Order) → UniqueIds orders → UniqueIds (update_where p patch orders)
  update-UniqueIds [] h = tt
  update-UniqueIds (o ∷ orders) h = elim (Bool-cases (p o)) [
    | inl e ↦
        rw e (rw ((moves o).0) (update-unique_ids o.id orders h.0), update-UniqueIds orders h.1)
    | inr e ↦ rw e (update-unique_ids o.id orders h.0, update-UniqueIds orders h.1)
  ]

  update-has_id :
      (id : String) (orders : List Order)
      → any (has_id id) (update_where p patch orders) ≡ any (has_id id) orders
  update-has_id id [] = refl
  update-has_id id (o ∷ orders) = elim (Bool-cases (p o)) [
    | inl e ↦ rw (e, (moves o).0, update-has_id id orders)
    | inr e ↦ rw (e, update-has_id id orders)
  ]

  module _ (logs : List OrderStatusLog) where
    abbrev Trail : List OrderStatusLog → Order → Type 0
    Trail ls o = Chain none (logs_of o.id ls) o.status

    -- Where no row is selected, the other rows keep their trails.
    trails_kept :
        (orders : List Order)
        → All (λ o. o.id ≢ l.order_id) orders
        → All (Trail logs) orders
        → All (Trail (logs ++ l ∷ [])) (update_where p patch orders)
    trails_kept [] ne h = tt
    trails_kept (o ∷ orders) ne h = elim (Bool-cases (p o)) [
      | inl e ↦ absurd (ne.0 (selects o e).0)
      | inr e ↦
          rw e (
            rw (logs_of-snoc_other o.id logs l (λ q. ne.0 (sym q))) h.0,
            trails_kept orders ne.1 h.1,
          )
    ]

    Trail-moved : (o : Order) → p o ≡ true → Trail logs o → Trail (logs ++ l ∷ []) (patch o)
    Trail-moved o e h =
        let (same, from) = selects o e in
        let (id_kept, status_set) = moves o in
        rw (id_kept, logs_of-snoc_same o.id logs l (sym same), status_set)
          (Chain-snoc none (logs_of o.id logs) o.status l h from (legal o.status from))

    trails_moved :
        (orders : List Order)
        → count_where p orders ≡ 1
        → UniqueIds orders
        → All (Trail logs) orders
        → All (Trail (logs ++ l ∷ [])) (update_where p patch orders)
    trails_moved [] c u h = absurd (omega (arith, c))
    trails_moved (o ∷ orders) c u h = elim (Bool-cases (p o)) [
      | inl e ↦
          let others : All (λ x. x.id ≢ l.order_id) orders =
            subst (λ x. All (λ y. y.id ≢ x) orders) (selects o e).0 u.0 in
          rw e (Trail-moved o e h.0, trails_kept orders others h.1)
      | inr e ↦
          let c' : count_where p orders ≡ 1 = rw e at c in
          let (m, pm, mem) = count_where-Member p orders 0 c' in
          let apart : o.id ≢ l.order_id =
            λ q. All-member (λ x. x.id ≢ o.id) m orders u.0 mem ((selects m pm).0 ∙ sym q) in
          rw e (
            rw (logs_of-snoc_other o.id logs l (λ q. apart (sym q))) h.0,
            trails_moved orders c' u.1 h.1,
          )
    ]

  owned_kept :
      (orders : List Order) (logs : List OrderStatusLog)
      → All (λ x. any (has_id x.order_id) orders ≡ true) logs
      → All (λ x. any (has_id x.order_id) (update_where p patch orders) ≡ true) logs
  owned_kept orders [] h = tt
  owned_kept orders (x ∷ logs) h =
      (update-has_id x.order_id orders ∙ h.0, owned_kept orders logs h.1)

  selected-has_id :
      (orders : List Order) → count_where p orders ≡ 1 → any (has_id l.order_id) orders ≡ true
  selected-has_id [] c = absurd (omega (arith, c))
  selected-has_id (o ∷ orders) c = elim (Bool-cases (p o)) [
    | inl e ↦ rw ((selects o e).0) (ground (arith, beq_refl l.order_id))
    | inr e ↦ ground (arith, selected-has_id orders (rw e at c))
  ]

  pub move-TrailInv :
      (orders : List Order) (logs : List OrderStatusLog)
      → count_where p orders ≡ 1
      → TrailInv orders logs
      → TrailInv (update_where p patch orders) (logs ++ l ∷ [])
  move-TrailInv orders logs c v = record {
    unique = update-UniqueIds orders v.unique;
    trails = trails_moved logs orders c v.unique v.trails;
    owned =
        All-append _ logs (l ∷ []) (owned_kept orders logs v.owned)
          (update-has_id l.order_id orders ∙ selected-has_id orders c, tt);
  }
