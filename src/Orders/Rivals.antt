-- ===== src/Orders/Rivals.antt =====
-- Two calls that read the same status of an order: only one of them changes it.
use ling_dian.Prelude.{
  inl, inr, ℕ, String, Bool, true, false, ◌≡◌, ◌≢◌, refl, sym, ◌∙◌, Option, List, [], ◌∷◌, All,
  All-member, count_where, Bool-cases, arith,
}
use ling_dian.Prelude.Equality.{string_eq, nat_eq, eq_of_beq}
use ling_dian.Prelude.Results.{Result, ok, throw, conflict}
use ling_dian.Prelude.Actions.{transaction-throw}
use ling_dian.Schema.OrdersEnums.{OrderStatus, order_status_eq}
use ling_dian.Schema.OrderRows.{Order, OrderStatusLog}
use ling_dian.Schema.Database.{Database}
use ling_dian.Db.{Prisma, update_where, count_where-Member}
use ling_dian.Orders.Scope.{OrderScope, scope_where}
use ling_dian.Orders.Trail.{UniqueIds}
use ling_dian.Orders.Status.{UpdateOrderStatus, still_at, change_row, commit_update, commit_delete}
use ling_dian.Orders.Commits.{Moved, commit_update-Moved, commit_delete-Moved}

module _ (id : String) (from : OrderStatus) (scoped scoped' : Order → Bool) (patch : Order → Order)
    (leaves : (o : Order) → (patch o).status ≢ from) where
  still_at-false : (sc : Order → Bool) (o : Order) → o.id ≢ id → still_at id from sc o ≡ false
  still_at-false sc o ne = ground (arith, eq_of_beq o.id id)

  left-false : (o : Order) → still_at id from scoped' (patch o) ≡ false
  left-false o = ground (arith, leaves o, eq_of_beq (patch o).status from)

  count-others :
      (orders : List Order)
      → All (λ o. o.id ≢ id) orders
      → count_where (still_at id from scoped') (update_where (still_at id from scoped) patch orders)
        ≡ 0
  count-others [] h = refl
  count-others (o ∷ orders) h =
      rw (still_at-false scoped o h.0) (rw (still_at-false scoped' o h.0) (count-others orders h.1))

  same_id : (o : Order) → still_at id from scoped o ≡ true → o.id ≡ id
  same_id o h = eq_of_beq o.id id (ground arith)

  count-after :
      (orders : List Order)
      → UniqueIds orders
      → count_where (still_at id from scoped) orders ≡ 1
      → count_where (still_at id from scoped') (update_where (still_at id from scoped) patch orders)
        ≡ 0
  count-after [] u c = absurd (omega (arith, c))
  count-after (o ∷ orders) u c = elim (Bool-cases (still_at id from scoped o)) [
    | inl e ↦ rw e (rw (left-false o) (count-others orders (rw (same_id o e) at u.0)))
    | inr e ↦
        let c' : count_where (still_at id from scoped) orders ≡ 1 = rw e at c in
        let (m, pm, mem) = count_where-Member (still_at id from scoped) orders 0 c' in
        let apart : o.id ≢ id =
          λ q. All-member (λ x. x.id ≢ o.id) m orders u.0 mem (same_id m pm ∙ sym q) in
        rw e (rw (still_at-false scoped' o apart) (count-after orders u.1 c'))
  ]

abbrev pub lost : Result (Unit {0})
lost = throw (conflict "Order changed concurrently. Reload and try again.")

change_row-lost :
    (db : Prisma) (id : String) (from : OrderStatus) (scoped : Order → Bool) (patch : Order → Order)
    (log : OrderStatusLog) (s : Database)
    → count_where (still_at id from scoped) s.orders ≡ 0
    → (change_row db id from scoped patch log s).0 ≡ lost
unfolding change_row
change_row-lost db id from scoped patch log s c =
    rw (db.update_many_rows Order (still_at id from scoped) patch s.orders) (rw c)

module _ (db : Prisma) (id : String) (from : OrderStatus) (patch : Order → Order)
    (log : OrderStatusLog) (s t : Database) (leaves : (o : Order) → (patch o).status ≢ from)
    (unique : UniqueIds s.orders) (won : Moved id from patch log s t) where
  -- No row is left at the status that both calls read.
  nothing_left : (scoped : Order → Bool) → count_where (still_at id from scoped) t.orders ≡ 0
  nothing_left scoped =
      rw (won.after) (count-after id from won.scoped scoped patch leaves s.orders unique won.one)

  update_loses :
      (config : Option String) (now : ℕ) (body : UpdateOrderStatus) (scope : OrderScope)
      (scoped : Order → Bool)
      → scope_where config scope ≡ ok scoped
      → commit_update db config now id from body scope t ≡ (lost, t)
  unfolding commit_update
  update_loses config now body scope scoped e =
      transaction-throw _ t _ (rw e (change_row-lost db id from scoped _ _ t (nothing_left scoped)))

  delete_loses :
      (config : Option String) (now : ℕ) (operator : Option String) (scope : OrderScope)
      (scoped : Order → Bool)
      → scope_where config scope ≡ ok scoped
      → commit_delete db config now id from operator scope t ≡ (lost, t)
  unfolding commit_delete
  delete_loses config now operator scope scoped e =
      transaction-throw _ t _ (rw e (change_row-lost db id from scoped _ _ t (nothing_left scoped)))

-- Of two calls that read the same status of an order, an edit to another status that goes through
-- first makes the other fail with a conflict, be it an edit or a deletion, and the other changes
-- nothing. (Ids of orders are unique, and the second caller's scope is valid.)
pub commit_update_excludes :
    (db : Prisma) (config config' : Option String) (now now' : ℕ) (id : String) (from : OrderStatus)
    (body body' : UpdateOrderStatus) (operator : Option String) (scope scope' : OrderScope)
    (scoped : Order → Bool) (s t : Database)
    → UniqueIds s.orders
    → body.status ≢ from
    → scope_where config' scope' ≡ ok scoped
    → commit_update db config now id from body scope s ≡ (ok tt, t)
    → (commit_update db config' now' id from body' scope' t ≡ (lost, t))
      × (commit_delete db config' now' id from operator scope' t ≡ (lost, t))
commit_update_excludes db config config' now now' id from body body' operator scope scope' scoped s
      t u ne e h =
    let won = commit_update-Moved db config now id from body scope s t h in
    (
      update_loses db id from _ _ s t (λ o. ne) u won config' now' body' scope' scoped e,
      delete_loses db id from _ _ s t (λ o. ne) u won config' now' operator scope' scoped e,
    )

-- So does a deletion that goes through first: deleting the order again from the same read, or
-- editing it, is a conflict and changes nothing.
pub commit_delete_excludes :
    (db : Prisma) (config config' : Option String) (now now' : ℕ) (id : String) (from : OrderStatus)
    (body' : UpdateOrderStatus) (operator operator' : Option String) (scope scope' : OrderScope)
    (scoped : Order → Bool) (s t : Database)
    → UniqueIds s.orders
    → OrderStatus.deleted ≢ from
    → scope_where config' scope' ≡ ok scoped
    → commit_delete db config now id from operator scope s ≡ (ok tt, t)
    → (commit_update db config' now' id from body' scope' t ≡ (lost, t))
      × (commit_delete db config' now' id from operator' scope' t ≡ (lost, t))
commit_delete_excludes db config config' now now' id from body' operator operator' scope scope'
      scoped s t u ne e h =
    let won = commit_delete-Moved db config now id from operator scope s t h in
    (
      update_loses db id from _ _ s t (λ o. ne) u won config' now' body' scope' scoped e,
      delete_loses db id from _ _ s t (λ o. ne) u won config' now' operator' scope' scoped e,
    )
