-- ===== src/Orders/Bill.antt =====
-- The bill of an order: every item by the catalogue, every choice by its group's rule, and a total
-- that is the sum of the items.
use mathlib.Core.Path.{subst}
use ling_dian.Prelude.{
  ℕ, ◌+◌, String, ◌≡◌, sym, ◌∙◌, inl, inr, some, List, [], ◌∷◌, All, Bool-cases, or_else, arith,
}
use ling_dian.Prelude.Int.{ℤ, ◌+ℤ◌, int_laws, eq_of_parts, +ℤ_assoc}
use ling_dian.Prelude.Equality.{◌==◌, eq_of_beq}
use ling_dian.Prelude.Maps.{map_get, map_values}
use ling_dian.Prelude.Results.{Result, ok, or_throw, bind-eq-ok, ok-injective, or_throw-eq-ok}
use ling_dian.Schema.StoresEnums.{ProductStatus, product_status_eq}
use ling_dian.Schema.CatalogRows.{ProductSku, SelectionOption, SelectionGroup}
use ling_dian.Schema.OrderRows.{OrderItem, OrderItemSelection}
use ling_dian.Orders.Pricing.{
  NormalizedItem, allowed_groups, choose_options, check_groups, price_item, price_items,
}
use ling_dian.Orders.Amounts.{IsPriced, price_chosen-IsPriced, chosen_of, sum_subtotals}
use ling_dian.Orders.Selections.{AllOffered, IsWithin, choose_options-Counted, check_groups-All}

module _ (skus : List (String × ProductSku)) (options : List (String × SelectionOption)) where
  -- An item of the order answers an item of the request.
  pub record IsBilled (item : NormalizedItem) (x : OrderItem) : Type 0 where
    pub sku : ProductSku
    pub listed : map_get item.sku_id skus ≡ some sku
    pub on_sale : sku.product.status ≡ ProductStatus.active
    pub priced : IsPriced sku item x
    pub offered : AllOffered (allowed_groups sku) options item.selections x.selections
    pub within :
        All (λ g. IsWithin g (chosen_of g.id x.selections)) (map_values (allowed_groups sku))

  abbrev pub AllBilled : List NormalizedItem → List OrderItem → Type 0
  AllBilled [] [] = Unit
  AllBilled (item ∷ items) (x ∷ xs) = IsBilled item x × AllBilled items xs
  AllBilled _ _ = ⊥

  IsWithin-by_counts :
      (counts : List (String × ℕ)) (cs : List OrderItemSelection) (groups : List SelectionGroup)
      → ((id : String) → or_else (map_get id counts) 0 ≡ 0 + chosen_of id cs)
      → All (λ g. IsWithin g (or_else (map_get g.id counts) 0)) groups
      → All (λ g. IsWithin g (chosen_of g.id cs)) groups
  IsWithin-by_counts counts cs [] same h = tt
  IsWithin-by_counts counts cs (g ∷ groups) same h = (
    subst (IsWithin g) (same g.id ∙ omega arith) h.0,
    IsWithin-by_counts counts cs groups same h.1,
  )

  price_item-IsBilled :
      (item : NormalizedItem) (x : OrderItem)
      → price_item skus options item ≡ ok x
      → IsBilled item x
  unfolding price_item
  price_item-IsBilled item x h =
      let (sku, e, k) = bind-eq-ok (or_throw (map_get item.sku_id skus) _) _ h in
      elim (Bool-cases (sku.product.status == ProductStatus.active)) [
        | inr off ↦ let k' = rw off at k in cc
        | inl on ↦
            let k' = rw on at k in
            let (chosen, f, l) =
              bind-eq-ok (choose_options (allowed_groups sku) options [] item.selections) _ k' in
            let (_, g, m) =
              bind-eq-ok (check_groups chosen.1 (map_values (allowed_groups sku))) _ l in
            let (priced, same) = price_chosen-IsPriced sku item chosen.0 x m in
            let (offered, counted) =
              choose_options-Counted (allowed_groups sku) options [] item.selections chosen f in
            record {
              sku = sku;
              listed = or_throw-eq-ok (map_get item.sku_id skus) _ e;
              on_sale = eq_of_beq sku.product.status ProductStatus.active on;
              priced = priced;
              offered =
                  subst (AllOffered (allowed_groups sku) options item.selections) (sym same)
                    offered;
              within =
                  subst
                    (λ cs.
                      All (λ g. IsWithin g (chosen_of g.id cs)) (map_values (allowed_groups sku)))
                    (sym same)
                    (IsWithin-by_counts chosen.1 chosen.0 (map_values (allowed_groups sku)) counted
                      (check_groups-All chosen.1 (map_values (allowed_groups sku)) (unit_eta g)));
            }
      ]
    where
      unit_eta : {u : Unit {0}} {r : Result (Unit {0})} → r ≡ ok u → r ≡ ok tt
      unit_eta q = q

  -- When the loop over the items succeeds, its items answer the request's items one by one: each
  -- by an active product's SKU at the catalogue's price, with options of the allowed groups at the
  -- catalogue's price differences, each group's number of choices within its limits, and a subtotal
  -- that is the price of one, with its choices, times the quantity, and not negative. The total
  -- grows by the sum of the subtotals.
  pub price_items-AllBilled :
      (start : ℤ) (items : List NormalizedItem) (out : List OrderItem × ℤ)
      → price_items skus options start items ≡ ok out
      → AllBilled items out.0 × (out.1 ≡ start +ℤ sum_subtotals out.0)
  unfolding price_items
  price_items-AllBilled start [] out h =
      subst (λ o. AllBilled [] o.0 × (o.1 ≡ start +ℤ sum_subtotals o.0)) (ok-injective h)
        (tt, eq_of_parts _ _ (omega int_laws))
  price_items-AllBilled start (item ∷ items) out h =
      let (x, e, k) = bind-eq-ok (price_item skus options item) _ h in
      let (r, f, l) = bind-eq-ok (price_items skus options (start +ℤ x.subtotal) items) _ k in
      let (billed, total) = price_items-AllBilled (start +ℤ x.subtotal) items r f in
      subst (λ o. AllBilled (item ∷ items) o.0 × (o.1 ≡ start +ℤ sum_subtotals o.0))
        (ok-injective l)
        (
          (price_item-IsBilled item x e, billed),
          total ∙ +ℤ_assoc start x.subtotal (sum_subtotals r.0),
        )
