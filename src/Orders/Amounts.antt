-- ===== src/Orders/Amounts.antt =====
-- What a priced item owes to the catalogue: amounts, and the counts of its selections.
use ling_dian.Prelude.{
  ℕ, ◌+◌, ◌≤◌, String, false, ◌≡◌, refl, sym, ap, ◌∙◌, List, [], ◌∷◌, if◌then◌else◌, arith,
}
use ling_dian.Prelude.Int.{
  ℤ, pos, ◌+ℤ◌, ◌*ℤ◌, magnitude, is_negative, int_laws, eq_of_parts, +ℤ_assoc, zero-+ℤ,
}
use ling_dian.Prelude.Equality.{◌==◌, string_eq}
use ling_dian.Prelude.Results.{ok, bind-eq-ok, ok-injective}
use ling_dian.Schema.StoresEnums.{product_status_eq, selection_mode_eq}
use ling_dian.Schema.CatalogRows.{ProductSku}
use ling_dian.Schema.OrderRows.{OrderItem, OrderItemSelection}
use ling_dian.Orders.Pricing.{
  NormalizedItem, max_safe_integer, to_cents, from_cents, selection_cents, priced_item,
  price_subtotal, price_chosen,
}

abbrev pub sum_deltas : List OrderItemSelection → ℤ
sum_deltas [] = pos 0
sum_deltas (c ∷ selections) = c.price_delta +ℤ sum_deltas selections

abbrev pub sum_subtotals : List OrderItem → ℤ
sum_subtotals [] = pos 0
sum_subtotals (x ∷ items) = x.subtotal +ℤ sum_subtotals items

-- How many of a group are chosen.
abbrev pub chosen_of : String → List OrderItemSelection → ℕ
chosen_of id [] = 0
chosen_of id (c ∷ selections) =
    let rest = chosen_of id selections in
    if c.selection_group_id == id then c.quantity + rest else rest

to_cents-ok : (a b : ℤ) → to_cents a ≡ ok b → (b ≡ a) × (magnitude a ≤ max_safe_integer)
unfolding to_cents
to_cents-ok a b h = ground arith

pub from_cents-ok : (a b : ℤ) → from_cents a ≡ ok b → (b ≡ a) × (magnitude a ≤ max_safe_integer)
unfolding from_cents
from_cents-ok a b h = ground arith

selection_cents-sum :
    (sum total : ℤ) (cs : List OrderItemSelection)
    → selection_cents sum cs ≡ ok total
    → total ≡ sum +ℤ sum_deltas cs
unfolding selection_cents
selection_cents-sum sum total [] h = sym (ok-injective h) ∙ eq_of_parts _ _ (omega int_laws)
selection_cents-sum sum total (c ∷ cs) h =
    let (cents, e, k) = bind-eq-ok (to_cents c.price_delta) _ h in
    let (same, _) = to_cents-ok c.price_delta cents e in
    selection_cents-sum (sum +ℤ cents) total cs k
    ∙ rw same (+ℤ_assoc sum c.price_delta (sum_deltas cs))

-- The amounts of a priced item: the catalogue's unit price, the subtotal, and their ranges.
pub record IsPriced (sku : ProductSku) (item : NormalizedItem) (x : OrderItem) : Type 0 where
  pub product : x.product_id ≡ sku.product_id
  pub sku_kept : x.sku_id ≡ sku.id
  pub quantity : x.quantity ≡ item.quantity
  pub unit : x.unit_price ≡ sku.price
  pub subtotal : x.subtotal ≡ (x.unit_price +ℤ sum_deltas x.selections) *ℤ pos x.quantity
  pub positive : is_negative x.subtotal ≡ false
  pub safe : magnitude x.subtotal ≤ max_safe_integer

price_subtotal-ok :
    (sku : ProductSku) (item : NormalizedItem) (cs : List OrderItemSelection) (unit sub : ℤ)
    (x : OrderItem)
    → price_subtotal sku item cs unit sub ≡ ok x
    → (x ≡ priced_item sku item cs unit sub)
      × (is_negative sub ≡ false)
      × (magnitude sub ≤ max_safe_integer)
unfolding price_subtotal from_cents
price_subtotal-ok sku item cs unit sub x h = (ground arith, ground arith, ground arith)

pub price_chosen-IsPriced :
    (sku : ProductSku) (item : NormalizedItem) (cs : List OrderItemSelection) (x : OrderItem)
    → price_chosen sku item cs ≡ ok x
    → IsPriced sku item x × (x.selections ≡ cs)
unfolding price_chosen
price_chosen-IsPriced sku item cs x h =
    let (unit, e, h1) = bind-eq-ok (to_cents sku.price) _ h in
    let (deltas, f, h2) = bind-eq-ok (selection_cents (pos 0) cs) _ h1 in
    let (same, positive, safe) = price_subtotal-ok sku item cs unit _ x h2 in
    let price : unit ≡ sku.price = (to_cents-ok sku.price unit e).0 in
    let total : deltas ≡ sum_deltas cs =
      selection_cents-sum (pos 0) deltas cs f ∙ zero-+ℤ (sum_deltas cs) in
    let value = ap (λ d. (unit +ℤ d) *ℤ pos item.quantity) total in
    rw same (
      record {
        product = refl;
        sku_kept = refl;
        quantity = refl;
        unit = price;
        subtotal = value;
        positive = positive;
        safe = safe;
      },
      refl,
    )
