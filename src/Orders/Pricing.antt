-- ===== src/Orders/Pricing.antt =====
-- The prices of an order: the loop over its items in `createOrder`, with `toCents` and `fromCents`
-- (`backend/src/modules/orders/orders.service.ts`). A price column has two decimals, and is its
-- number of cents here; sums that a `Number` holds exactly are exact, and the others are refused.
use ling_dian.Prelude.{
  ℕ, ◌+◌, ◌-◌, ◌^◌, String, Bool, not, ◌&&◌, ◌||◌, Option, none, some, List, [], ◌∷◌, ◌++◌, map,
  keep, ltb, is_some, truthy, or_else, if◌then◌else◌,
}
use ling_dian.Prelude.Int.{ℤ, pos, ◌+ℤ◌, ◌*ℤ◌, magnitude, is_negative}
use ling_dian.Prelude.Equality.{◌==◌, string_eq, nat_eq, option_eq}
use ling_dian.Prelude.Maps.{map_get, map_set, new_map, map_values}
use ling_dian.Prelude.Results.{Result, ok, throw, bind, or_throw, bad_request, not_found}
use ling_dian.Prelude.Decimal.{to_string}
use ling_dian.Schema.StoresEnums.{
  ProductStatus, SelectionMode, product_status_eq, selection_mode_eq,
}
use ling_dian.Schema.CatalogRows.{ProductSku, SelectionOption, SelectionGroup, SelectionBinding}
use ling_dian.Schema.OrderRows.{OrderItem, OrderItemSelection}

pub record OrderItemSelectionDto : Type 0 where
  pub selection_group_id : Option String
  pub selection_option_id : String
  pub quantity : Option ℕ

-- `string | number`.
pub data SkuRef : Type 0 where
  text : String → SkuRef
  number : ℕ → SkuRef

-- `legacy_sku_id` is the field `skuId` and `sku_id` the field `sku_id`.
pub record OrderItemDto : Type 0 where
  pub legacy_sku_id : Option SkuRef
  pub sku_id : Option SkuRef
  pub quantity : ℕ
  pub remark : Option String
  pub selections : List OrderItemSelectionDto

-- `skuId ? String(skuId) : undefined`.
abbrev sku_text : SkuRef → Option String
sku_text (text String.[]) = none
sku_text (text (String.◌∷◌ c s)) = some (String.◌∷◌ c s)
sku_text (number n) = if n == 0 then none else some (to_string n)

abbrev chosen_ref : Option SkuRef → Option SkuRef → Option String
chosen_ref (some r) other = sku_text r
chosen_ref none (some r) = sku_text r
chosen_ref none none = none

unfoldable pub item_sku_id : OrderItemDto → Option String
item_sku_id item = chosen_ref item.legacy_sku_id item.sku_id

-- An item after its SKU id is known not to be empty.
pub record NormalizedItem : Type 0 where
  pub sku_id : String
  pub quantity : ℕ
  pub remark : Option String
  pub selections : List OrderItemSelectionDto

abbrev normalize_item : OrderItemDto → Result NormalizedItem
normalize_item item =
    bind (or_throw (item_sku_id item) (bad_request "sku_id cannot be empty")) λ id. ok (record {
      sku_id = id;
      quantity = item.quantity;
      remark = item.remark;
      selections = item.selections;
    })

unfoldable pub normalize_items : List OrderItemDto → Result (List NormalizedItem)
normalize_items [] = ok []
normalize_items (item ∷ items) =
    let rest = normalize_items items in bind (normalize_item item) λ x. bind rest λ xs. ok (x ∷ xs)

abbrev pub max_safe_integer : ℕ
max_safe_integer = 2 ^ 53 - 1

abbrev pub safe_cents : ℤ → Result ℤ
safe_cents cents =
    if ltb max_safe_integer (magnitude cents)
    then throw (bad_request "Order amount is too large")
    else ok cents

-- `toCents` and `fromCents`: on amounts in cents both only check the range.
unfoldable pub to_cents : ℤ → Result ℤ
to_cents value = safe_cents value

unfoldable pub from_cents : ℤ → Result ℤ
from_cents value = safe_cents value

-- The rows with these ids, by id: `new Map(rows.map((row) => [row.id, row]))`.
abbrev pub sku_map : List ProductSku → List (String × ProductSku)
sku_map skus = new_map (map (λ k. (k.id, k)) skus)

abbrev pub option_map : List SelectionOption → List (String × SelectionOption)
option_map options = new_map (map (λ o. (o.id, o)) options)

abbrev live_binding : SelectionBinding → Bool
live_binding b = b.is_enabled && b.group.is_active

unfoldable pub allowed_groups : ProductSku → List (String × SelectionGroup)
allowed_groups sku = new_map (
    map (λ b. (b.group_id, b.group))
      (keep live_binding sku.product.selection_bindings
        ++ keep live_binding sku.selection_bindings))

-- `selection.selectionGroupId && selection.selectionGroupId !== option.groupId`.
abbrev names_other_group : Option String → String → Bool
names_other_group given group_id = truthy given && not (given == some group_id)

abbrev pub snapshot : SelectionOption → ℕ → OrderItemSelection
snapshot o quantity = record {
  selection_group_id = o.group_id;
  selection_option_id = o.id;
  group_name_snapshot = o.group.name;
  option_name_snapshot = o.name;
  option_type = o.option_type;
  referenced_sku_id = o.referenced_sku_id;
  referenced_sku_name = o.referenced_sku_name;
  price_delta = o.price_delta *ℤ pos quantity;
  quantity = quantity;
}

unfoldable pub choose_option :
    List (String × SelectionGroup)
    → List (String × SelectionOption)
    → OrderItemSelectionDto
    → Result OrderItemSelection
choose_option allowed options selection =
    bind
      (or_throw (map_get selection.selection_option_id options)
        (not_found "Some selection options do not exist"))
      λ o.
        if not (is_some (map_get o.group_id allowed))
          || names_other_group selection.selection_group_id o.group_id
        then throw (bad_request "Selection option is not available for this SKU")
        else ok (snapshot o (or_else selection.quantity 1))

abbrev pub add_count : OrderItemSelection → List (String × ℕ) → List (String × ℕ)
add_count c counts =
    map_set c.selection_group_id (or_else (map_get c.selection_group_id counts) 0 + c.quantity)
      counts

-- The `map` over the selections, which also counts them by group.
unfoldable pub choose_options :
    List (String × SelectionGroup)
    → List (String × SelectionOption)
    → List (String × ℕ)
    → List OrderItemSelectionDto
    → Result (List OrderItemSelection × List (String × ℕ))
choose_options allowed options counts [] = ok ([], counts)
choose_options allowed options counts (selection ∷ selections) =
    bind (choose_option allowed options selection) λ c.
      bind (choose_options allowed options (add_count c counts) selections) λ r. ok (c ∷ r.0, r.1)

abbrev larger : ℕ → ℕ → ℕ
larger a b = if ltb a b then b else a

abbrev pub minimum : SelectionGroup → ℕ
minimum g = larger g.min_select (if g.is_required then 1 else 0)

abbrev pub miscounted : SelectionGroup → ℕ → Bool
miscounted g selected =
    ltb selected (minimum g)
    || (ltb g.max_select selected || (g.selection_mode == SelectionMode.single && ltb 1 selected))

unfoldable pub check_groups : List (String × ℕ) → List SelectionGroup → Result (Unit {0})
check_groups counts [] = ok tt
check_groups counts (g ∷ groups) =
    if miscounted g (or_else (map_get g.id counts) 0)
    then throw (bad_request "Invalid selection count")
    else check_groups counts groups

unfoldable pub selection_cents : ℤ → List OrderItemSelection → Result ℤ
selection_cents sum [] = ok sum
selection_cents sum (c ∷ selections) =
    bind (to_cents c.price_delta) λ cents. selection_cents (sum +ℤ cents) selections

abbrev pub priced_item : ProductSku → NormalizedItem → List OrderItemSelection → ℤ → ℤ → OrderItem
priced_item sku item chosen unit subtotal = record {
  product_id = sku.product_id;
  sku_id = sku.id;
  product_name = sku.product.name;
  sku_name = sku.sku_name;
  unit_price = unit;
  quantity = item.quantity;
  subtotal = subtotal;
  remark = item.remark;
  selections = chosen;
}

-- The checks on the amounts of one item.
unfoldable pub price_subtotal :
    ProductSku → NormalizedItem → List OrderItemSelection → ℤ → ℤ → Result OrderItem
price_subtotal sku item chosen unit_cents subtotal =
    if is_negative subtotal
    then throw (bad_request "Order item subtotal cannot be negative")
    else bind (from_cents unit_cents)
        λ unit. bind (from_cents subtotal) λ sub. ok (priced_item sku item chosen unit sub)

-- The amounts of one item, once its selections are chosen and counted.
unfoldable pub price_chosen :
    ProductSku → NormalizedItem → List OrderItemSelection → Result OrderItem
price_chosen sku item chosen = bind (to_cents sku.price) λ unit_cents.
    bind (selection_cents (pos 0) chosen) λ selected_cents.
      price_subtotal sku item chosen unit_cents
        ((unit_cents +ℤ selected_cents) *ℤ pos item.quantity)

-- One round of the loop.
unfoldable pub price_item :
    List (String × ProductSku) → List (String × SelectionOption) → NormalizedItem → Result OrderItem
price_item skus options item =
    bind (or_throw (map_get item.sku_id skus) (not_found "Some SKUs do not exist")) λ sku.
      if not (sku.product.status == ProductStatus.active)
      then throw (bad_request "Product is not available")
      else bind (choose_options (allowed_groups sku) options [] item.selections) λ chosen.
        bind (check_groups chosen.1 (map_values (allowed_groups sku)))
          λ _. price_chosen sku item chosen.0

-- The whole loop: the items in order, and the total.
unfoldable pub price_items :
    List (String × ProductSku)
    → List (String × SelectionOption)
    → ℤ
    → List NormalizedItem
    → Result (List OrderItem × ℤ)
price_items skus options total [] = ok ([], total)
price_items skus options total (item ∷ items) =
    bind (price_item skus options item)
      λ x. bind (price_items skus options (total +ℤ x.subtotal) items) λ r. ok (x ∷ r.0, r.1)
