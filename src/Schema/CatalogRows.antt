-- ===== src/Schema/CatalogRows.antt =====
-- Stores and what they sell (`packages/db/prisma/schema.prisma`). A SKU carries the parts of its
-- product that an order reads, and the selection groups bound to the product and to the SKU.
use ling_dian.Prelude.{ℕ, Bool, String, Option, List}
use ling_dian.Prelude.Int.{ℤ}
use ling_dian.Schema.StoresEnums.{StoreStatus, ProductStatus, SelectionMode, SelectionOptionType}

pub record Store : Type 0 where
  pub id : String
  pub code : String
  pub name : String
  pub status : StoreStatus
  pub dine_in_enabled : Bool
  pub takeout_enabled : Bool
  pub pickup_enabled : Bool

pub record SelectionGroup : Type 0 where
  pub id : String
  pub name : String
  pub selection_mode : SelectionMode
  pub min_select : ℕ
  pub max_select : ℕ
  pub is_required : Bool
  pub is_active : Bool

-- A row of `ProductSelectionGroup` with its group.
pub record SelectionBinding : Type 0 where
  pub group_id : String
  pub is_enabled : Bool
  pub group : SelectionGroup

pub record Product : Type 0 where
  pub id : String
  pub store_id : String
  pub name : String
  pub status : ProductStatus
  pub selection_bindings : List SelectionBinding

pub record ProductSku : Type 0 where
  pub id : String
  pub product_id : String
  pub sku_name : String
  pub price : ℤ
  pub is_active : Bool
  pub product : Product
  pub selection_bindings : List SelectionBinding

pub record SelectionOption : Type 0 where
  pub id : String
  pub group_id : String
  pub name : String
  pub option_type : SelectionOptionType
  pub price_delta : ℤ
  pub is_active : Bool
  pub group : SelectionGroup
  pub referenced_sku_id : Option String
  pub referenced_sku_name : Option String
