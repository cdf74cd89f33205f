-- ===== src/Stores.antt =====
-- The single-store policy (`backend/src/modules/stores/store-context.resolver.ts`,
-- `SingleStoreContextResolver`). `config` is the setting `store.primaryStoreId`, if it is present.
pub mod Policy
use ling_dian.Prelude.{
  String, Bool, true, false, not, ◌||◌, Option, none, some, List, [], ◌∷◌, map, keep, non_empty,
  trim, if◌then◌else◌, ℕ, length,
}
use ling_dian.Prelude.Equality.{◌==◌, string_eq, distinct}
use ling_dian.Prelude.Results.{
  Result, ok, throw, bind, or_throw, bad_request, forbidden, service_unavailable,
}
use ling_dian.Schema.CatalogRows.{Store}
use ling_dian.Schema.Database.{Database}
use ling_dian.Db.{Prisma}

abbrev pub not_ready : Result String
not_ready = throw (service_unavailable "Service is not ready")

abbrev from_setting : Option String → Result String
from_setting none = not_ready
from_setting (some s) = if non_empty (trim s) then ok (trim s) else not_ready

unfoldable pub primary_store_id : Option String → Result String
primary_store_id config = from_setting config

check_requested : Option String → String → Result String
check_requested none primary = ok primary
check_requested (some requested) primary =
    if not (trim requested == primary)
    then throw (bad_request "The requested store does not match the configured store")
    else ok primary

unfoldable pub resolve_requested_store_id : Option String → Option String → Result String
unfolding check_requested
resolve_requested_store_id config requested =
    bind (primary_store_id config) (check_requested requested)

-- `normalized.length !== 1 || normalized[0] !== primaryStoreId`.
abbrev pub is_only : String → List String → Bool
is_only primary [] = false
is_only primary (s ∷ []) = s == primary
is_only primary (s ∷ t ∷ rest) = false

abbrev pub normalized : List String → List String
normalized requested = distinct (keep non_empty (map trim requested))

check_store_ids : Option (List String) → String → Result (List String)
check_store_ids none primary = ok (primary ∷ [])
check_store_ids (some requested) primary =
    if not (is_only primary (normalized requested))
    then throw (forbidden "Store access is outside the configured store")
    else ok (primary ∷ [])

unfoldable pub resolve_store_ids : Option String → Option (List String) → Result (List String)
unfolding check_store_ids
resolve_store_ids config requested = bind (primary_store_id config) (check_store_ids requested)

unfoldable pub resolve_current_store : Prisma → Option String → Database → Result Store
resolve_current_store db config s = bind (primary_store_id config) λ primary.
    or_throw (db.find_first Store (λ r. r.id == primary) s.stores)
      (service_unavailable "Service is not ready")

-- `assertReady`: any failure becomes "not ready".
abbrev ready : Result Store → Result (Unit {0})
ready (ok store) = ok tt
ready (throw e) = throw (service_unavailable "Service is not ready")

pub assert_ready : Prisma → Option String → Database → Result (Unit {0})
assert_ready db config s = ready (resolve_current_store db config s)
