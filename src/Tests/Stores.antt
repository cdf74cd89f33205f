-- ===== src/Tests/Stores.antt =====
-- The single-store policy at work.
use ling_dian.Prelude.{trim, String, ◌≡◌, refl, [], ◌∷◌, some, All}
use ling_dian.Prelude.Results.{ok}
use ling_dian.Stores.{primary_store_id, resolve_store_ids}
use ling_dian.Stores.Policy.{resolve_store_ids-primary, IsPrimaryOrBlank}
use ling_dian.Tests.Samples.{config}

-- Blanks and repetitions of the configured store are dropped.
named : resolve_store_ids config (some (" s1" ∷ "" ∷ "s1" ∷ [])) ≡ ok ("s1" ∷ [])
unfolding resolve_store_ids primary_store_id trim
named = refl

resolve_store_ids-primary_example :
    (p : String) × (primary_store_id config ≡ ok p)
    × ("s1" ∷ [] ≡ p ∷ [])
    × All (IsPrimaryOrBlank p) (" s1" ∷ "" ∷ "s1" ∷ [])
resolve_store_ids-primary_example =
    resolve_store_ids-primary config (" s1" ∷ "" ∷ "s1" ∷ []) ("s1" ∷ []) named
