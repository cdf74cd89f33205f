-- ===== src/Prelude/Maps.antt =====
-- The standard `Map` as the program uses it: entries in the order of their first insertion.
use Prim.Native.String.{String}
use mathlib.Core.Path.{◌≡◌, refl}
use mathlib.Core.Option.{Option, none, some}
use mathlib.Core.List.{List, [], ◌∷◌}
use native.Mathlib.Omega.{arith}
use ling_dian.Prelude.Tests.{if◌then◌else◌}
use ling_dian.Prelude.Equality.{◌==◌, string_eq}

module _ {V : Type 0} where
  abbrev pub map_get : String → List (String × V) → Option V
  map_get k [] = none
  map_get k ((j, v) ∷ m) = if j == k then some v else map_get k m

  abbrev pub map_set : String → V → List (String × V) → List (String × V)
  map_set k v [] = (k, v) ∷ []
  map_set k v ((j, w) ∷ m) = if j == k then (j, v) ∷ m else (j, w) ∷ map_set k v m

  -- `new Map(entries)`: a later entry replaces an earlier one with its key.
  abbrev pub map_add_all : List (String × V) → List (String × V) → List (String × V)
  map_add_all m [] = m
  map_add_all m ((k, v) ∷ entries) = map_add_all (map_set k v m) entries

  abbrev pub new_map : List (String × V) → List (String × V)
  new_map entries = map_add_all [] entries

  abbrev pub map_values : List (String × V) → List V
  map_values [] = []
  map_values ((k, v) ∷ m) = v ∷ map_values m

  pub map_get-map_set :
      (k j : String) (v : V) (m : List (String × V))
      → map_get j (map_set k v m) ≡ (if k == j then some v else map_get j m)
  map_get-map_set k j v [] = refl
  map_get-map_set k j v ((i, w) ∷ m) = ground (
    arith,
    string_eq.same_iff i k,
    string_eq.same_iff i j,
    string_eq.same_iff k j,
    map_get-map_set k j v m,
  )
