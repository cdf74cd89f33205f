-- ===== src/Orders/Selections.antt =====
-- The selections of a priced item: their options, their groups and their numbers.
use mathlib.Core.Path.{subst}
use ling_dian.Prelude.{
  ℕ, ◌+◌, ◌≤◌, String, true, false, ◌≡◌, refl, ◌∙◌, inl, inr, some, List, [], ◌∷◌, is_some, All,
  Bool-cases, or_else, if◌then◌else◌, arith,
}
use ling_dian.Prelude.Equality.{◌==◌, string_eq, eq_of_beq}
use ling_dian.Prelude.Maps.{map_get, map_get-map_set}
use ling_dian.Prelude.Results.{ok, or_throw, bind-eq-ok, ok-injective, or_throw-eq-ok}
use ling_dian.Schema.StoresEnums.{SelectionMode, selection_mode_eq}
use ling_dian.Schema.CatalogRows.{SelectionOption, SelectionGroup}
use ling_dian.Schema.OrderRows.{OrderItemSelection}
use ling_dian.Orders.Amounts.{chosen_of}
use ling_dian.Orders.Pricing.{
  OrderItemSelectionDto, snapshot, choose_option, choose_options, add_count, minimum, miscounted,
  check_groups,
}

-- A selection that was accepted is the snapshot of a catalogue option of an allowed group.
pub record IsOffered (allowed : List (String × SelectionGroup))
    (options : List (String × SelectionOption)) (given : OrderItemSelectionDto)
    (c : OrderItemSelection) : Type 0 where
  pub option : SelectionOption
  pub listed : map_get given.selection_option_id options ≡ some option
  pub allowed_group : is_some (map_get option.group_id allowed) ≡ true
  pub kept : c ≡ snapshot option (or_else given.quantity 1)

-- The selections of the request and the accepted ones, in step.
abbrev pub AllOffered :
    List (String × SelectionGroup)
    → List (String × SelectionOption)
    → List OrderItemSelectionDto
    → List OrderItemSelection
    → Type 0
AllOffered allowed options [] [] = Unit
AllOffered allowed options (given ∷ selections) (c ∷ cs) =
    IsOffered allowed options given c × AllOffered allowed options selections cs
AllOffered allowed options _ _ = ⊥

module _ (allowed : List (String × SelectionGroup))
    (options : List (String × SelectionOption)) where
  choose_option-IsOffered :
      (given : OrderItemSelectionDto) (c : OrderItemSelection)
      → choose_option allowed options given ≡ ok c
      → IsOffered allowed options given c
  unfolding choose_option
  choose_option-IsOffered given c h =
      let (o, e, k) = bind-eq-ok (or_throw (map_get given.selection_option_id options) _) _ h in
      record {
        option = o;
        listed = or_throw-eq-ok (map_get given.selection_option_id options) _ e;
        allowed_group = ground (arith, k);
        kept = ground (arith, k);
      }

  -- The selections are accepted one by one, and counted by group on top of the earlier counts.
  abbrev pub Counted :
      List (String × ℕ)
      → List OrderItemSelectionDto
      → List OrderItemSelection × List (String × ℕ)
      → Type 0
  Counted counts selections r =
      AllOffered allowed options selections r.0
      × ((id : String)
          → or_else (map_get id r.1) 0 ≡ or_else (map_get id counts) 0 + chosen_of id r.0)

  count_added :
      (id : String) (c : OrderItemSelection) (counts : List (String × ℕ))
      → or_else (map_get id (add_count c counts)) 0
        ≡ or_else (map_get id counts) 0 + (if c.selection_group_id == id then c.quantity else 0)
  count_added id c counts =
      rw
        (map_get-map_set c.selection_group_id id
          (or_else (map_get c.selection_group_id counts) 0 + c.quantity) counts)
        (elim (Bool-cases (c.selection_group_id == id)) [
          | inl e ↦ rw e (rw (eq_of_beq c.selection_group_id id e) refl)
          | inr e ↦ rw e (omega arith)
        ])

  count_step :
      (id : String) (c : OrderItemSelection) (counts : List (String × ℕ))
      (cs : List OrderItemSelection)
      → or_else (map_get id (add_count c counts)) 0 + chosen_of id cs
        ≡ or_else (map_get id counts) 0 + chosen_of id (c ∷ cs)
  count_step id c counts cs = ground (arith, count_added id c counts)

  pub choose_options-Counted :
      (counts : List (String × ℕ)) (selections : List OrderItemSelectionDto)
      (out : List OrderItemSelection × List (String × ℕ))
      → choose_options allowed options counts selections ≡ ok out
      → Counted counts selections out
  unfolding choose_options
  choose_options-Counted counts [] out h =
      subst (Counted counts []) (ok-injective h) (tt, λ id. omega arith)
  choose_options-Counted counts (given ∷ selections) out h =
      let (c, e, k) = bind-eq-ok (choose_option allowed options given) _ h in
      let (r, f, l) =
        bind-eq-ok (choose_options allowed options (add_count c counts) selections) _ k in
      let (offered, counted) = choose_options-Counted (add_count c counts) selections r f in
      subst (Counted counts (given ∷ selections)) (ok-injective l) (
        (choose_option-IsOffered given c e, offered),
        λ id. counted id ∙ count_step id c counts r.0,
      )

-- A group's rule on the number of its chosen options.
abbrev pub IsWithin : SelectionGroup → ℕ → Type 0
IsWithin g n =
    (minimum g ≤ n) × (n ≤ g.max_select) × (g.selection_mode ≡ SelectionMode.single → n ≤ 1)

miscounted-IsWithin : (g : SelectionGroup) (n : ℕ) → miscounted g n ≡ false → IsWithin g n
miscounted-IsWithin g n h = (ground arith, ground arith, ground arith)

pub check_groups-All :
    (counts : List (String × ℕ)) (groups : List SelectionGroup)
    → check_groups counts groups ≡ ok tt
    → All (λ g. IsWithin g (or_else (map_get g.id counts) 0)) groups
unfolding check_groups
check_groups-All counts [] h = tt
check_groups-All counts (g ∷ groups) h =
    elim (Bool-cases (miscounted g (or_else (map_get g.id counts) 0))) [
      | inl e ↦ let k = rw e at h in cc
      | inr e ↦ (miscounted-IsWithin g _ e, check_groups-All counts groups (rw e at h))
    ]
