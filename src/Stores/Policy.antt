-- ===== src/Stores/Policy.antt =====
-- What the single-store policy lets through.
use ling_dian.Prelude.{
  String, Bool, true, false, not, ◌≡◌, refl, ◌∙◌, ◌⊎◌, inl, inr, Option, some, List, [], ◌∷◌, map,
  keep, non_empty, trim, All, arith, Bool-cases,
}
use ling_dian.Prelude.Equality.{◌==◌, string_eq, distinct, eq_of_beq}
use ling_dian.Prelude.Results.{ok, bind-eq-ok}
use ling_dian.Stores.{primary_store_id, resolve_store_ids, check_store_ids, is_only, normalized}

is_only-cons : (p x : String) (ys : List String) → is_only p (x ∷ ys) ≡ true → (x ≡ p) × (ys ≡ [])
is_only-cons p x [] h = (eq_of_beq x p h, refl)
is_only-cons p x (y ∷ ys) h = cc

module _ (q r : String → Bool) (implied : (y : String) → r y ≡ false → q y ≡ false) where
  keep-keep_nil : (ys : List String) → keep q (keep r ys) ≡ [] → keep q ys ≡ []
  keep-keep_nil [] h = refl
  keep-keep_nil (y ∷ ys) h = ground (arith, implied y, keep-keep_nil ys)

not_beq-false :
    (q : String → Bool) (x y : String) → q x ≡ false → not (y == x) ≡ false → q y ≡ false
not_beq-false q x y qx h = rw (eq_of_beq y x (ground arith)) qx

keep-distinct_nil :
    (q : String → Bool) (xs : List String) → keep q (distinct xs) ≡ [] → All (λ s. q s ≡ false) xs
keep-distinct_nil q [] h = tt
keep-distinct_nil q (x ∷ xs) h = elim (Bool-cases (q x)) [
  | inl e ↦ ground arith
  | inr e ↦ (
    e,
    keep-distinct_nil q xs (
        keep-keep_nil q (λ y. not (y == x)) (λ y. not_beq-false q x y e) (distinct xs)
          (ground arith)),
  )
]

All-equal :
    (p x : String) (xs : List String)
    → x ≡ p
    → All (λ s. not (s == x) ≡ false) xs
    → All (λ s. s ≡ p) xs
All-equal p x [] e h = tt
All-equal p x (y ∷ xs) e h = (eq_of_beq y x (ground arith) ∙ e, All-equal p x xs e h.1)

-- Every value of a list is equal to the only one that is left without the duplicates.
distinct_only :
    (p : String) (xs : List String) → is_only p (distinct xs) ≡ true → All (λ s. s ≡ p) xs
distinct_only p [] h = tt
distinct_only p (x ∷ xs) h =
    let (same, rest) = is_only-cons p x (keep (λ y. not (y == x)) (distinct xs)) h in
    (same, All-equal p x xs same (keep-distinct_nil (λ y. not (y == x)) xs rest))

-- An id that `.filter(Boolean)` drops is blank; the others are kept.
abbrev pub IsPrimaryOrBlank : String → String → Type 0
IsPrimaryOrBlank p s = (trim s ≡ p) ⊎ (non_empty (trim s) ≡ false)

All-requested :
    (p : String) (ids : List String)
    → All (λ s. s ≡ p) (keep non_empty (map trim ids))
    → All (IsPrimaryOrBlank p) ids
All-requested p [] h = tt
All-requested p (s ∷ ids) h = elim (Bool-cases (non_empty (trim s))) [
  | inl e ↦ let k = rw e at h in (inl k.0, All-requested p ids k.1)
  | inr e ↦ (inr e, All-requested p ids (rw e at h))
]

-- When a request names the stores it wants, and the resolver answers, the answer is the configured
-- store alone, and each id of the request is blank or, trimmed, the id of the configured store.
pub resolve_store_ids-primary :
    (config : Option String) (ids answer : List String)
    → resolve_store_ids config (some ids) ≡ ok answer
    → (p : String) × (primary_store_id config ≡ ok p)
      × (answer ≡ p ∷ [])
      × All (IsPrimaryOrBlank p) ids
unfolding resolve_store_ids
resolve_store_ids-primary config ids answer h =
    let (p, configured, checked) =
      bind-eq-ok (primary_store_id config) (check_store_ids (some ids)) h in
    elim (Bool-cases (is_only p (normalized ids))) [
      | inl e ↦ (
        p,
        configured,
        ground (arith, checked, e),
        All-requested p ids (distinct_only p (keep non_empty (map trim ids)) e),
      )
      | inr e ↦ ground (arith, checked, e)
    ]
