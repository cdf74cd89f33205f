-- ===== src/Db/Listed.antt =====
-- A client over plain lists: the interface's laws can be met, and the tests run with it.
use ling_dian.Prelude.{
  not, ◌≤◌, ap, ◌∙◌, suc, leb, leb→le, ℕ, Bool, true, false, ◌≡◌, refl, inl, inr, Option, none,
  some, List, [], ◌∷◌, ◌++◌, Member, All, any, keep, length, count_where, if◌then◌else◌, Bool-cases,
  arith,
}
use ling_dian.Db.Tables.{update_where, upsert_where, Ascends, Descends}
use ling_dian.Db.Client.{Prisma}

module _ {Row : Type 0} (p : Row → Bool) where
  pub find_row : List Row → Option Row
  find_row [] = none
  find_row (r ∷ t) = if p r then some r else find_row t

  pub find_row-found : (t : List Row) (r : Row) → find_row t ≡ some r → (p r ≡ true) × Member r t
  unfolding find_row
  find_row-found [] r h = cc
  find_row-found (x ∷ t) r h = elim (Bool-cases (p x)) [
    | inl e ↦ let same : x ≡ r = ground arith in (rw (← same) e, inl (ground arith))
    | inr e ↦ let (pr, m) = find_row-found t r (rw e at h) in (pr, inr m)
  ]

  pub find_row-missing : (t : List Row) → find_row t ≡ none → All (λ r. p r ≡ false) t
  unfolding find_row
  find_row-missing [] h = tt
  find_row-missing (x ∷ t) h = elim (Bool-cases (p x)) [
    | inl e ↦ ground arith
    | inr e ↦ (e, find_row-missing t (rw e at h))
  ]

  All-weaken :
      (x : Row) (t xs : List Row)
      → All (λ r. (p r ≡ true) × Member r t) xs
      → All (λ r. (p r ≡ true) × Member r (x ∷ t)) xs
  All-weaken x t [] h = tt
  All-weaken x t (y ∷ xs) h = ((h.0.0, inr h.0.1), All-weaken x t xs h.1)

  pub keep-found : (t : List Row) → All (λ r. (p r ≡ true) × Member r t) (keep p t)
  keep-found [] = tt
  keep-found (x ∷ t) = elim (Bool-cases (p x)) [
    | inl e ↦ rw e ((e, inl refl), All-weaken x t (keep p t) (keep-found t))
    | inr e ↦ rw e (All-weaken x t (keep p t) (keep-found t))
  ]

  pub length-keep : (t : List Row) → length (keep p t) ≡ count_where p t
  length-keep [] = refl
  length-keep (x ∷ t) = ground (arith, length-keep t)

module _ {Row : Type 0} (le : Row → Row → Bool) where
  pub insert_row : Row → List Row → List Row
  insert_row x [] = x ∷ []
  insert_row x (r ∷ t) = let rest = insert_row x t in if le x r then x ∷ r ∷ t else r ∷ rest

  pub sort_rows : List Row → List Row
  unfolding insert_row
  sort_rows [] = []
  sort_rows (r ∷ t) = insert_row r (sort_rows t)

  length-insert_row : (x : Row) (t : List Row) → length (insert_row x t) ≡ suc (length t)
  unfolding insert_row
  length-insert_row x [] = refl
  length-insert_row x (r ∷ t) = ground (arith, length-insert_row x t)

  length-sort_rows : (t : List Row) → length (sort_rows t) ≡ length t
  unfolding sort_rows
  length-sort_rows [] = refl
  length-sort_rows (r ∷ t) = length-insert_row r (sort_rows t) ∙ ap suc (length-sort_rows t)

  All-insert_row :
      (P : Row → Type 0) (x : Row) (t : List Row) → P x → All P t → All P (insert_row x t)
  unfolding insert_row
  All-insert_row P x [] px h = (px, tt)
  All-insert_row P x (r ∷ t) px h = elim (Bool-cases (le x r)) [
    | inl e ↦ rw e (px, h)
    | inr e ↦ rw e (h.0, All-insert_row P x t px h.1)
  ]

  All-sort_rows : (P : Row → Type 0) (t : List Row) → All P t → All P (sort_rows t)
  unfolding sort_rows
  All-sort_rows P [] h = tt
  All-sort_rows P (r ∷ t) h = All-insert_row P r (sort_rows t) h.0 (All-sort_rows P t h.1)

module _ {Row : Type 0} (key : Row → ℕ) where
  abbrev pub up : Row → Row → Bool
  up a b = leb (key a) (key b)

  abbrev pub down : Row → Row → Bool
  down a b = leb (key b) (key a)

  All-le_trans : (a b : ℕ) (t : List Row) → a ≤ b → All (λ x. b ≤ key x) t → All (λ x. a ≤ key x) t
  All-le_trans a b [] h k = tt
  All-le_trans a b (r ∷ t) h k = (omega (arith, k.0), All-le_trans a b t h k.1)

  All-ge_trans : (a b : ℕ) (t : List Row) → b ≤ a → All (λ x. key x ≤ b) t → All (λ x. key x ≤ a) t
  All-ge_trans a b [] h k = tt
  All-ge_trans a b (r ∷ t) h k = (omega (arith, k.0), All-ge_trans a b t h k.1)

  insert_row-Ascends : (x : Row) (t : List Row) → Ascends key t → Ascends key (insert_row up x t)
  unfolding insert_row
  insert_row-Ascends x [] h = (tt, tt)
  insert_row-Ascends x (r ∷ t) h = elim (Bool-cases (leb (key x) (key r))) [
    | inl e ↦ rw e ((leb→le _ _ e, All-le_trans (key x) (key r) t (leb→le _ _ e) h.0), h)
    | inr e ↦ rw e (All-insert_row up _ x t (ground arith) h.0, insert_row-Ascends x t h.1)
  ]

  insert_row-Descends :
      (x : Row) (t : List Row) → Descends key t → Descends key (insert_row down x t)
  unfolding insert_row
  insert_row-Descends x [] h = (tt, tt)
  insert_row-Descends x (r ∷ t) h = elim (Bool-cases (leb (key r) (key x))) [
    | inl e ↦ rw e ((leb→le _ _ e, All-ge_trans (key x) (key r) t (leb→le _ _ e) h.0), h)
    | inr e ↦ rw e (All-insert_row down _ x t (ground arith) h.0, insert_row-Descends x t h.1)
  ]

  pub sort_rows-Ascends : (t : List Row) → Ascends key (sort_rows up t)
  unfolding sort_rows
  sort_rows-Ascends [] = tt
  sort_rows-Ascends (r ∷ t) = insert_row-Ascends r (sort_rows up t) (sort_rows-Ascends t)

  pub sort_rows-Descends : (t : List Row) → Descends key (sort_rows down t)
  unfolding sort_rows
  sort_rows-Descends [] = tt
  sort_rows-Descends (r ∷ t) = insert_row-Descends r (sort_rows down t) (sort_rows-Descends t)

module _ {Row : Type 0} (le : Row → Row → Bool) (p : Row → Bool) (t : List Row) where
  pub sorted_found : All (λ r. (p r ≡ true) × Member r t) (sort_rows le (keep p t))
  sorted_found = All-sort_rows le _ (keep p t) (keep-found p t)

  pub sorted_count : length (sort_rows le (keep p t)) ≡ count_where p t
  sorted_count = length-sort_rows le (keep p t) ∙ length-keep p t

unfoldable pub listed : Prisma
unfolding find_row sort_rows
listed = record {
  find_first = λ Row. find_row;
  find_many = λ Row. keep;
  find_ordered = λ Row p key t. sort_rows (up key) (keep p t);
  find_latest = λ Row p key t. sort_rows (down key) (keep p t);
  count = λ Row. count_where;
  update_many = λ Row p f t. (update_where p f t, count_where p t);
  create = λ Row clash r t. if any clash t then none else some (t ++ r ∷ []);
  upsert = λ Row. upsert_where;
  find_first_found = λ Row. find_row-found;
  find_first_missing = λ Row. find_row-missing;
  find_many_found = λ Row. keep-found;
  find_many_count = λ Row. length-keep;
  find_ordered_found = λ Row p key. sorted_found (up key) p;
  find_ordered_count = λ Row p key. sorted_count (up key) p;
  find_ordered_ascends = λ Row p key t. sort_rows-Ascends key (keep p t);
  find_latest_found = λ Row p key. sorted_found (down key) p;
  find_latest_count = λ Row p key. sorted_count (down key) p;
  find_latest_descends = λ Row p key t. sort_rows-Descends key (keep p t);
  count_rows = λ Row p t. refl;
  update_many_rows = λ Row p f t. refl;
  create_row = λ Row clash r t. refl;
  upsert_row = λ Row p r f t. refl;
  delete_many = λ Row p t. keep (λ r. not (p r)) t;
  delete_many_rows = λ Row p t. refl;
}
