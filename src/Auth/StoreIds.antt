-- ===== src/Auth/StoreIds.antt =====
-- The stores of a merchant, as `normalizeStoreIds` of
-- `backend/src/modules/auth/session.service.ts` leaves them: each with a name, none twice.
use ling_dian.Prelude.{
  String, Bool, true, false, not, ◌≡◌, refl, ap, ◌∙◌, inl, inr, List, [], ◌∷◌, All, map, keep, all,
  length, non_empty, trim, non_empty-trim-trim, Bool-cases, arith,
}
use ling_dian.Prelude.Equality.{◌==◌, string_eq, nat_eq, distinct, beq_refl, eq_of_beq}
use ling_dian.Auth.Users.{text_leb, insert_text, sort_texts, normalize_store_ids}
use ling_dian.Auth.TokenClaims.{valid_ids}

abbrev Apart : String → List String → Type 0
Apart x ys = All (λ y. (y == x) ≡ false) ys

abbrev AllApart : List String → Type 0
AllApart [] = Unit
AllApart (x ∷ xs) = Apart x xs × AllApart xs

keep-Apart : (x : String) (q : String → Bool) (ys : List String) → Apart x ys → Apart x (keep q ys)
keep-Apart x q [] h = tt
keep-Apart x q (y ∷ ys) h = elim (Bool-cases (q y)) [
  | inl e ↦ rw e (h.0, keep-Apart x q ys h.1)
  | inr e ↦ rw e (keep-Apart x q ys h.1)
]

keep-AllApart : (q : String → Bool) (ys : List String) → AllApart ys → AllApart (keep q ys)
keep-AllApart q [] h = tt
keep-AllApart q (y ∷ ys) h = elim (Bool-cases (q y)) [
  | inl e ↦ rw e (keep-Apart y q ys h.0, keep-AllApart q ys h.1)
  | inr e ↦ rw e (keep-AllApart q ys h.1)
]

left-Apart : (x : String) (ys : List String) → Apart x (keep (λ y. not (y == x)) ys)
left-Apart x [] = tt
left-Apart x (y ∷ ys) = elim (Bool-cases (y == x)) [
  | inl e ↦ rw e (left-Apart x ys)
  | inr e ↦ rw e (e, left-Apart x ys)
]

distinct-AllApart : (xs : List String) → AllApart (distinct xs)
distinct-AllApart [] = tt
distinct-AllApart (x ∷ xs) = (
  left-Apart x (distinct xs),
  keep-AllApart (λ y. not (y == x)) (distinct xs) (distinct-AllApart xs),
)

-- Nothing is left out of a list without repetition.
keep_all : (x : String) (ys : List String) → Apart x ys → keep (λ y. not (y == x)) ys ≡ ys
keep_all x [] h = refl
keep_all x (y ∷ ys) h = rw (h.0) (ap (λ z. y ∷ z) (keep_all x ys h.1))

distinct_same : (xs : List String) → AllApart xs → distinct xs ≡ xs
distinct_same [] h = refl
distinct_same (x ∷ xs) h = rw (distinct_same xs h.1) (ap (λ z. x ∷ z) (keep_all x xs h.0))

beq_false_sym : (a b : String) → (a == b) ≡ false → (b == a) ≡ false
beq_false_sym a b h = elim (Bool-cases (b == a)) [
  | inl e ↦ let same = eq_of_beq b a e in ground (arith, beq_refl a)
  | inr e ↦ e
]

module _ (P : String → Type 0) where
  All-insert_text : (a : String) (bs : List String) → P a → All P bs → All P (insert_text a bs)
  unfolding insert_text
  All-insert_text a [] pa h = (pa, tt)
  All-insert_text a (b ∷ bs) pa h = elim (Bool-cases (text_leb a b)) [
    | inl e ↦ rw e (pa, h)
    | inr e ↦ rw e (h.0, All-insert_text a bs pa h.1)
  ]

  All-sort_texts : (xs : List String) → All P xs → All P (sort_texts xs)
  unfolding sort_texts
  All-sort_texts [] h = tt
  All-sort_texts (x ∷ xs) h = All-insert_text x (sort_texts xs) h.0 (All-sort_texts xs h.1)

  All-keep : (q : String → Bool) (xs : List String) → All P xs → All P (keep q xs)
  All-keep q [] h = tt
  All-keep q (x ∷ xs) h = elim (Bool-cases (q x)) [
    | inl e ↦ rw e (h.0, All-keep q xs h.1)
    | inr e ↦ rw e (All-keep q xs h.1)
  ]

  All-distinct : (xs : List String) → All P xs → All P (distinct xs)
  All-distinct [] h = tt
  All-distinct (x ∷ xs) h = (h.0, All-keep (λ y. not (y == x)) (distinct xs) (All-distinct xs h.1))

insert_text-AllApart :
    (a : String) (bs : List String) → Apart a bs → AllApart bs → AllApart (insert_text a bs)
unfolding insert_text
insert_text-AllApart a [] h k = (tt, tt)
insert_text-AllApart a (b ∷ bs) h k = elim (Bool-cases (text_leb a b)) [
  | inl e ↦ rw e (h, k)
  | inr e ↦ rw e (
    All-insert_text (λ y. (y == b) ≡ false) a bs (beq_false_sym b a h.0) k.0,
    insert_text-AllApart a bs h.1 k.1,
  )
]

sort_texts-AllApart : (xs : List String) → AllApart xs → AllApart (sort_texts xs)
unfolding sort_texts
sort_texts-AllApart [] h = tt
sort_texts-AllApart (x ∷ xs) h =
    insert_text-AllApart x (sort_texts xs) (All-sort_texts (λ y. (y == x) ≡ false) xs h.0)
      (sort_texts-AllApart xs h.1)

abbrev Named : String → Type 0
Named x = non_empty (trim x) ≡ true

trimmed-Named : (ids : List String) → All Named (keep non_empty (map trim ids))
trimmed-Named [] = tt
trimmed-Named (x ∷ ids) = elim (Bool-cases (non_empty (trim x))) [
  | inl e ↦ rw e (non_empty-trim-trim x ∙ e, trimmed-Named ids)
  | inr e ↦ rw e (trimmed-Named ids)
]

all-Named : (xs : List String) → All Named xs → all (λ s. non_empty (trim s)) xs ≡ true
all-Named [] h = refl
all-Named (x ∷ xs) h = rw (h.0) (all-Named xs h.1)

pub normalize_store_ids-valid_ids : (ids : List String) → valid_ids (normalize_store_ids ids) ≡ true
unfolding normalize_store_ids
normalize_store_ids-valid_ids ids =
    let kept = keep non_empty (map trim ids) in
    rw
      (
        all-Named (sort_texts (distinct kept))
            (All-sort_texts Named (distinct kept) (All-distinct Named kept (trimmed-Named ids))),
        distinct_same (sort_texts (distinct kept))
            (sort_texts-AllApart (distinct kept) (distinct-AllApart kept)),
      )
      (beq_refl (length (sort_texts (distinct kept))))
