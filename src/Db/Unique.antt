-- ===== src/Db/Unique.antt =====
-- Tables whose rows differ in a key.
use mathlib.Core.Path.{subst}
use ling_dian.Prelude.{
  ◌≤◌, String, Bool, true, false, ◌≡◌, ◌≢◌, refl, sym, ◌∙◌, inl, inr, List, [], ◌∷◌, All,
  All-member, Member, count_where, Bool-cases, arith,
}
use ling_dian.Db.Tables.{update_where}

module _ {Row : Type 0} (key : Row → String) where
  abbrev pub UniqueBy : List Row → Type 0
  UniqueBy [] = Unit
  UniqueBy (r ∷ t) = All (λ x. key x ≢ key r) t × UniqueBy t

  module _ (p : Row → Bool) (k : String) (selects : (r : Row) → p r ≡ true → key r ≡ k) where
    others_out : (t : List Row) → All (λ x. key x ≢ k) t → count_where p t ≡ 0
    others_out [] h = refl
    others_out (r ∷ t) h = elim (Bool-cases (p r)) [
      | inl e ↦ absurd (h.0 (selects r e))
      | inr e ↦ rw e (others_out t h.1)
    ]

    -- A test that selects one key holds of one row at most.
    pub at_most_one : (t : List Row) → UniqueBy t → count_where p t ≤ 1
    at_most_one [] u = omega arith
    at_most_one (r ∷ t) u = elim (Bool-cases (p r)) [
      | inl e ↦
          let none_left : count_where p t ≡ 0 =
            others_out t (subst (λ x. All (λ y. key y ≢ x) t) (selects r e) u.0) in
          rw e (rw none_left (omega arith))
      | inr e ↦ rw e (at_most_one t u.1)
    ]

    -- A row that it holds of is the only one.
    pub exactly_one :
        (t : List Row) (r : Row) → UniqueBy t → Member r t → p r ≡ true → count_where p t ≡ 1
    exactly_one [] r u m h = elim m [ ]
    exactly_one (x ∷ t) r u (inl e) h =
        let here : p x ≡ true = subst (λ y. p y ≡ true) e h in
        let none_left : count_where p t ≡ 0 =
          others_out t (subst (λ k. All (λ y. key y ≢ k) t) (selects x here) u.0) in
        rw here (rw none_left refl)
    exactly_one (x ∷ t) r u (inr m) h = elim (Bool-cases (p x)) [
      | inl e ↦ absurd (All-member (λ y. key y ≢ key x) r t u.0 m (selects r h ∙ sym (selects x e)))
      | inr e ↦ rw e (exactly_one t r u.1 m h)
    ]

  module _ (p : Row → Bool) (f : Row → Row) (keeps : (r : Row) → key (f r) ≡ key r) where
    update_where-apart :
        (k : String) (t : List Row)
        → All (λ x. key x ≢ k) t
        → All (λ x. key x ≢ k) (update_where p f t)
    update_where-apart k [] h = tt
    update_where-apart k (r ∷ t) h = elim (Bool-cases (p r)) [
      | inl e ↦ rw e (λ q. h.0 (sym (keeps r) ∙ q), update_where-apart k t h.1)
      | inr e ↦ rw e (h.0, update_where-apart k t h.1)
    ]

    pub update_where-UniqueBy : (t : List Row) → UniqueBy t → UniqueBy (update_where p f t)
    update_where-UniqueBy [] u = tt
    update_where-UniqueBy (r ∷ t) u = elim (Bool-cases (p r)) [
      | inl e ↦ rw e (rw (keeps r) (update_where-apart (key r) t u.0), update_where-UniqueBy t u.1)
      | inr e ↦ rw e (update_where-apart (key r) t u.0, update_where-UniqueBy t u.1)
    ]

-- An update whose result no longer meets the test leaves no row that does.
pub count-update_where_none :
    {Row : Type 0} (p q : Row → Bool) (f : Row → Row) (t : List Row)
    → ((r : Row) → p r ≡ true → q (f r) ≡ false)
    → ((r : Row) → p r ≡ false → q r ≡ false)
    → count_where q (update_where p f t) ≡ 0
count-update_where_none p q f [] h k = refl
count-update_where_none p q f (r ∷ t) h k = elim (Bool-cases (p r)) [
  | inl e ↦ rw e (rw (h r e) (count-update_where_none p q f t h k))
  | inr e ↦ rw e (rw (k r e) (count-update_where_none p q f t h k))
]

-- The row of a key is the only one.
pub only_row :
    {Row : Type 0} (key : Row → String) (t : List Row) (r : Row)
    → UniqueBy key t
    → Member r t
    → All (λ x. key x ≡ key r → x ≡ r) t
only_row key [] r u m = tt
only_row {Row} key (x ∷ t) r u (inl e) =
    (λ _. sym e, apart t (subst (λ y. All (λ z. key z ≢ key y) t) (sym e) u.0))
  where
    apart : (xs : List Row) → All (λ z. key z ≢ key r) xs → All (λ z. key z ≡ key r → z ≡ r) xs
    apart [] h = tt
    apart (z ∷ xs) h = (λ q. absurd (h.0 q), apart xs h.1)
only_row key (x ∷ t) r u (inr m) =
    (λ q. absurd (All-member (λ y. key y ≢ key x) r t u.0 m (sym q)), only_row key t r u.1 m)
