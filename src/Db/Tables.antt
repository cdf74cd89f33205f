-- ===== src/Db/Tables.antt =====
-- What the calls on a table do to its rows.
use mathlib.Core.Path.{subst}
use ling_dian.Prelude.{
  sym, ◌∙◌, ◌++◌, ◌+◌, ◌≤◌, ℕ, suc, Bool, true, false, ◌≡◌, refl, inl, inr, List, [], ◌∷◌, Member,
  All, count_where, if◌then◌else◌, Bool-cases, arith,
}

module _ {Row : Type 0} where
  abbrev pub update_where : (Row → Bool) → (Row → Row) → List Row → List Row
  update_where p f [] = []
  update_where p f (r ∷ t) = (if p r then f r else r) ∷ update_where p f t

  -- The row that is returned, and the table after the call.
  abbrev pub upsert_where : (Row → Bool) → Row → (Row → Row) → List Row → Row × List Row
  upsert_where p r f [] = (r, r ∷ [])
  upsert_where p r f (x ∷ t) =
      let rest = upsert_where p r f t in if p x then (f x, f x ∷ t) else (rest.0, x ∷ rest.1)

  abbrev pub Ascends : (Row → ℕ) → List Row → Type 0
  Ascends key [] = Unit
  Ascends key (r ∷ t) = All (λ x. key r ≤ key x) t × Ascends key t

  abbrev pub Descends : (Row → ℕ) → List Row → Type 0
  Descends key [] = Unit
  Descends key (r ∷ t) = All (λ x. key x ≤ key r) t × Descends key t

  -- A predicate that the change keeps on the matching rows holds of the whole table after it.
  pub All-update_where {κ} :
      (P : Row → Type κ) (p : Row → Bool) (f : Row → Row) (t : List Row)
      → ((r : Row) → p r ≡ true → P r → P (f r))
      → All P t
      → All P (update_where p f t)
  All-update_where P p f [] step h = h
  All-update_where P p f (r ∷ t) step h = elim (Bool-cases (p r)) [
    | inl e ↦ rw e (step r e h.0, All-update_where P p f t step h.1)
    | inr e ↦ rw e (h.0, All-update_where P p f t step h.1)
  ]

  pub count_where_none :
      (p : Row → Bool) (t : List Row) → All (λ r. p r ≡ false) t → count_where p t ≡ 0
  count_where_none p [] h = refl
  count_where_none p (r ∷ t) h = rw (h.0) (count_where_none p t h.1)

  pub count_where-Member :
      (p : Row → Bool) (t : List Row) (n : ℕ)
      → count_where p t ≡ suc n
      → (r : Row) × (p r ≡ true) × Member r t
  count_where-Member p [] n h = absurd (omega arith)
  count_where-Member p (r ∷ t) n h = elim (Bool-cases (p r)) [
    | inl e ↦ (r, e, inl refl)
    | inr e ↦ let (x, px, m) = count_where-Member p t n (rw e at h) in (x, px, inr m)
  ]

  pub Member-update_where :
      (p : Row → Bool) (f : Row → Row) (r : Row) (t : List Row)
      → p r ≡ true
      → Member r t
      → Member (f r) (update_where p f t)
  Member-update_where p f r [] h m = elim m [ ]
  Member-update_where p f r (x ∷ t) h (inl e) = inl (rw (← e) (rw h refl))
  Member-update_where p f r (x ∷ t) h (inr m) = inr (Member-update_where p f r t h m)

  -- A row of the table after the call is a row before it, changed if it met the test.
  pub update_where-Member :
      (p : Row → Bool) (f : Row → Row) (y : Row) (t : List Row)
      → Member y (update_where p f t)
      → (r : Row) × Member r t × (y ≡ (if p r then f r else r))
  update_where-Member p f y [] m = elim m [ ]
  update_where-Member p f y (x ∷ t) (inl e) = (x, inl refl, e)
  update_where-Member p f y (x ∷ t) (inr m) =
      let (r, mr, e) = update_where-Member p f y t m in (r, inr mr, e)

  pub All-of_member {κ} :
      (P : Row → Type κ) (t : List Row) → ((r : Row) → Member r t → P r) → All P t
  All-of_member P [] h = tt
  All-of_member P (x ∷ t) h = (h x (inl refl), All-of_member P t (λ r m. h r (inr m)))

  pub count_where-append_one :
      (p : Row → Bool) (t : List Row) (r : Row)
      → count_where p (t ++ r ∷ []) ≡ count_where p t + (if p r then 1 else 0)
  count_where-append_one p [] r = ground arith
  count_where-append_one p (x ∷ t) r = ground (arith, count_where-append_one p t r)

  pub count_where-positive :
      (p : Row → Bool) (t : List Row) (r : Row) → Member r t → p r ≡ true → 1 ≤ count_where p t
  count_where-positive p [] r m h = elim m [ ]
  count_where-positive p (x ∷ t) r (inl e) h =
      let here : p x ≡ true = subst (λ y. p y ≡ true) e h in ground arith
  count_where-positive p (x ∷ t) r (inr m) h = ground (arith, count_where-positive p t r m h)

  -- Where one row at most meets a test, two rows that meet it are the same.
  pub same_row :
      (p : Row → Bool) (t : List Row) (r x : Row)
      → count_where p t ≤ 1
      → Member r t
      → Member x t
      → p r ≡ true
      → p x ≡ true
      → x ≡ r
  same_row p [] r x c m mx h hx = elim m [ ]
  same_row p (y ∷ t) r x c (inl e) (inl ex) h hx = ex ∙ sym e
  same_row p (y ∷ t) r x c (inl e) (inr mx) h hx =
      let here : p y ≡ true = subst (λ z. p z ≡ true) e h in
      let rest = count_where-positive p t x mx hx in absurd (ground arith)
  same_row p (y ∷ t) r x c (inr m) (inl ex) h hx =
      let here : p y ≡ true = subst (λ z. p z ≡ true) ex hx in
      let rest = count_where-positive p t r m h in absurd (ground arith)
  same_row p (y ∷ t) r x c (inr m) (inr mx) h hx = same_row p t r x (ground arith) m mx h hx

  pub count_where_le :
      (p q : Row → Bool) (f : Row → Row) (t : List Row)
      → ((r : Row) → q (f r) ≡ true → q r ≡ true)
      → count_where q (update_where p f t) ≤ count_where q t
  count_where_le p q f [] h = omega arith
  count_where_le p q f (r ∷ t) h = elim (Bool-cases (p r)) [
    | inl e ↦ rw e (ground (arith, h r, count_where_le p q f t h))
    | inr e ↦ rw e (ground (arith, count_where_le p q f t h))
  ]

  pub count_where-weaker :
      (p q : Row → Bool) (t : List Row)
      → ((r : Row) → q r ≡ true → p r ≡ true)
      → count_where q t ≤ count_where p t
  count_where-weaker p q [] h = omega arith
  count_where-weaker p q (r ∷ t) h = ground (arith, h r, count_where-weaker p q t h)
