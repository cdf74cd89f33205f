-- ===== src/Prelude/Actions.antt =====
-- Calls that change a state and may throw, and the transaction that undoes what it did if it
-- throws (`prisma.$transaction(async (tx) => …)`).
use mathlib.Core.Path.{◌≡◌, refl, ap}
use mathlib.Core.Bool.{Bool, true, false}
use ling_dian.Prelude.Results.{Exception, Result, ok, throw}

abbrev pub Action : Type 0 → Type 0 → Type 0
Action S A = S → Result A × S

module _ {S A : Type 0} where
  abbrev pub pure : A → Action S A
  pure a s = (ok a, s)

  abbrev pub fail : Exception → Action S A
  fail e s = (throw e, s)

  abbrev pub lift : Result A → Action S A
  lift r s = (r, s)

  -- A guard that throws: `if (b) throw e; …`.
  abbrev pub throw_if : Bool → Exception → Action S A → Action S A
  throw_if true e m s = (throw e, s)
  throw_if false e m s = m s

  abbrev pub rolled_back : S → Result A × S → Result A × S
  rolled_back s (ok a, t) = (ok a, t)
  rolled_back s (throw e, t) = (throw e, s)

  unfoldable pub transaction : Action S A → Action S A
  transaction m s = rolled_back s (m s)

module _ {S A B : Type 0} where
  abbrev pub continue : Result A × S → (A → Action S B) → Result B × S
  continue (ok a, t) f = f a t
  continue (throw e, t) f = (throw e, t)

infixl 5 ◌>>=◌ ◌>>◌
abbrev pub ◌>>=◌ : {S A B : Type 0} → Action S A → (A → Action S B) → Action S B
◌>>=◌ m f s = continue (m s) f

abbrev pub ◌>>◌ : {S B : Type 0} → Action S (Unit {0}) → Action S B → Action S B
m >> k = m >>= λ _. k

-- A transaction that throws leaves the state as it was.
pub transaction_undone :
    {S A : Type 0} (m : Action S A) (s : S) (e : Exception)
    → (transaction m s).0 ≡ throw e
    → (transaction m s).1 ≡ s
unfolding transaction
transaction_undone {S} {A} m s e h = go (m s) h
  where
    go : (r : Result A × S) → (rolled_back s r).0 ≡ throw e → (rolled_back s r).1 ≡ s
    go (ok a, t) h = cc
    go (throw e', t) h = refl

-- Inversion of a call that went through.
pub continue-eq-ok :
    {S A B : Type 0} (r : Result A × S) (f : A → Action S B) {b : B} {t : S}
    → continue r f ≡ (ok b, t)
    → (a : A) × (s : S) × (r ≡ (ok a, s)) × (f a s ≡ (ok b, t))
continue-eq-ok (ok a, s) f h = (a, s, refl, h)
continue-eq-ok (throw e, s) f h = cc

pub throw_if-eq-ok :
    {S A : Type 0} (b : Bool) (e : Exception) (m : Action S A) (s : S) {a : A} {t : S}
    → throw_if b e m s ≡ (ok a, t)
    → (b ≡ false) × (m s ≡ (ok a, t))
throw_if-eq-ok true e m s h = cc
throw_if-eq-ok false e m s h = (refl, h)

pub transaction-eq-ok :
    {S A : Type 0} (m : Action S A) (s : S) {a : A} {t : S}
    → transaction m s ≡ (ok a, t)
    → m s ≡ (ok a, t)
unfolding transaction
transaction-eq-ok {S} {A} m s {a} {t} h = go (m s) h
  where
    go : (r : Result A × S) → rolled_back s r ≡ (ok a, t) → r ≡ (ok a, t)
    go (ok a', t') k = k
    go (throw e', t') k = cc

pub transaction-throw :
    {S A : Type 0} (m : Action S A) (s : S) (e : Exception)
    → (m s).0 ≡ throw e
    → transaction m s ≡ (throw e, s)
unfolding transaction
transaction-throw {S} {A} m s e h = go (m s) h
  where
    go : (r : Result A × S) → r.0 ≡ throw e → rolled_back s r ≡ (throw e, s)
    go (ok a, t) k = cc
    go (throw e', t) k = ap (λ x. (x, s)) k
