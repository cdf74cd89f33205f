-- ===== src/Prelude/Equality.antt =====
-- Equality as an interface: a Boolean test that decides `≡`.
use Prim.Native.Nat.{ℕ}
use Prim.Native.String.{String}
use mathlib.Core.Path.{◌≡◌, refl}
use mathlib.Core.Logic.{◌↔◌, inl, inr}
use mathlib.Core.Bool.{Bool, true, false, not}
use mathlib.Core.Option.{Option, none, some}
use mathlib.Core.List.{List, [], ◌∷◌}
use native.Mathlib.Omega.{arith}
use text.Mathlib.Text.{◌==◌ as str_eq}
use text.Mathlib.TextEquality.{eq_iff}
use ling_dian.Prelude.Tests.{nat_beq, nat_beq_iff, if◌then◌else◌, Bool-cases}
use ling_dian.Prelude.Lists.{Member, keep}

pub record Eq {ℓ} (A : Type ℓ) : Type ℓ where
  pub same : A → A → Bool
  pub same_iff : (a b : A) → (same a b ≡ true) ↔ (a ≡ b)

-- An enumeration is tested through its constructors' numbers.
abbrev pub eq_by {ℓ} : {A : Type ℓ} (code : A → ℕ) → ((a b : A) → code a ≡ code b → a ≡ b) → Eq A
eq_by code inj = record {
  same = λ a b. nat_beq (code a) (code b);
  same_iff = λ a b. (
    λ h. inj a b ((nat_beq_iff (code a) (code b)).0 h),
    λ h. (nat_beq_iff (code a) (code b)).1 (λ i. code (h i)),
  );
}

infix 50 ◌==◌
abbrev pub ◌==◌ {ℓ} : {A : Type ℓ} ⦃e : Eq A⦄ → A → A → Bool
◌==◌ ⦃e⦄ = e.same

instance abbrev pub string_eq : Eq String
string_eq = record { same = str_eq; same_iff = eq_iff }

instance abbrev pub nat_eq : Eq ℕ
nat_eq = record { same = nat_beq; same_iff = nat_beq_iff }

module _ {ℓ} {A : Type ℓ} ⦃e : Eq A⦄ where
  pub beq_refl : (a : A) → (a == a) ≡ true
  beq_refl a = (e.same_iff a a).1 refl

  pub eq_of_beq : (a b : A) → (a == b) ≡ true → a ≡ b
  eq_of_beq a b = (e.same_iff a b).0

  pub beq_of_ne : (a b : A) → ¬ (a ≡ b) → (a == b) ≡ false
  beq_of_ne a b h = elim (Bool-cases (a == b)) [ inl q ↦ absurd (h (eq_of_beq a b q)) | inr q ↦ q ]

  abbrev pub option_beq : Option A → Option A → Bool
  option_beq none none = true
  option_beq (some a) (some b) = a == b
  option_beq _ _ = false

  pub option_beq_iff : (a b : Option A) → (option_beq a b ≡ true) ↔ (a ≡ b)
  option_beq_iff none none = ground arith
  option_beq_iff none (some b) = ground arith
  option_beq_iff (some a) none = ground arith
  option_beq_iff (some a) (some b) = ground (arith, e.same_iff a b)

  -- `[...new Set(xs)]`: the first occurrence of each value, in order.
  abbrev pub distinct : List A → List A
  distinct [] = []
  distinct (x ∷ xs) = x ∷ keep (λ y. not (y == x)) (distinct xs)

  -- `xs.includes(a)`.
  abbrev pub includes : A → List A → Bool
  includes a [] = false
  includes a (x ∷ xs) = if a == x then true else includes a xs

pub includes-Member :
    {A : Type 0} ⦃e : Eq A⦄ (a : A) (xs : List A) → includes a xs ≡ true → Member a xs
includes-Member a [] h = cc
includes-Member ⦃e⦄ a (x ∷ xs) h = ground (arith, e.same_iff a x, includes-Member a xs)

instance abbrev pub option_eq {ℓ} : {A : Type ℓ} ⦃e : Eq A⦄ → Eq (Option A)
option_eq = record { same = option_beq; same_iff = option_beq_iff }

-- Equality as a unique constraint reads it: an absent value is equal to nothing.
abbrev pub same_present : Option String → Option String → Bool
same_present none b = false
same_present (some a) b = some a == b
