-- ===== src/Prelude/Decimal.antt =====
-- Numbers as text: `String(n)` and `s.padStart(width, '0')` of the standard library, with the
-- reading that undoes them.
use Prim.Native.Char.{Char, code}
use ling_dian.Prelude.Tests.{ltb, if◌then◌else◌, Bool-cases, ltb→lt}
use Prim.Native.Nat.{ℕ, zero, suc, ◌+◌, ◌-◌, ◌*◌, ◌/◌, ◌%◌, ◌^◌, ◌≤◌, ◌<◌}
use Prim.Native.String.{String}
use native.Mathlib.Nat.{pow-suc}
use mathlib.Core.Path.{◌≡◌, refl, ap, ◌∙◌}
use mathlib.Core.Logic.{inl, inr}
use native.Mathlib.Omega.{arith}

abbrev pub size : String → ℕ
size String.[] = 0
size (String.◌∷◌ c s) = suc (size s)

digit : ℕ → Char
digit zero = "0"
digit (suc zero) = "1"
digit (suc (suc zero)) = "2"
digit (suc (suc (suc zero))) = "3"
digit (suc (suc (suc (suc zero)))) = "4"
digit (suc (suc (suc (suc (suc zero))))) = "5"
digit (suc (suc (suc (suc (suc (suc zero)))))) = "6"
digit (suc (suc (suc (suc (suc (suc (suc zero))))))) = "7"
digit (suc (suc (suc (suc (suc (suc (suc (suc zero)))))))) = "8"
digit (suc (suc (suc (suc (suc (suc (suc (suc (suc n))))))))) = "9"

code-digit : (d : ℕ) → d < 10 → code (digit d) ≡ 48 + d
unfolding digit
code-digit zero h = refl
code-digit (suc zero) h = refl
code-digit (suc (suc zero)) h = refl
code-digit (suc (suc (suc zero))) h = refl
code-digit (suc (suc (suc (suc zero)))) h = refl
code-digit (suc (suc (suc (suc (suc zero))))) h = refl
code-digit (suc (suc (suc (suc (suc (suc zero)))))) h = refl
code-digit (suc (suc (suc (suc (suc (suc (suc zero))))))) h = refl
code-digit (suc (suc (suc (suc (suc (suc (suc (suc zero)))))))) h = refl
code-digit (suc (suc (suc (suc (suc (suc (suc (suc (suc zero))))))))) h = refl
code-digit (suc (suc (suc (suc (suc (suc (suc (suc (suc (suc n)))))))))) h = absurd (omega arith)

-- The digits of `n` before `rest`, the last digit first.
digits_before : ℕ → ℕ → String → String
digits_before zero n rest = rest
digits_before (suc fuel) n rest =
    let more = digits_before fuel (n / 10) (String.◌∷◌ (digit (n % 10)) rest) in
    if ltb n 10 then String.◌∷◌ (digit n) rest else more

unfoldable pub to_string : ℕ → String
unfolding digits_before digit
to_string n = digits_before (suc n) n String.[]

zeros : ℕ → String → String
zeros zero s = s
zeros (suc k) s = String.◌∷◌ "0" (zeros k s)

unfoldable pub pad_start : ℕ → String → String
unfolding zeros
pad_start width s = zeros (width - size s) s

-- Reads digits after a number that is already read.
abbrev pub read_from : ℕ → String → ℕ
read_from n String.[] = n
read_from n (String.◌∷◌ c s) = read_from (n * 10 + (code c - 48)) s

read-digit :
    (v d n : ℕ) (rest : String)
    → d < 10
    → v * 10 + d ≡ n
    → read_from v (String.◌∷◌ (digit d) rest) ≡ read_from n rest
read-digit v d n rest h e = ap (λ k. read_from k rest) (omega (arith, code-digit d))

read-digits_before :
    (fuel n : ℕ) (rest : String)
    → n < fuel
    → read_from 0 (digits_before fuel n rest) ≡ read_from n rest
unfolding digits_before
read-digits_before zero n rest h = absurd (omega arith)
read-digits_before (suc fuel) n rest h = elim (Bool-cases (ltb n 10)) [
  | inl e ↦ rw e (read-digit 0 n n rest (ltb→lt n 10 e) (omega arith))
  | inr e ↦
      let step =
        read-digits_before fuel (n / 10) (String.◌∷◌ (digit (n % 10)) rest) (ground arith) in
      rw e (step ∙ read-digit (n / 10) (n % 10) n rest (omega arith) (omega arith))
]

pub read-to_string : (n : ℕ) → read_from 0 (to_string n) ≡ n
unfolding to_string
read-to_string n = read-digits_before (suc n) n String.[] (omega arith)

read-zeros : (k : ℕ) (s : String) → read_from 0 (zeros k s) ≡ read_from 0 s
unfolding zeros
read-zeros zero s = refl
read-zeros (suc k) s = read-zeros k s

-- Reading what `String(n).padStart(width, '0')` writes gives the number back.
pub read-pad_start : (width n : ℕ) → read_from 0 (pad_start width (to_string n)) ≡ n
unfolding pad_start
read-pad_start width n = read-zeros (width - size (to_string n)) (to_string n) ∙ read-to_string n

size-digits_before :
    (fuel k n : ℕ) (rest : String)
    → n < fuel
    → n < 10 ^ suc k
    → size (digits_before fuel n rest) ≤ suc k + size rest
unfolding digits_before
size-digits_before zero k n rest h b = absurd (omega arith)
size-digits_before (suc fuel) zero n rest h b = ground arith
size-digits_before (suc fuel) (suc k) n rest h b = elim (Bool-cases (ltb n 10)) [
  | inl e ↦ rw e (omega arith)
  | inr e ↦
      let shorter : n / 10 < 10 ^ suc k = omega (arith, pow-suc 10 (suc k)) in
      let more =
        size-digits_before fuel k (n / 10) (String.◌∷◌ (digit (n % 10)) rest) (ground arith)
          shorter in
      rw e (omega arith)
]

size-zeros : (k : ℕ) (s : String) → size (zeros k s) ≡ k + size s
unfolding zeros
size-zeros zero s = omega arith
size-zeros (suc k) s = omega (arith, size-zeros k s)

-- A number below 10 ^ width is padded to exactly `width` digits.
pub size-pad_start : (k n : ℕ) → n < 10 ^ suc k → size (pad_start (suc k) (to_string n)) ≡ suc k
unfolding pad_start to_string
size-pad_start k n h =
    let short = size-digits_before (suc n) k n String.[] (omega arith) h in
    omega (arith, size-zeros (suc k - size (to_string n)) (to_string n))

pad_start_test : pad_start 4 (to_string 207) ≡ "0207"
unfolding pad_start to_string
pad_start_test = refl
