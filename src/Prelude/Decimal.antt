-- ===== src/Prelude/Decimal.antt =====
-- Decimal digits: what `{}` prints of an unsigned number, and what `parse` reads.
use Prim.Native.Nat.{ℕ, zero, suc, ◌+◌, ◌-◌, ◌*◌, ◌/◌, ◌%◌, ◌^◌, ◌≤◌, ◌<◌}
use mathlib.Core.Path.{◌≡◌, refl, ap, ◌∙◌}
use native.Mathlib.Omega.{arith}
use native.Mathlib.Nat.{pow-suc}
use mathlib.Core.Bool.{Bool, true, ◌&&◌}
use mathlib.Core.Logic.{inl, inr}
use mathlib.Core.List.{[], ◌∷◌, ◌++◌}
use ahara_collector.Prelude.Tests.{ltb, leb, if◌then◌else◌, Bool-cases}
use ahara_collector.Prelude.Lists.{Text, all, length, replicate}

unfoldable pub is_digit : ℕ → Bool
is_digit c = leb b'0' c && leb c b'9'

-- The digits of `n`, in front of `acc`; `n < fuel` is enough.
unfoldable pub digits_onto : ℕ → ℕ → Text → Text
digits_onto zero n acc = acc
digits_onto (suc f) n acc =
    let more = digits_onto f (n / 10) ((b'0' + n % 10) ∷ acc) in
    if ltb n 10 then (b'0' + n) ∷ acc else more

unfoldable pub decimal : ℕ → Text
unfolding digits_onto
decimal n = digits_onto (suc n) n []

-- The number that a run of digits denotes, after the digits of `acc`.
unfoldable pub number_from : ℕ → Text → ℕ
number_from acc [] = acc
number_from acc (c ∷ s) = number_from (acc * 10 + (c - b'0')) s

-- Reading the printed digits gives the number that was printed.
number_from-digits_onto :
    (f n : ℕ) (acc : Text) → n < f → number_from 0 (digits_onto f n acc) ≡ number_from n acc
unfolding digits_onto number_from
number_from-digits_onto zero n acc h = absurd (omega arith)
number_from-digits_onto (suc f) n acc h = elim (Bool-cases (ltb n 10)) [
  | inl small ↦ rw small (ap (λ k. number_from k acc) (omega arith))
  | inr large ↦ rw large (
      number_from-digits_onto f (n / 10) ((b'0' + n % 10) ∷ acc) (ground arith)
      ∙ ap (λ k. number_from k acc) (omega arith))
]

pub number_from-decimal : (n : ℕ) → number_from 0 (decimal n) ≡ n
unfolding decimal number_from
number_from-decimal n = number_from-digits_onto (suc n) n [] (omega arith)

digits_onto-all :
    (f n : ℕ) (acc : Text) → all is_digit acc ≡ true → all is_digit (digits_onto f n acc) ≡ true
unfolding digits_onto all is_digit
digits_onto-all zero n acc h = h
digits_onto-all (suc f) n acc h = elim (Bool-cases (ltb n 10)) [
  | inl small ↦ rw small (ground arith)
  | inr large ↦ rw large (digits_onto-all f (n / 10) ((b'0' + n % 10) ∷ acc) (ground arith))
]

pub decimal-all : (n : ℕ) → all is_digit (decimal n) ≡ true
unfolding decimal all
decimal-all n = digits_onto-all (suc n) n [] refl

digits_onto-cons :
    (f n : ℕ) (acc : Text) → n < f → (c : ℕ) × (s : Text) × (digits_onto f n acc ≡ c ∷ s)
unfolding digits_onto
digits_onto-cons zero n acc h = absurd (omega arith)
digits_onto-cons (suc f) n acc h = elim (Bool-cases (ltb n 10)) [
  | inl small ↦ (b'0' + n, acc, rw small)
  | inr large ↦ rw large (digits_onto-cons f (n / 10) ((b'0' + n % 10) ∷ acc) (ground arith))
]

-- At least one digit is printed.
pub decimal-cons : (n : ℕ) → (c : ℕ) × (s : Text) × (decimal n ≡ c ∷ s)
unfolding decimal
decimal-cons n = digits_onto-cons (suc n) n [] (omega arith)

-- A number below a power of ten has at most that many digits.
digits_onto-length :
    (f n k : ℕ) (acc : Text) → n < 10 ^ suc k → length (digits_onto f n acc) ≤ suc k + length acc
unfolding digits_onto
digits_onto-length zero n k acc h = omega arith
digits_onto-length (suc f) n zero acc h = ground arith
digits_onto-length (suc f) n (suc k) acc h = elim (Bool-cases (ltb n 10)) [
  | inl small ↦ rw small (omega arith)
  | inr large ↦ rw large (
      omega (
        arith,
        digits_onto-length f (n / 10) k ((b'0' + n % 10) ∷ acc) (omega (arith, pow-suc 10 (suc k))),
      ))
]

pub length-decimal_le : (n k : ℕ) → n < 10 ^ suc k → length (decimal n) ≤ suc k
unfolding decimal
length-decimal_le n k h = omega (arith, digits_onto-length (suc n) n k [] h)

-- Zeros in front of a number do not change it.
pub number_from-zeros : (k : ℕ) (s : Text) → number_from 0 (replicate k b'0' ++ s) ≡ number_from 0 s
unfolding number_from
number_from-zeros zero s = refl
number_from-zeros (suc k) s = number_from-zeros k s
