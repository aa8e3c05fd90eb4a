-- ===== src/Crypto/CompareLaws.antt =====
-- `eq_constant_time` of service/src/crypto.rs.
use Prim.Native.Nat.{bit_or, bit_or-bitwise, bit_xor, bit_xor-bitwise, digits, differ}
use ahara_collector.Prelude.{
  ℕ, zero, suc, ◌/◌, ◌%◌, ◌≤◌, ◌≡◌, refl, sym, ap, ◌∙◌, max, true, [], ◌∷◌, Bytes, length, arith,
  ◌↔◌,
}
use ahara_collector.Crypto.Compare.{differences, eq_constant_time}

differ_zero : (x y : ℕ) → differ x y ≡ 0 → x ≡ y
differ_zero zero y h = sym h
differ_zero (suc x) zero h = absurd (omega (arith, h))
differ_zero (suc x) (suc y) h = ap suc (differ_zero x y h)

differ_self : (x : ℕ) → differ x x ≡ 0
differ_self zero = refl
differ_self (suc x) = differ_self x

abbrev xor_digits : ℕ → ℕ → ℕ → ℕ
xor_digits n a b = digits (λ b. b) differ n a b

abbrev or_digits : ℕ → ℕ → ℕ → ℕ
or_digits n a b = digits (λ b. b) max n a b

xor_digits_zero : (n a b : ℕ) → a ≤ n → xor_digits n a b ≡ 0 → a ≡ b
xor_digits_zero zero zero b p h = sym h
xor_digits_zero zero (suc a) b p h = absurd (omega arith)
xor_digits_zero (suc n) zero b p h = sym h
xor_digits_zero (suc n) (suc a) b p h = omega (
  arith,
  xor_digits_zero n (suc a / 2) (b / 2) (omega arith) (omega (arith, h)),
  differ_zero (suc a % 2) (b % 2) (omega (arith, h)),
)

xor_digits_self : (n a : ℕ) → a ≤ n → xor_digits n a a ≡ 0
xor_digits_self zero zero p = refl
xor_digits_self zero (suc a) p = absurd (omega arith)
xor_digits_self (suc n) zero p = refl
xor_digits_self (suc n) (suc a) p =
    omega (arith, xor_digits_self n (suc a / 2) (omega arith), differ_self (suc a % 2))

or_digits_zero : (n a b : ℕ) → a ≤ n → or_digits n a b ≡ 0 → (a ≡ 0) × (b ≡ 0)
or_digits_zero zero zero b p h = (refl, h)
or_digits_zero zero (suc a) b p h = absurd (omega arith)
or_digits_zero (suc n) zero b p h = (refl, h)
or_digits_zero (suc n) (suc a) b p h =
    let ih = or_digits_zero n (suc a / 2) (b / 2) (omega arith) (omega (arith, h)) in
    absurd (omega (arith, h, ih.0, ih.1))

bit_xor_zero : (a b : ℕ) → bit_xor a b ≡ 0 → a ≡ b
bit_xor_zero a b h = xor_digits_zero a a b (omega arith) (sym (bit_xor-bitwise a b) ∙ h)

bit_xor_self : (a : ℕ) → bit_xor a a ≡ 0
bit_xor_self a = bit_xor-bitwise a a ∙ xor_digits_self a a (omega arith)

bit_or_zero : (a b : ℕ) → bit_or a b ≡ 0 → (a ≡ 0) × (b ≡ 0)
bit_or_zero a b h = or_digits_zero a a b (omega arith) (sym (bit_or-bitwise a b) ∙ h)

differences_zero :
    (diff : ℕ) (a b : Bytes) → length a ≡ length b → differences diff a b ≡ 0 → (diff ≡ 0) × (a ≡ b)
unfolding differences
differences_zero diff [] [] p h = (h, refl)
differences_zero diff [] (y ∷ b) p h = absurd (omega (arith, p))
differences_zero diff (x ∷ a) [] p h = absurd (omega (arith, p))
differences_zero diff (x ∷ a) (y ∷ b) p h =
    let (d, e) = differences_zero (bit_or diff (bit_xor x y)) a b (omega (arith, p)) h in
    let (f, g) = bit_or_zero diff (bit_xor x y) d in (f, rw (bit_xor_zero x y g, e) refl)

differences_self : (a : Bytes) → differences 0 a a ≡ 0
unfolding differences
differences_self [] = refl
differences_self (x ∷ a) = rw (bit_xor_self x) (differences_self a)

-- `eq_constant_time` answers true on equal bytes and on no others, also on inputs of different
-- lengths.
pub eq_constant_time_lem : (a b : Bytes) → (eq_constant_time a b ≡ true) ↔ (a ≡ b)
unfolding eq_constant_time
eq_constant_time_lem a b = (
  λ h. (differences_zero 0 a b (ground (arith, h)) (ground (arith, h))).1,
  λ e. rw e (ground (arith, differences_self b)),
)
