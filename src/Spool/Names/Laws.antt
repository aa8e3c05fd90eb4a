-- ===== src/Spool/Names/Laws.antt =====
-- Names of segments, of service/src/spool.rs, written and read.
use ahara_collector.Prelude.{
  ℕ, zero, suc, ◌-◌, ◌^◌, ◌<◌, ◌≡◌, refl, ap, ◌∙◌, true, false, none, some, [], ◌∷◌, ◌++◌, Text,
  codes, arith, length, length-append, replicate, all, text_eq, text_eq→eq, text_eq_refl,
  Bool-cases, inl, inr,
}
use ahara_collector.Prelude.Decimal.{
  is_digit, decimal, decimal-all, number_from, number_from-decimal, number_from-zeros,
  length-decimal_le,
}
use ahara_collector.Spool.Names.{current, padded, segment_name, strip_suffix, parse_segment_name}

-- The suffix is found where it stands.
strip_suffix-append : (suffix s : Text) → strip_suffix suffix (s ++ suffix) ≡ some s
unfolding strip_suffix
strip_suffix-append [] [] = refl
strip_suffix-append (a ∷ suffix) [] = rw (text_eq_refl (a ∷ suffix))
strip_suffix-append suffix (c ∷ s) = elim (Bool-cases (text_eq (c ∷ s ++ suffix) suffix)) [
  | inl e ↦ absurd (
      omega (
        arith,
        ap (λ (t : Text). length t) (text_eq→eq (c ∷ s ++ suffix) suffix e),
        length-append s suffix,
      ))
  | inr e ↦ rw (e, strip_suffix-append suffix s)
]

length-replicate : (k c : ℕ) → length (replicate k c) ≡ k
length-replicate zero c = refl
length-replicate (suc k) c = ap suc (length-replicate k c)

all-zeros : (k : ℕ) (s : Text) → all is_digit s ≡ true → all is_digit (replicate k b'0' ++ s) ≡ true
unfolding all is_digit
all-zeros zero s h = h
all-zeros (suc k) s h = all-zeros k s h

length-padded : (n : ℕ) → n < 10 ^ 16 → length (padded n) ≡ 16
unfolding padded
length-padded n h = omega (
  arith,
  length-append (replicate (16 - length (decimal n)) b'0') (decimal n),
  length-replicate (16 - length (decimal n)) b'0',
  length-decimal_le n 15 h,
)

padded-all : (n : ℕ) → all is_digit (padded n) ≡ true
unfolding padded
padded-all n = all-zeros (16 - length (decimal n)) (decimal n) (decimal-all n)

number_from-padded : (n : ℕ) → number_from 0 (padded n) ≡ n
unfolding padded
number_from-padded n =
    number_from-zeros (16 - length (decimal n)) (decimal n) ∙ number_from-decimal n

-- A number that fits sixteen digits is read back from the name of its segment.
pub parse_segment_name-segment_name :
    (n : ℕ) → n < 10 ^ 16 → parse_segment_name (segment_name n) ≡ some n
unfolding parse_segment_name segment_name
parse_segment_name-segment_name n h = rw (
  strip_suffix-append (codes ".jsonl") (padded n),
  length-padded n h,
  padded-all n,
  number_from-padded n,
)

-- No segment has the name of the open one.
pub parse_segment_name-current : parse_segment_name current ≡ none
unfolding parse_segment_name
parse_segment_name-current = refl

pub current-ne-segment_name : (n : ℕ) → text_eq current (segment_name n) ≡ false
unfolding segment_name text_eq
current-ne-segment_name n = refl
