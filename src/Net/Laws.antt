-- ===== src/Net/Laws.antt =====
-- The text of an IPv4 address, printed and read again.
use ahara_collector.Prelude.{
  ℕ, ◌+◌, ◌*◌, ◌/◌, ◌%◌, ◌^◌, ◌<◌, ◌≡◌, refl, ap, ◌∙◌, Bool, true, false, Option, none, some, [],
  ◌∷◌, ◌++◌, append_assoc, Text, all, ◌==◌, ==→eq, arith, holds_up_to, holds_up_to_lem,
}
use ahara_collector.Prelude.Decimal.{is_digit, decimal, decimal-all}
use ahara_collector.Prelude.Parsing.{onto_first, split, parse_octet, octets, address, parse_ipv4}
use ahara_collector.Net.{show_ipv4}

is_octet : ℕ → Option ℕ → Bool
is_octet n none = false
is_octet n (some m) = m == n

is_octet→eq : (n : ℕ) (o : Option ℕ) → is_octet n o ≡ true → o ≡ some n
unfolding is_octet
is_octet→eq n none h = ground (arith, h)
is_octet→eq n (some m) h = ap some (==→eq m n h)

octet_table : holds_up_to (λ n. is_octet n (parse_octet (decimal n))) 256 ≡ true
unfolding holds_up_to is_octet parse_octet decimal
octet_table = refl

parse_octet-decimal : (n : ℕ) → n < 256 → parse_octet (decimal n) ≡ some n
parse_octet-decimal n h =
    is_octet→eq n (parse_octet (decimal n)) (holds_up_to_lem _ 256 n h octet_table)

split-digits : (s t : Text) → all is_digit s ≡ true → split 46 (s ++ 46 ∷ t) ≡ s ∷ split 46 t
unfolding split onto_first all is_digit
split-digits [] t h = refl
split-digits (c ∷ s) t h = rw (split-digits s t (ground (arith, h))) (ground (arith, h))

split-last : (s : Text) → all is_digit s ≡ true → split 46 s ≡ s ∷ []
unfolding split onto_first all is_digit
split-last [] h = refl
split-last (c ∷ s) h = rw (split-last s (ground (arith, h))) (ground (arith, h))

nested :
    (a b c d : ℕ)
    → decimal a ++ 46 ∷ decimal b ++ 46 ∷ decimal c ++ 46 ∷ decimal d
      ≡ decimal a ++ 46 ∷ (decimal b ++ 46 ∷ (decimal c ++ 46 ∷ decimal d))
nested a b c d = simp append_assoc

split-show_ipv4 :
    (a b c d : ℕ)
    → split 46 (decimal a ++ 46 ∷ decimal b ++ 46 ∷ decimal c ++ 46 ∷ decimal d)
      ≡ decimal a ∷ decimal b ∷ decimal c ∷ decimal d ∷ []
split-show_ipv4 a b c d =
    ap (split 46) (nested a b c d)
    ∙ split-digits (decimal a) (decimal b ++ 46 ∷ (decimal c ++ 46 ∷ decimal d)) (decimal-all a)
    ∙ ap (λ t. decimal a ∷ t)
        (split-digits (decimal b) (decimal c ++ 46 ∷ decimal d) (decimal-all b)
          ∙ ap (λ t. decimal b ∷ t)
              (split-digits (decimal c) (decimal d) (decimal-all c)
                ∙ ap (λ t. decimal c ∷ t) (split-last (decimal d) (decimal-all d))))

octets_joined :
    (a : ℕ)
    → a < 2 ^ 32
    → a / 2 ^ 24 % 256 * 2 ^ 24 + a / 2 ^ 16 % 256 * 2 ^ 16 + a / 2 ^ 8 % 256 * 2 ^ 8 + a % 256 ≡ a
octets_joined a h = omega (arith, h)

-- An address is read back from its text.
pub parse_ipv4-show_ipv4 : (a : ℕ) → a < 2 ^ 32 → parse_ipv4 (show_ipv4 a) ≡ some a
unfolding parse_ipv4 show_ipv4 octets address
parse_ipv4-show_ipv4 a h =
    rw
      (
        split-show_ipv4 (a / 2 ^ 24 % 256) (a / 2 ^ 16 % 256) (a / 2 ^ 8 % 256) (a % 256),
        parse_octet-decimal (a / 2 ^ 24 % 256) (omega arith),
        parse_octet-decimal (a / 2 ^ 16 % 256) (omega arith),
        parse_octet-decimal (a / 2 ^ 8 % 256) (omega arith),
        parse_octet-decimal (a % 256) (omega arith),
      )
      (ap some (octets_joined a h))
