-- ===== src/Json/StringRoundTrip.antt =====
-- `write_escaped` and `parse_string` of service/src/json.rs.
use ahara_collector.Prelude.{
  ℕ, zero, suc, ◌/◌, ◌%◌, ◌≤◌, ◌<◌, ◌≡◌, refl, ap, ◌∙◌, false, inl, inr, Bool-cases, some, [], ◌∷◌,
  ◌++◌, Text, arith, ◌==◌, ==→eq, ltb, ltb→lt, length, length-append, append_assoc, append-nil,
}
use ahara_collector.Prelude.Results.{ok}
use ahara_collector.Json.Printer.{hex_digit, escape, escape_all, write_escaped}
use ahara_collector.Json.Strings.{
  hex_value, from_hex, char_or_replacement, unicode_escape, parse_escape, string_step, push, close,
  string_loop, parse_string,
}

hex_value-hex_digit : (d : ℕ) → d < 16 → hex_value (hex_digit d) ≡ some d
unfolding hex_value hex_digit
hex_value-hex_digit d h = ground arith

hex_digit-ne-plus : (d : ℕ) → d < 16 → (hex_digit d == b'+') ≡ false
unfolding hex_digit
hex_digit-ne-plus d h = ground arith

from_hex-control :
    (c : ℕ) → c < 0x20 → from_hex b'0' b'0' (hex_digit (c / 16)) (hex_digit (c % 16)) ≡ some c
unfolding from_hex
from_hex-control c h =
    rw (hex_value-hex_digit (c / 16) (omega arith), hex_value-hex_digit (c % 16) (omega arith))
      (ap some (omega arith))

unicode_escape-control :
    (c : ℕ) (s : Text)
    → c < 0x20
    → unicode_escape (b'0' ∷ b'0' ∷ hex_digit (c / 16) ∷ hex_digit (c % 16) ∷ s) ≡ push c s
unfolding unicode_escape char_or_replacement
unicode_escape-control c s h = ground (arith, from_hex-control c h)

-- One round of the loop reads one escaped character.
string_step-escape : (c : ℕ) (s : Text) → string_step (escape c ++ s) ≡ push c s
unfolding string_step parse_escape escape
string_step-escape c s = elim (Bool-cases (c == b'"')) [
  | inl e ↦ rw (==→eq c b'"' e)
  | inr quote ↦ elim (Bool-cases (c == b'\\')) [
    | inl e ↦ rw (==→eq c b'\\' e)
    | inr slash ↦ elim (Bool-cases (c == 10)) [
      | inl e ↦ rw (==→eq c 10 e)
      | inr lf ↦ elim (Bool-cases (c == 13)) [
        | inl e ↦ rw (==→eq c 13 e)
        | inr cr ↦ elim (Bool-cases (c == 9)) [
          | inl e ↦ rw (==→eq c 9 e)
          | inr tab ↦ elim (Bool-cases (ltb c 0x20)) [
            | inl e ↦
                rw (quote, slash, lf, cr, tab, e) (unicode_escape-control c s (ltb→lt c 0x20 e))
            | inr e ↦ rw (quote, slash, lf, cr, tab, e) (rw (quote, slash))
          ]
        ]
      ]
    ]
  ]
]

string_step-quote : (s : Text) → string_step (b'"' ∷ s) ≡ close s
unfolding string_step
string_step-quote s = refl

length-escape : (c : ℕ) → 0 < length (escape c)
unfolding escape
length-escape c = ground arith

string_loop-escape_all :
    (f : ℕ) (out s rest : Text)
    → length s < f
    → string_loop f out (escape_all s ++ b'"' ∷ rest) ≡ ok (out ++ s, rest)
unfolding string_loop escape_all
string_loop-escape_all zero out s rest h = absurd (omega arith)
string_loop-escape_all (suc f) out [] rest h = rw (string_step-quote rest, string_loop, append-nil)
string_loop-escape_all (suc f) out (c ∷ s) rest h =
    rw (append_assoc (escape c) (escape_all s) (b'"' ∷ rest), string_step-escape c _, string_loop)
      (string_loop-escape_all f (out ++ c ∷ []) s rest (omega arith)
        ∙ ap (λ t. ok (t, rest)) (append_assoc out (c ∷ []) s))

length-escape_all : (s : Text) → length s ≤ length (escape_all s)
unfolding escape_all
length-escape_all [] = omega arith
length-escape_all (c ∷ s) =
    omega (arith, length-append (escape c) (escape_all s), length-escape c, length-escape_all s)

-- An escaped text is read back, and no more than it: also one with quotes, control characters and
-- characters of any plane.
pub parse_string-write_escaped :
    (s rest : Text) → parse_string (write_escaped s ++ rest) ≡ ok (s, rest)
unfolding parse_string write_escaped
parse_string-write_escaped s rest = rw (append_assoc (escape_all s) (b'"' ∷ []) rest) (
    string_loop-escape_all (suc (length (escape_all s ++ b'"' ∷ rest))) [] s rest
      (omega (arith, length-append (escape_all s) (b'"' ∷ rest), length-escape_all s)))
