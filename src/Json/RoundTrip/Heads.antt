-- ===== src/Json/RoundTrip/Heads.antt =====
-- What a printed value begins with, and printed scalars.
use ahara_collector.Prelude.{
  ℕ, suc, ◌≡◌, refl, Bool, true, false, ◌∷◌, ◌++◌, Text, arith, all, if◌then◌else◌,
}
use ahara_collector.Prelude.Int.{ℤ, pos, negsuc}
use ahara_collector.Prelude.Decimal.{is_digit, decimal, decimal-all, decimal-cons}
use ahara_collector.Prelude.Results.{ok}
use ahara_collector.Json.Syntax.{Floats, Json, null, int, float, str, arr, obj}
use ahara_collector.Json.Printer.{print_int, write_escaped, to_string}
use ahara_collector.Json.Numbers.{is_number_char, parse_number}
use ahara_collector.Json.Parser.{Parser, skip_ws, open_with, parse_by_head, parse_value}
use ahara_collector.Json.Canonical.{Canonical}
use ahara_collector.Json.NumberRoundTrip.{PrintsBack}

abbrev pub StartsNumber : Text → Type 0
StartsNumber s = (c : ℕ) × (t : Text) × (s ≡ c ∷ t) × (is_number_char c ≡ true)

pub decimal-StartsNumber : (n : ℕ) → StartsNumber (decimal n)
unfolding is_number_char all
decimal-StartsNumber n =
    let (c, s, e) = decimal-cons n in
    let digits = rw e at (decimal-all n) in (c, s, e, ground arith)

pub print_int-StartsNumber : (i : ℤ) → StartsNumber (print_int i)
unfolding print_int is_number_char
print_int-StartsNumber (pos n) = decimal-StartsNumber n
print_int-StartsNumber (negsuc n) = (b'-', decimal (suc n), refl, refl)

pub display-StartsNumber :
    (fl : Floats) (f : fl.F64) → PrintsBack fl f → StartsNumber (fl.display f)
unfolding is_number_char
display-StartsNumber fl f h = start h.minus h.shape
  where
    start :
        (minus : Bool)
        → fl.display f ≡ (if minus then b'-' ∷ h.head ∷ h.run else h.head ∷ h.run)
        → StartsNumber (fl.display f)
    start true e = (b'-', h.head ∷ h.run, e, refl)
    start false e = (h.head, h.run, e, ground (arith, h.digit))

-- What a printed value begins with: no white space, and no closing bracket.
pub record IsHead (c : ℕ) : Type 0 where
  pub not_space : (s : Text) → skip_ws (c ∷ s) ≡ c ∷ s
  pub not_bracket : (c ≡ b']') → ⊥

pub number-IsHead : (c : ℕ) → is_number_char c ≡ true → IsHead c
unfolding is_number_char skip_ws
number-IsHead c h = record { not_space = λ s. ground arith; not_bracket = λ e. ground arith }

abbrev pub StartsValue : Text → Type 0
StartsValue s = (c : ℕ) × (t : Text) × (s ≡ c ∷ t) × IsHead c

number→value : (s : Text) → StartsNumber s → StartsValue s
number→value s (c, t, e, h) = (c, t, e, number-IsHead c h)

pub punct-IsHead : IsHead b'"' × IsHead b'[' × IsHead b'{' × IsHead b'n' × IsHead b't' × IsHead b'f'
unfolding skip_ws
punct-IsHead = (
  record { not_space = λ s. refl; not_bracket = λ e. omega arith },
  record { not_space = λ s. refl; not_bracket = λ e. omega arith },
  record { not_space = λ s. refl; not_bracket = λ e. omega arith },
  record { not_space = λ s. refl; not_bracket = λ e. omega arith },
  record { not_space = λ s. refl; not_bracket = λ e. omega arith },
  record { not_space = λ s. refl; not_bracket = λ e. omega arith },
)

module _ (fl : Floats) where
  pub to_string-StartsValue :
      (v : Json fl.F64) → Canonical (PrintsBack fl) v → StartsValue (to_string fl v)
  unfolding to_string write_escaped
  to_string-StartsValue null h = (b'n', _, refl, punct-IsHead.3)
  to_string-StartsValue (Json.bool true) h = (b't', _, refl, punct-IsHead.4)
  to_string-StartsValue (Json.bool false) h = (b'f', _, refl, punct-IsHead.5)
  to_string-StartsValue (int i) h = number→value _ (print_int-StartsNumber i)
  to_string-StartsValue (float f) h = rw h.finite (number→value _ (display-StartsNumber fl f h))
  to_string-StartsValue (str s) h = (b'"', _, refl, punct-IsHead.0)
  to_string-StartsValue (arr xs) h = (b'[', _, refl, punct-IsHead.1)
  to_string-StartsValue (obj fs) h = (b'{', _, refl, punct-IsHead.2)

  pub skip_ws-to_string :
      (v : Json fl.F64) (rest : Text)
      → Canonical (PrintsBack fl) v
      → skip_ws (to_string fl v ++ rest) ≡ to_string fl v ++ rest
  skip_ws-to_string v rest h =
      let (c, t, e, head) = to_string-StartsValue v h in rw e (head.not_space (t ++ rest))

  -- A value behind the opening bracket is not the closing one.
  pub open_with-to_string :
      (v : Json fl.F64) (empty : Json fl.F64) (loop : Parser (Json fl.F64)) (rest : Text)
      → Canonical (PrintsBack fl) v
      → open_with b']' empty loop (to_string fl v ++ rest) ≡ loop (to_string fl v ++ rest)
  unfolding open_with
  open_with-to_string v empty loop rest h =
      let (c, t, e, head) = to_string-StartsValue v h in rw e (ground (arith, head.not_bracket))

  pub parse_by_head-number :
      (fields items : Parser (Json fl.F64)) (c : ℕ) (s : Text)
      → is_number_char c ≡ true
      → parse_by_head fl fields items (c ∷ s) ≡ parse_number fl (c ∷ s)
  unfolding parse_by_head is_number_char is_digit
  parse_by_head-number fields items c s h = ground arith

  pub parse_value-number :
      (f : ℕ) (v : Json fl.F64) (s rest : Text)
      → StartsNumber s
      → parse_number fl (s ++ rest) ≡ ok (v, rest)
      → parse_value fl (suc f) (s ++ rest) ≡ ok (v, rest)
  unfolding parse_value
  parse_value-number f v s rest (c, t, e, h) p = rw e (
      rw ((number-IsHead c h).not_space (t ++ rest), parse_by_head-number _ _ c (t ++ rest) h)
        (rw e at p))
