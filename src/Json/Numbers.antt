-- ===== src/Json/Numbers.antt =====
-- `parse_number` of service/src/json.rs.
use ahara_collector.Prelude.{
  ℕ, ◌-◌, ◌^◌, Bool, ◌||◌, Option, none, some, [], ◌∷◌, Text, ltb, leb, ◌==◌, if◌then◌else◌, all,
  any, is_empty, ◌++◌, text_eq,
}
use ahara_collector.Prelude.Int.{ℤ, pos, negsuc}
use ahara_collector.Prelude.Decimal.{is_digit, number_from}
use ahara_collector.Prelude.Results.{Result, ok, err, ◌>>=◌}
use ahara_collector.Json.Syntax.{Floats, Json, int, float}
use ahara_collector.Json.Strings.{Error, invalid_number}

-- The characters that make a number a float.
unfoldable pub is_mark : ℕ → Bool
is_mark c = c == b'.' || (c == b'e' || (c == b'E' || (c == b'+' || c == b'-')))

unfoldable pub is_number_char : ℕ → Bool
unfolding is_digit is_mark
is_number_char c = is_digit c || is_mark c

-- The loop: the longest run of such characters, and what follows it.
unfoldable pub number_span : Text → Text × Text
unfolding is_number_char
number_span [] = ([], [])
number_span (c ∷ s) =
    let (run, rest) = number_span s in if is_number_char c then (c ∷ run, rest) else ([], c ∷ s)

-- `str::parse::<i64>`
unfoldable pub signed : Bool → ℕ → Option ℤ
signed Bool.false n = if ltb n (2 ^ 63) then some (pos n) else none
signed Bool.true n =
    if n == 0 then some (pos 0) else if leb n (2 ^ 63) then some (negsuc (n - 1)) else none

unfoldable pub signed_digits : Bool → Text → Option ℤ
unfolding signed is_digit number_from all
signed_digits minus [] = none
signed_digits minus (c ∷ s) =
    if all is_digit (c ∷ s) then signed minus (number_from 0 (c ∷ s)) else none

unfoldable pub parse_i64 : Text → Option ℤ
unfolding signed_digits
parse_i64 [] = none
parse_i64 (c ∷ s) =
    if c == b'-'
    then signed_digits Bool.true s
    else if c == b'+'
    then signed_digits Bool.false s
    else signed_digits Bool.false (c ∷ s)

module _ (fl : Floats) where
  unfoldable pub float_or_error : Text → Result Error (Json fl.F64)
  float_or_error text = elim (fl.parse text) [ none ↦ err invalid_number | some f ↦ ok (float f) ]

  -- The value of the characters collected: `text` is `-` or nothing, and then the run.
  unfoldable pub number_value : Text → Text → Result Error (Json fl.F64)
  unfolding float_or_error parse_i64 is_mark any text_eq
  number_value sign run =
      let text = sign ++ run in
      if is_empty text || text_eq text (b'-' ∷ [])
      then err invalid_number
      else if any is_mark run
      then float_or_error text
      else elim (parse_i64 text) [ none ↦ float_or_error text | some i ↦ ok (int i) ]

  -- From the end of the sign on.
  unfoldable pub number_after : Text → Text → Result Error (Json fl.F64 × Text)
  number_after sign s =
      let (run, rest) = number_span s in do v ← number_value sign run; ok (v, rest)

  unfoldable pub parse_number : Text → Result Error (Json fl.F64 × Text)
  unfolding number_after
  parse_number [] = err invalid_number
  parse_number (c ∷ s) = if c == b'-' then number_after (b'-' ∷ []) s else number_after [] (c ∷ s)
