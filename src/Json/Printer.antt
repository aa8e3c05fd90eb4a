-- ===== src/Json/Printer.antt =====
-- `to_string`, `write` and `write_escaped` of service/src/json.rs. What the program pushes onto a
-- buffer is the text that is returned.
use ahara_collector.Prelude.{
  ℕ, suc, ◌+◌, ◌-◌, ◌/◌, ◌%◌, Bool, true, false, [], ◌∷◌, ◌++◌, Text, codes, ltb, ◌==◌,
  if◌then◌else◌,
}
use ahara_collector.Prelude.Int.{ℤ, pos, negsuc}
use ahara_collector.Prelude.Decimal.{decimal}
use ahara_collector.Json.Syntax.{
  Floats, Json, Items, Fields, null, bool, int, float, str, arr, obj, nil, item, end, field,
}

-- A digit of `{:x}`.
unfoldable pub hex_digit : ℕ → ℕ
hex_digit d = if ltb d 10 then b'0' + d else b'a' + (d - 10)

unfoldable pub escape : ℕ → Text
unfolding hex_digit
escape c =
    if c == b'"'
    then codes "\\\""
    else if c == b'\\'
    then codes "\\\\"
    else if c == 10
    then codes "\\n"
    else if c == 13
    then codes "\\r"
    else if c == 9
    then codes "\\t"
    else if ltb c 0x20
    then codes "\\u00" ++ hex_digit (c / 16) ∷ hex_digit (c % 16) ∷ []
    else c ∷ []

unfoldable pub escape_all : Text → Text
unfolding escape
escape_all [] = []
escape_all (c ∷ s) = escape c ++ escape_all s

unfoldable pub write_escaped : Text → Text
unfolding escape_all
write_escaped s = b'"' ∷ (escape_all s ++ b'"' ∷ [])

-- `{}` of an `i64`
unfoldable pub print_int : ℤ → Text
unfolding decimal
print_int (pos n) = decimal n
print_int (negsuc n) = b'-' ∷ decimal (suc n)

-- The comma in front of all but the first.
abbrev pub comma : Bool → Text
comma first = if first then [] else b',' ∷ []

module _ (fl : Floats) where
  unfoldable mutual
    pub to_string : Json fl.F64 → Text
    to_string null = codes "null"
    to_string (bool true) = codes "true"
    to_string (bool false) = codes "false"
    to_string (int i) = print_int i
    to_string (float f) = if fl.is_finite f then fl.display f else codes "null"
    to_string (str s) = write_escaped s
    to_string (arr xs) = b'[' ∷ write_items true xs
    to_string (obj fs) = b'{' ∷ write_fields true fs

    pub write_items : Bool → Items fl.F64 → Text
    write_items first nil = b']' ∷ []
    write_items first (item v xs) = comma first ++ (to_string v ++ write_items false xs)

    pub write_fields : Bool → Fields fl.F64 → Text
    write_fields first end = b'}' ∷ []
    write_fields first (field k v fs) =
        comma first ++ (write_escaped k ++ b':' ∷ (to_string v ++ write_fields false fs))
