-- ===== src/Examples/JsonRuns.antt =====
-- The serializer and the parser of service/src/json.rs at the inputs of its tests.
use ahara_collector.Prelude.{◌≡◌, refl, true, codes, List, ℕ, [], ◌∷◌}
use ahara_collector.Prelude.Int.{pos}
use ahara_collector.Prelude.Results.{Result, ok, err}
use ahara_collector.Json.Syntax.{
  Json, null, int, float, str, arr, obj, nil, item, end, field, insert,
}
use ahara_collector.Json.Printer.{to_string, print_int, write_escaped}
use ahara_collector.Json.Strings.{
  Error, parse_string, string_loop, string_step, parse_escape, unicode_escape, surrogate, low_half,
  char_or_replacement, from_hex, expected_comma, expected_string, trailing_data, invalid_number,
}
use ahara_collector.Json.Parser.{
  parse, parse_value, parse_by_head, open_with, close_with, parse_colon, parse_literal, parse_end,
  skip_ws, push_item,
}
use ahara_collector.Json.Numbers.{number_span, number_value, parse_number}
use ahara_collector.Examples.Samples.{spelled}

-- Opens all that a run of the parser calls.
unfoldable pub runs : List ℕ → Result Error (Json spelled.F64)
unfolding parse parse_by_head open_with close_with parse_colon parse_literal parse_number
    number_value number_span parse_string string_loop string_step parse_escape unicode_escape
    surrogate low_half char_or_replacement from_hex parse_end skip_ws push_item insert
runs = parse spelled

abbrev document : Json spelled.F64
document = obj (
    field (codes "a")
      (arr (item (int (pos 1)) (item (float (codes "2.5")) (item (str (codes "x\"y")) nil))))
      (field (codes "b") null
        (field (codes "c") (obj (field (codes "d") (Json.bool true) end)) end)))

print_document :
    to_string spelled document ≡ codes "{\"a\":[1,2.5,\"x\\\"y\"],\"b\":null,\"c\":{\"d\":true}}"
unfolding to_string print_int write_escaped
print_document = refl

parse_document : parse spelled (to_string spelled document) ≡ ok document
unfolding runs parse_value to_string print_int write_escaped
parse_document = refl

parse_unsorted :
    parse spelled (codes " { \"b\" : -42 , \"a\" : [ ] , \"b\" : 7 } ")
    ≡ ok (obj (field (codes "a") (arr nil) (field (codes "b") (int (pos 7)) end)))
unfolding runs parse_value
parse_unsorted = refl

parse_pair :
    parse spelled (codes "\"\\ud83d\\ude00\\ud800x\"") ≡ ok (str (0x1f600 ∷ 0xfffd ∷ b'x' ∷ []))
unfolding runs parse_value
parse_pair = refl

-- The reader of hexadecimal digits takes a sign.
parse_signed_escape : parse spelled (codes "\"\\u+041\"") ≡ ok (str (codes "A"))
unfolding runs parse_value
parse_signed_escape = refl

parse_errors :
    (parse spelled (codes "[1,]") ≡ err invalid_number)
    × (parse spelled (codes "12 34") ≡ err trailing_data)
    × (parse spelled (codes "[1 2") ≡ err expected_comma)
    × (parse spelled (codes "{") ≡ err expected_string)
unfolding runs parse_value
parse_errors = (refl, refl, refl, refl)
