-- ===== src/Examples/JsonWitnesses.antt =====
-- The properties of the parser and the printer at small documents.
use ahara_collector.Prelude.{◌≡◌, ◌≢◌, refl, true, ◌++◌, Text, codes, arith}
use ahara_collector.Prelude.Int.{pos, negsuc}
use ahara_collector.Prelude.Results.{ok, err}
use ahara_collector.Json.Syntax.{
  text_lt, Json, Fields, null, int, str, arr, obj, nil, item, end, field,
}
use ahara_collector.Json.Printer.{print_int, write_escaped, to_string}
use ahara_collector.Json.Strings.{out_of_fuel, parse_string}
use ahara_collector.Json.Numbers.{is_number_char, parse_number}
use ahara_collector.Json.Parser.{parse}
use ahara_collector.Json.Canonical.{Canonical}
use ahara_collector.Json.RoundTrip.{parse-to_string}
use ahara_collector.Json.NumberRoundTrip.{PrintsBack, stops, parse_number-print_int}
use ahara_collector.Json.StringRoundTrip.{parse_string-write_escaped}
use ahara_collector.Json.RoundTrip.Repeated.{Printable, Collected, parse-Collected}
use ahara_collector.Json.Total.{parse-ne-out_of_fuel}
use ahara_collector.Examples.Samples.{spelled}

abbrev sample : Json spelled.F64
sample = obj (
    field (codes "a") (arr (item (int (pos 1)) (item (str (codes "x\"y")) nil)))
      (field (codes "b") null end))

sample-Canonical : Canonical (PrintsBack spelled) sample
unfolding text_lt
sample-Canonical = (tt, (omega arith, (tt, tt)), (refl, tt, tt))

parse-to_string_example : parse spelled (to_string spelled sample) ≡ ok sample
parse-to_string_example = parse-to_string spelled sample sample-Canonical

parse-ne-out_of_fuel_example : parse spelled (codes "[1,{\"k\":[]}") ≢ err out_of_fuel
parse-ne-out_of_fuel_example = parse-ne-out_of_fuel spelled (codes "[1,{\"k\":[]}")

-- Out of order, and with one key twice.
abbrev repeated : Fields Text
repeated =
    field (codes "b") null
      (field (codes "a") (int (pos 1)) (field (codes "b") (Json.bool true) end))

repeated-Printable : Printable spelled repeated
repeated-Printable = (tt, (omega arith, (tt, tt)))

parse-Collected_example : Collected spelled (to_string spelled (obj repeated)) repeated
parse-Collected_example = parse-Collected spelled repeated repeated-Printable

comma_stops : stops (codes ",") ≡ true
unfolding stops is_number_char
comma_stops = refl

parse_number-print_int_example :
    parse_number spelled (print_int (negsuc 6) ++ codes ",") ≡ ok (int (negsuc 6), codes ",")
parse_number-print_int_example =
    parse_number-print_int spelled (negsuc 6) (codes ",") (omega arith) comma_stops

parse_string-write_escaped_example :
    parse_string (write_escaped (codes "a\"\\\n") ++ codes ":1") ≡ ok (codes "a\"\\\n", codes ":1")
parse_string-write_escaped_example = parse_string-write_escaped (codes "a\"\\\n") (codes ":1")
