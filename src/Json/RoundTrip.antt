-- ===== src/Json/RoundTrip.antt =====
-- `to_string` and `parse` of service/src/json.rs, the one after the other.
mod Heads
mod Steps
pub mod Repeated
use ahara_collector.Prelude.{
  ℕ, zero, suc, ◌+◌, ◌*◌, ◌≤◌, ◌<◌, ◌≡◌, refl, ap, ◌∙◌, Bool, true, false, some, Option, [], ◌∷◌,
  ◌++◌, Text, arith, length, codes, strip_prefix, length-append, append_assoc, append-nil, all,
  if◌then◌else◌,
}
use ahara_collector.Prelude.Int.{ℤ, pos, negsuc}
use ahara_collector.Prelude.Decimal.{is_digit, decimal, decimal-all, decimal-cons}
use ahara_collector.Prelude.Results.{ok}
use ahara_collector.Json.Syntax.{
  Floats, Json, Items, Fields, null, int, float, str, arr, obj, nil, item, end, field, insert,
}
use ahara_collector.Json.Printer.{print_int, write_escaped, to_string, write_items, write_fields}
use ahara_collector.Json.Strings.{parse_string}
use ahara_collector.Json.Numbers.{is_number_char, parse_number}
use ahara_collector.Json.Parser.{
  Parser, skip_ws, push_item, open_with, close_with, parse_literal, parse_colon, parse_by_head,
  parse_value, parse_items, parse_fields, parse_end, parse,
}
use ahara_collector.Json.Canonical.{
  Canonical, CanonicalItems, CanonicalFields, KeysBelow, KeysBelow-last, append_fields,
  append_fields_assoc, insert-last,
}
use ahara_collector.Json.NumberRoundTrip.{
  PrintsBack, stops, parse_number-print_int, parse_number-display,
}
use ahara_collector.Json.StringRoundTrip.{parse_string-write_escaped}
use ahara_collector.Json.RoundTrip.Heads.{
  StartsNumber, decimal-StartsNumber, print_int-StartsNumber, display-StartsNumber, IsHead,
  number-IsHead, StartsValue, punct-IsHead, to_string-StartsValue, skip_ws-to_string,
  open_with-to_string, parse_by_head-number, parse_value-number,
}
use ahara_collector.Json.RoundTrip.Steps.{
  cost, cost_items, cost_fields, items_last, items_more, fields_last, fields_more,
  parse_value-literals, parse_value-empty, parse_value-arr, parse_value-obj, append_items,
  push_item-append, push_item-last, Reads, skip_ws-write_escaped, parse_value-str, cost-pos,
}

module _ (fl : Floats) where
  -- The loops, at an element with others behind it, and then the values.
  mutual
    unfolding cost to_string

    parse_items-Reads :
        (xs : Items fl.F64) (v : Json fl.F64)
        → Reads fl v
        → CanonicalItems (PrintsBack fl) xs
        → (acc : Items fl.F64) (f : ℕ) (rest : Text) → suc (cost fl v + cost_items fl xs) ≤ f
        → parse_items fl f acc (to_string fl v ++ (write_items fl false xs ++ rest))
          ≡ ok (arr (append_items fl acc (item v xs)), rest)
    parse_items-Reads xs v rv h acc zero rest k = absurd (omega arith)
    parse_items-Reads nil v rv h acc (suc f) rest k =
        items_last fl v rv f (omega arith) acc rest
        ∙ ap (λ ys. ok (arr ys, rest)) (push_item-last fl acc v)
    parse_items-Reads (item w ys) v rv h acc (suc f) rest k =
        rw (append_assoc (to_string fl w) (write_items fl false ys) rest) (
          items_more fl v rv f (omega arith) acc _
          ∙ parse_items-Reads ys w (parse_value-Reads w h.0) h.1 (push_item acc v) f rest
              (omega arith)
          ∙ ap (λ zs. ok (arr zs, rest)) (push_item-append fl acc v (item w ys)))

    parse_fields-Reads :
        (fs : Fields fl.F64) (k : Text) (v : Json fl.F64)
        → Reads fl v
        → CanonicalFields (PrintsBack fl) (some k) fs
        → (acc : Fields fl.F64) (f : ℕ) (rest : Text) → KeysBelow k acc
        → suc (cost fl v + cost_fields fl fs) ≤ f
        → parse_fields fl f acc
            (write_escaped k ++ b':' ∷ (to_string fl v ++ (write_fields fl false fs ++ rest)))
          ≡ ok (obj (append_fields acc (field k v fs)), rest)
    parse_fields-Reads fs k v rv h acc zero rest below n = absurd (omega arith)
    parse_fields-Reads end k v rv h acc (suc f) rest below n =
        fields_last fl v rv f (omega arith) acc k rest
        ∙ ap (λ gs. ok (obj gs, rest)) (insert-last k v acc below)
    parse_fields-Reads (field j w fs) k v rv h acc (suc f) rest below n =
        rw
          (
            append_assoc (write_escaped j) (b':' ∷ (to_string fl w ++ write_fields fl false fs))
                rest,
            append_assoc (to_string fl w) (write_fields fl false fs) rest,
          )
          (fields_more fl v rv f (omega arith) acc k _
            ∙ rw (insert-last k v acc below) (
                parse_fields-Reads fs j w (parse_value-Reads w h.1) h.2
                  (append_fields acc (field k v end)) f rest (KeysBelow-last k j v acc below h.0)
                  (omega arith)
                ∙ ap (λ gs. ok (obj gs, rest))
                    (append_fields_assoc acc (field k v end) (field j w fs))))

    pub parse_value-Reads : (v : Json fl.F64) → Canonical (PrintsBack fl) v → Reads fl v
    parse_value-Reads v h zero rest n stop = absurd (omega (arith, cost-pos fl v))
    parse_value-Reads (str s) h (suc f) rest n stop = parse_value-str fl f s rest
    parse_value-Reads (int i) h (suc f) rest n stop =
        parse_value-number fl f (int i) (print_int i) rest (print_int-StartsNumber i)
          (parse_number-print_int fl i rest h stop)
    parse_value-Reads (float x) h (suc f) rest n stop = rw h.finite (
        parse_value-number fl f (float x) (fl.display x) rest (display-StartsNumber fl x h)
          (parse_number-display fl x rest h stop))
    parse_value-Reads (arr nil) h (suc f) rest n stop = (parse_value-empty fl f rest).0
    parse_value-Reads (arr (item v xs)) h (suc f) rest n stop =
        rw (append_assoc (to_string fl v) (write_items fl false xs) rest) (
          parse_value-arr fl f (write_items fl false xs ++ rest) v h.0
          ∙ parse_items-Reads xs v (parse_value-Reads v h.0) h.1 nil f rest (omega arith))
    parse_value-Reads (obj end) h (suc f) rest n stop = (parse_value-empty fl f rest).1
    parse_value-Reads (obj (field k v fs)) h (suc f) rest n stop =
        rw
          (
            append_assoc (write_escaped k) (b':' ∷ (to_string fl v ++ write_fields fl false fs))
                rest,
            append_assoc (to_string fl v) (write_fields fl false fs) rest,
          )
          (parse_value-obj fl f _ k
            ∙ parse_fields-Reads fs k v (parse_value-Reads v h.1) h.2 end f rest tt (omega arith))
    parse_value-Reads null h (suc f) rest n stop = (parse_value-literals fl f rest).0
    parse_value-Reads (Json.bool true) h (suc f) rest n stop = (parse_value-literals fl f rest).1
    parse_value-Reads (Json.bool false) h (suc f) rest n stop = (parse_value-literals fl f rest).2

  StartsNumber-length : (s : Text) → StartsNumber s → 0 < length s
  StartsNumber-length s (c, t, e, h) = rw e (omega arith)

  -- The fuel that `parse` hands out is enough for what was printed.
  mutual
    unfolding cost to_string write_escaped

    pub cost_le :
        (v : Json fl.F64) → Canonical (PrintsBack fl) v → cost fl v ≤ 2 * length (to_string fl v)
    cost_le null h = omega arith
    cost_le (Json.bool true) h = omega arith
    cost_le (Json.bool false) h = omega arith
    cost_le (int i) h = omega (arith, StartsNumber-length _ (print_int-StartsNumber i))
    cost_le (float x) h =
        rw h.finite (omega (arith, StartsNumber-length _ (display-StartsNumber fl x h)))
    cost_le (str s) h = omega arith
    cost_le (arr nil) h = omega arith
    cost_le (arr (item v xs)) h = omega (
      arith,
      length-append (to_string fl v) (write_items fl false xs),
      cost_le v h.0,
      cost_items_le xs h.1,
    )
    cost_le (obj end) h = omega arith
    cost_le (obj (field k v fs)) h = omega (
      arith,
      length-append (write_escaped k) (b':' ∷ (to_string fl v ++ write_fields fl false fs)),
      length-append (to_string fl v) (write_fields fl false fs),
      cost_le v h.1,
      cost_fields_le (some k) fs h.2,
    )

    cost_items_le :
        (xs : Items fl.F64)
        → CanonicalItems (PrintsBack fl) xs
        → cost_items fl xs ≤ 2 * length (write_items fl false xs)
    cost_items_le nil h = omega arith
    cost_items_le (item v xs) h = omega (
      arith,
      length-append (to_string fl v) (write_items fl false xs),
      cost_le v h.0,
      cost_items_le xs h.1,
    )

    cost_fields_le :
        (before : Option Text) (fs : Fields fl.F64)
        → CanonicalFields (PrintsBack fl) before fs
        → cost_fields fl fs ≤ 2 * length (write_fields fl false fs)
    cost_fields_le before end h = omega arith
    cost_fields_le before (field k v fs) h = omega (
      arith,
      length-append (write_escaped k) (b':' ∷ (to_string fl v ++ write_fields fl false fs)),
      length-append (to_string fl v) (write_fields fl false fs),
      cost_le v h.1,
      cost_fields_le (some k) fs h.2,
    )

  -- Every canonical document whose floats print as floats is read back from its print, whole: its
  -- strings, keys and the order of its keys included.
  pub parse-to_string :
      (v : Json fl.F64) → Canonical (PrintsBack fl) v → parse fl (to_string fl v) ≡ ok v
  unfolding parse parse_end skip_ws stops
  parse-to_string v h = rw (
      rw append-nil at (
        parse_value-Reads v h (2 * length (to_string fl v) + 2) [] (omega (arith, cost_le v h))
          refl))
