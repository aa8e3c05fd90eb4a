-- ===== src/Json/RoundTrip/Steps.antt =====
-- The fuel that a printed value takes, and one round of the loops of arrays and objects.
use ahara_collector.Prelude.{
  ℕ, suc, ◌+◌, ◌≤◌, ◌<◌, ◌≡◌, refl, ap, true, false, ◌∷◌, ◌++◌, Text, arith, codes, strip_prefix,
}
use ahara_collector.Prelude.Results.{ok}
use ahara_collector.Json.Syntax.{
  Floats, Json, Items, Fields, null, str, arr, obj, nil, item, end, field, insert,
}
use ahara_collector.Json.Printer.{write_escaped, to_string}
use ahara_collector.Json.Strings.{parse_string}
use ahara_collector.Json.Numbers.{is_number_char}
use ahara_collector.Json.Parser.{
  skip_ws, push_item, open_with, close_with, parse_literal, parse_colon, parse_by_head, parse_value,
  parse_items, parse_fields,
}
use ahara_collector.Json.Canonical.{Canonical}
use ahara_collector.Json.NumberRoundTrip.{PrintsBack, stops}
use ahara_collector.Json.StringRoundTrip.{parse_string-write_escaped}
use ahara_collector.Json.RoundTrip.Heads.{punct-IsHead, skip_ws-to_string, open_with-to_string}

module _ (fl : Floats) where
  -- The fuel that a printed value takes.
  unfoldable mutual
    pub cost : Json fl.F64 → ℕ
    cost (arr xs) = suc (cost_items xs)
    cost (obj fs) = suc (cost_fields fs)
    cost _ = 1

    pub cost_items : Items fl.F64 → ℕ
    cost_items nil = 0
    cost_items (item v xs) = suc (cost v + cost_items xs)

    pub cost_fields : Fields fl.F64 → ℕ
    cost_fields end = 0
    cost_fields (field k v fs) = suc (cost v + cost_fields fs)

  abbrev pub append_items : Items fl.F64 → Items fl.F64 → Items fl.F64
  append_items nil ys = ys
  append_items (item v xs) ys = item v (append_items xs ys)

  pub push_item-append :
      (xs : Items fl.F64) (v : Json fl.F64) (ys : Items fl.F64)
      → append_items (push_item xs v) ys ≡ append_items xs (item v ys)
  unfolding push_item
  push_item-append nil v ys = refl
  push_item-append (item w xs) v ys = ap (item w) (push_item-append xs v ys)

  pub push_item-last :
      (xs : Items fl.F64) (v : Json fl.F64) → push_item xs v ≡ append_items xs (item v nil)
  unfolding push_item
  push_item-last nil v = refl
  push_item-last (item w xs) v = ap (item w) (push_item-last xs v)

  abbrev pub Reads : Json fl.F64 → Type 0
  Reads v =
      (f : ℕ) (rest : Text)
      → cost v ≤ f
      → stops rest ≡ true
      → parse_value fl f (to_string fl v ++ rest) ≡ ok (v, rest)

  pub skip_ws-write_escaped :
      (k rest : Text) → skip_ws (write_escaped k ++ rest) ≡ write_escaped k ++ rest
  unfolding write_escaped skip_ws
  skip_ws-write_escaped k rest = refl

  pub parse_value-str :
      (f : ℕ) (s rest : Text) → parse_value fl (suc f) (write_escaped s ++ rest) ≡ ok (str s, rest)
  unfolding parse_value
  parse_value-str f s rest =
      rw (skip_ws-write_escaped s rest) (by_quote (parse_string-write_escaped s rest))
    where
      by_quote :
          parse_string (write_escaped s ++ rest) ≡ ok (s, rest)
          → parse_by_head fl
              (parse_fields fl f end)
              (parse_items fl f nil)
              (write_escaped s ++ rest)
            ≡ ok (str s, rest)
      by_quote p = unfold parse_by_head write_escaped in rw p

  -- One round of the loop of an array, at the last element and at another.
  module _ (v : Json fl.F64) (reads : Reads v) (f : ℕ) (fuel : cost v ≤ f) where
    pub items_last :
        (acc : Items fl.F64) (rest : Text)
        → parse_items fl (suc f) acc (to_string fl v ++ b']' ∷ rest)
          ≡ ok (arr (push_item acc v), rest)
    unfolding parse_items close_with skip_ws stops is_number_char
    items_last acc rest = rw (reads f (b']' ∷ rest) fuel refl)

    pub items_more :
        (acc : Items fl.F64) (s : Text)
        → parse_items fl (suc f) acc (to_string fl v ++ b',' ∷ s)
          ≡ parse_items fl f (push_item acc v) s
    unfolding parse_items close_with skip_ws stops is_number_char
    items_more acc s = rw (reads f (b',' ∷ s) fuel refl)

    pub fields_last :
        (acc : Fields fl.F64) (k rest : Text)
        → parse_fields fl (suc f) acc (write_escaped k ++ b':' ∷ (to_string fl v ++ b'}' ∷ rest))
          ≡ ok (obj (insert k v acc), rest)
    unfolding parse_fields close_with skip_ws stops is_number_char parse_colon
    fields_last acc k rest =
        rw (
          skip_ws-write_escaped k _,
          parse_string-write_escaped k _,
          reads f (b'}' ∷ rest) fuel refl,
        )

    pub fields_more :
        (acc : Fields fl.F64) (k s : Text)
        → parse_fields fl (suc f) acc (write_escaped k ++ b':' ∷ (to_string fl v ++ b',' ∷ s))
          ≡ parse_fields fl f (insert k v acc) s
    unfolding parse_fields close_with skip_ws stops is_number_char parse_colon
    fields_more acc k s =
        rw (skip_ws-write_escaped k _, parse_string-write_escaped k _, reads f (b',' ∷ s) fuel refl)

  pub cost-pos : (v : Json fl.F64) → 0 < cost v
  unfolding cost
  cost-pos null = omega arith
  cost-pos _ = omega arith

  module _ (f : ℕ) (rest : Text) where
    pub parse_value-literals :
        (parse_value fl (suc f) (codes "null" ++ rest) ≡ ok (null, rest))
        × (parse_value fl (suc f) (codes "true" ++ rest) ≡ ok (Json.bool true, rest))
        × (parse_value fl (suc f) (codes "false" ++ rest) ≡ ok (Json.bool false, rest))
    unfolding parse_value parse_by_head skip_ws parse_literal strip_prefix
    parse_value-literals = (refl, refl, refl)

    pub parse_value-empty :
        (parse_value fl (suc f) (codes "[]" ++ rest) ≡ ok (arr nil, rest))
        × (parse_value fl (suc f) (codes "{}" ++ rest) ≡ ok (obj end, rest))
    unfolding parse_value parse_by_head skip_ws open_with
    parse_value-empty = (refl, refl)

    pub parse_value-arr :
        (v : Json fl.F64)
        → Canonical (PrintsBack fl) v
        → parse_value fl (suc f) (b'[' ∷ (to_string fl v ++ rest))
          ≡ parse_items fl f nil (to_string fl v ++ rest)
    unfolding parse_value parse_by_head
    parse_value-arr v h =
        rw (opening, skip_ws-to_string fl v rest h) (open_with-to_string fl v _ _ rest h)
      where
        opening : (s : Text) → skip_ws (b'[' ∷ s) ≡ b'[' ∷ s
        opening s = punct-IsHead.1.not_space s

    pub parse_value-obj :
        (k : Text)
        → parse_value fl (suc f) (b'{' ∷ (write_escaped k ++ rest))
          ≡ parse_fields fl f end (write_escaped k ++ rest)
    unfolding parse_value parse_by_head skip_ws open_with write_escaped
    parse_value-obj k = refl
