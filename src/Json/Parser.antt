-- ===== src/Json/Parser.antt =====
-- `parse` and its mutually recursive parts, of service/src/json.rs.
use ahara_collector.Prelude.{
  ℕ, zero, suc, ◌+◌, ◌*◌, Bool, true, false, ◌||◌, none, some, [], ◌∷◌, Text, codes, ◌==◌,
  if◌then◌else◌, length, strip_prefix,
}
use ahara_collector.Prelude.Results.{Result, ok, err, ◌>>=◌}
use ahara_collector.Json.Syntax.{
  Floats, Json, Items, Fields, null, bool, str, arr, obj, nil, item, end, insert,
}
use ahara_collector.Json.Strings.{
  Error, unexpected_end, trailing_data, invalid_literal, expected_colon, expected_comma,
  out_of_fuel, parse_string,
}
use ahara_collector.Json.Numbers.{parse_number}

-- A parser reads an `A` off the input and returns it with what is left.
abbrev pub Parser : Type 0 → Type 0
Parser A = Text → Result Error (A × Text)

unfoldable pub is_space : ℕ → Bool
is_space c = c == b' ' || (c == 9 || (c == 10 || c == 13))

unfoldable pub skip_ws : Text → Text
unfolding is_space
skip_ws [] = []
skip_ws (c ∷ s) = if is_space c then skip_ws s else c ∷ s

module _ {F : Type 0} where
  -- `items.push`
  unfoldable pub push_item : Items F → Json F → Items F
  push_item nil v = item v nil
  push_item (item w xs) v = item w (push_item xs v)

  unfoldable pub parse_literal : Text → Json F → Parser (Json F)
  unfolding strip_prefix
  parse_literal word v s = elim (strip_prefix word s) [
    | none ↦ err invalid_literal
    | some rest ↦ ok (v, rest)
  ]

  -- After `[` or `{`: the empty container, or the loop, which is the argument.
  unfoldable pub open_with : ℕ → Json F → Parser (Json F) → Text → Result Error (Json F × Text)
  open_with bracket empty loop [] = loop []
  open_with bracket empty loop (c ∷ s) = if c == bracket then ok (empty, s) else loop (c ∷ s)

  -- After an element: `,` goes on with the loop, and the bracket ends it.
  unfoldable pub close_with : ℕ → Json F → Parser (Json F) → Text → Result Error (Json F × Text)
  close_with bracket whole loop [] = err expected_comma
  close_with bracket whole loop (c ∷ s) =
      if c == b',' then loop s else if c == bracket then ok (whole, s) else err expected_comma

unfoldable pub parse_colon : Text → Result Error Text
parse_colon [] = err expected_colon
parse_colon (c ∷ s) = if c == b':' then ok s else err expected_colon

module _ (fl : Floats) where
  -- The `match` of `parse_value` on the first character; the two loops are arguments.
  unfoldable pub parse_by_head :
      Parser (Json fl.F64) → Parser (Json fl.F64) → Text → Result Error (Json fl.F64 × Text)
  parse_by_head fields items [] = err unexpected_end
  parse_by_head fields items (c ∷ s) =
      if c == b'{'
      then open_with b'}' (obj end) fields (skip_ws s)
      else if c == b'['
      then open_with b']' (arr nil) items (skip_ws s)
      else if c == b'"'
      then (do (t, rest) ← parse_string (c ∷ s); ok (str t, rest))
      else if c == b't'
      then parse_literal (codes "true") (bool true) (c ∷ s)
      else if c == b'f'
      then parse_literal (codes "false") (bool false) (c ∷ s)
      else if c == b'n'
      then parse_literal (codes "null") null (c ∷ s)
      else parse_number fl (c ∷ s)

  -- What a call leaves of the input is no structural part of it, so each call costs a unit of fuel.
  -- `parse_items` and `parse_fields` are the loops of `parse_array` and `parse_object`, with the
  -- elements read so far.
  unfoldable mutual
    pub parse_value : ℕ → Parser (Json fl.F64)
    parse_value zero s = err out_of_fuel
    parse_value (suc f) s = parse_by_head (parse_fields f end) (parse_items f nil) (skip_ws s)

    pub parse_items : ℕ → Items fl.F64 → Parser (Json fl.F64)
    parse_items zero items s = err out_of_fuel
    parse_items (suc f) items s = do
      (v, s₁) ← parse_value f s
      let items' = push_item items v
      close_with b']' (arr items') (parse_items f items') (skip_ws s₁)

    pub parse_fields : ℕ → Fields fl.F64 → Parser (Json fl.F64)
    parse_fields zero fields s = err out_of_fuel
    parse_fields (suc f) fields s = do
      (k, s₁) ← parse_string (skip_ws s)
      s₂ ← parse_colon (skip_ws s₁)
      (v, s₃) ← parse_value f s₂
      let fields' = insert k v fields
      close_with b'}' (obj fields') (parse_fields f fields') (skip_ws s₃)

  -- White space may follow the document, and nothing else.
  unfoldable pub parse_end : Json fl.F64 → Text → Result Error (Json fl.F64)
  parse_end v [] = ok v
  parse_end v (c ∷ s) = err trailing_data

  unfoldable pub parse : Text → Result Error (Json fl.F64)
  parse s = do (v, rest) ← parse_value (2 * length s + 2) s; parse_end v (skip_ws rest)
