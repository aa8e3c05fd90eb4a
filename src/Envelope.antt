-- ===== src/Envelope.antt =====
-- Reading envelopes of service/src/envelope.rs.
pub mod Laws
pub mod Ordered
use ahara_collector.Prelude.{
  ℕ, ◌+◌, ◌*◌, Bool, true, false, not, ◌&&◌, ◌||◌, Option, none, some, List, [], ◌∷◌, Text, codes,
  ltb, leb, ◌==◌, if◌then◌else◌, length, is_empty, all,
}
use ahara_collector.Prelude.Int.{ℤ}
use ahara_collector.Prelude.Results.{Result, ok, err}
use ahara_collector.Prelude.Utf8.{as_bytes}
use ahara_collector.Json.Syntax.{
  Floats, Json, null, bool, int, float, str, arr, obj, Fields, end, field, insert, get_field,
  has_fields,
}
use ahara_collector.Json.Printer.{to_string}
use ahara_collector.Json.Parser.{parse}

abbrev pub max_pushed_bytes : ℕ
max_pushed_bytes = 64 * 1024

-- The keys of an envelope.
abbrev pub key_module : Text
key_module = codes "module"

abbrev pub key_device : Text
key_device = codes "device"

abbrev pub key_timestamp : Text
key_timestamp = codes "timestampNs"

abbrev pub key_values : Text
key_values = codes "values"

unfoldable pub is_ascii_alphanumeric : ℕ → Bool
is_ascii_alphanumeric b = leb 48 b && leb b 57 || leb 65 b && leb b 90 || leb 97 b && leb b 122

-- A byte of a name's name: a letter, a digit, `-` or `_`.
unfoldable pub is_module_byte : ℕ → Bool
unfolding is_ascii_alphanumeric
is_module_byte b = is_ascii_alphanumeric b || b == 45 || b == 95

unfoldable pub valid_module : Text → Bool
unfolding is_module_byte as_bytes all
valid_module name =
    not (is_empty name) && leb (length (as_bytes name)) 32 && all is_module_byte (as_bytes name)

unfoldable pub reading : (fl : Floats) → Text → Json fl.F64 → ℤ → Json fl.F64 → Option Text
unfolding insert
reading fl name device timestamp_ns (obj values) =
    if has_fields values
    then some (
        to_string fl (
          obj (
            insert key_values (obj values) (
              insert key_timestamp (int timestamp_ns)
                (insert key_device device (insert key_module (str name) end))))))
    else none
reading fl name device timestamp_ns _ = none

module _ {F : Type 0} where
  unfoldable pub insert_text : Text → Option Text → Fields F → Fields F
  unfolding insert
  insert_text k none fs = fs
  insert_text k (some s) fs = insert k (str s) fs

  -- Tags with an empty name or value are left out; of two with the same name the later one stays.
  unfoldable pub insert_tags : List (Text × Text) → Fields F → Fields F
  unfolding insert
  insert_tags [] fs = fs
  insert_tags ((k, v) ∷ tags) fs =
      insert_tags tags (if not (is_empty k) && not (is_empty v) then insert k (str v) fs else fs)

  unfoldable pub device :
      Text → Option Text → Option Text → Option Text → List (Text × Text) → Json F
  unfolding insert insert_text insert_tags has_fields
  device ip name model device_id tags =
      let named = insert_text (codes "name") name (insert (codes "ip") (str ip) end) in
      let map =
        insert_text (codes "deviceId") device_id (insert_text (codes "model") model named) in
      let tag_map = insert_tags tags end in
      obj (if has_fields tag_map then insert (codes "tags") (obj tag_map) map else map)

  -- The module that a map declares, if its name is valid.
  unfoldable pub declared_module : Fields F → Option Text
  unfolding get_field valid_module
  declared_module map = elim (get_field key_module map) [
    | some (str name) ↦ if valid_module name then some name else none
    | _ ↦ none
  ]

  unfoldable pub has_values : Fields F → Bool
  unfolding get_field has_fields
  has_values map = elim (get_field key_values map) [
    | some (obj values) ↦ has_fields values
    | _ ↦ false
  ]

  unfoldable pub stamp : ℤ → Fields F → Option (Fields F)
  unfolding get_field insert
  stamp now_ns map = elim (get_field key_timestamp map) [
    | some (int i) ↦ some map
    | none ↦ some (insert key_timestamp (int now_ns) map)
    | some _ ↦ none
  ]

unfoldable pub normalize_map : (fl : Floats) → ℤ → Fields fl.F64 → Option (Text × Text)
unfolding declared_module has_values stamp
normalize_map fl now_ns map = elim (declared_module map) [
  | none ↦ none
  | some name ↦
      if has_values map
      then elim (stamp now_ns map) [
        | none ↦ none
        | some stamped ↦ some (name, to_string fl (obj stamped))
      ]
      else none
]

unfoldable pub normalize_pushed : (fl : Floats) → Text → ℤ → Option (Text × Text)
unfolding normalize_map as_bytes
normalize_pushed fl line now_ns =
    if ltb max_pushed_bytes (length (as_bytes line))
    then none
    else elim (parse fl line) [ ok (obj map) ↦ normalize_map fl now_ns map | _ ↦ none ]
