-- ===== src/Json/Syntax.antt =====
-- The `Json` enum of service/src/json.rs and its accessors.
use ahara_collector.Prelude.{
  Bool, true, false, ◌&&◌, ◌||◌, Option, none, some, [], ◌∷◌, Text, ltb, ◌==◌, if◌then◌else◌,
  text_eq,
}
use ahara_collector.Prelude.Int.{ℤ}

-- There are no floating-point numbers here: what the program uses of `f64` is a parameter.
pub record Floats : Type 1 where
  pub F64 : Type 0
  pub parse : Text → Option F64
  pub display : F64 → Text
  pub is_finite : F64 → Bool
  pub from_int : ℤ → F64
  -- `(x * 1e6) as i64`
  pub mul_1e6 : F64 → ℤ

-- `Items` is the vector in an array; `Fields` is the map in an object, a list sorted by its keys.
mutual
  pub data Json (F : Type 0) : Type 0 where
    null : Json F
    bool : Bool → Json F
    int : ℤ → Json F
    float : F → Json F
    str : Text → Json F
    arr : Items F → Json F
    obj : Fields F → Json F

  pub data Items (F : Type 0) : Type 0 where
    nil : Items F
    item : Json F → Items F → Items F

  pub data Fields (F : Type 0) : Type 0 where
    end : Fields F
    field : Text → Json F → Fields F → Fields F

-- The order of the keys of a map: that of their scalar values, which is that of their bytes.
unfoldable pub text_lt : Text → Text → Bool
text_lt [] [] = false
text_lt [] (b ∷ t) = true
text_lt (a ∷ s) [] = false
text_lt (a ∷ s) (b ∷ t) = ltb a b || (a == b && text_lt s t)

module _ {F : Type 0} where
  -- `BTreeMap::insert`
  unfoldable pub insert : Text → Json F → Fields F → Fields F
  unfolding text_eq text_lt
  insert k v end = field k v end
  insert k v (field j w fs) =
      let rest = insert k v fs in
      if text_eq k j
      then field j v fs
      else if text_lt k j
      then field k v (field j w fs)
      else field j w rest

  -- `BTreeMap::get`
  unfoldable pub get_field : Text → Fields F → Option (Json F)
  unfolding text_eq
  get_field k end = none
  get_field k (field j w fs) = if text_eq k j then some w else get_field k fs

  unfoldable pub get : Json F → Text → Option (Json F)
  unfolding get_field
  get (obj fs) k = get_field k fs
  get _ k = none

  unfoldable pub as_str : Json F → Option Text
  as_str (str s) = some s
  as_str _ = none

  unfoldable pub as_i64 : Json F → Option ℤ
  as_i64 (int i) = some i
  as_i64 _ = none

  unfoldable pub as_bool : Json F → Option Bool
  as_bool (bool b) = some b
  as_bool _ = none

  unfoldable pub as_arr : Json F → Option (Items F)
  as_arr (arr xs) = some xs
  as_arr _ = none

  unfoldable pub as_obj : Json F → Option (Fields F)
  as_obj (obj fs) = some fs
  as_obj _ = none

  -- `map.is_empty()` negated
  unfoldable pub has_fields : Fields F → Bool
  has_fields end = false
  has_fields (field k v fs) = true

unfoldable pub as_f64 : (fl : Floats) → Json fl.F64 → Option fl.F64
as_f64 fl (int i) = some (fl.from_int i)
as_f64 fl (float f) = some f
as_f64 fl _ = none
