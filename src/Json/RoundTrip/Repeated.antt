-- ===== src/Json/RoundTrip/Repeated.antt =====
-- Objects with keys in any order and repeated ones, read by service/src/json.rs.
use ahara_collector.Prelude.{
  ℕ, zero, suc, ◌+◌, ◌*◌, ◌≤◌, ◌≡◌, refl, ◌∙◌, false, Option, none, some, [], ◌∷◌, ◌++◌, Text,
  arith, length, length-append, append_assoc, append-nil, text_eq, text_eq→eq, text_eq_refl,
  if◌then◌else◌,
}
use ahara_collector.Prelude.Results.{ok}
use ahara_collector.Json.Syntax.{Floats, Json, Fields, obj, end, field, insert, get_field}
use ahara_collector.Json.Printer.{write_escaped, to_string, write_fields}
use ahara_collector.Json.Parser.{parse_fields, parse_value, parse_end, parse, skip_ws}
use ahara_collector.Json.Canonical.{Canonical}
use ahara_collector.Json.NumberRoundTrip.{PrintsBack, stops}
use ahara_collector.Json.Total.{parse-Canonical}
use ahara_collector.Json.RoundTrip.{parse_value-Reads, cost_le}
use ahara_collector.Json.RoundTrip.Steps.{
  cost, cost_fields, fields_last, fields_more, parse_value-empty, parse_value-obj, Reads,
}

get_field-insert :
    {F : Type 0} (k j : Text) (v : Json F) (fs : Fields F)
    → get_field j (insert k v fs) ≡ (if text_eq j k then some v else get_field j fs)
unfolding get_field insert
get_field-insert k j v end = refl
get_field-insert k j v (field i w fs) = ground (
  arith,
  text_eq→eq k i,
  text_eq→eq j k,
  text_eq→eq j i,
  text_eq_refl j,
  text_eq_refl k,
  get_field-insert k j v fs,
)

-- The value of the last field of a key.
unfoldable pub last_value : {F : Type 0} → Text → Fields F → Option (Json F)
last_value j end = none
last_value j (field k v fs) = elim (last_value j fs) [
  | some w ↦ some w
  | none ↦ if text_eq j k then some v else none
]

insert_all : {F : Type 0} → Fields F → Fields F → Fields F
insert_all acc end = acc
insert_all acc (field k v fs) = insert_all (insert k v acc) fs

or_else : {F : Type 0} → Option (Json F) → Option (Json F) → Option (Json F)
or_else none o = o
or_else (some v) o = some v

or_else-none : {F : Type 0} (o : Option (Json F)) → or_else o none ≡ o
unfolding or_else
or_else-none none = refl
or_else-none (some v) = refl

get_field-insert_all :
    {F : Type 0} (j : Text) (acc fs : Fields F)
    → get_field j (insert_all acc fs) ≡ or_else (last_value j fs) (get_field j acc)
unfolding insert_all last_value or_else
get_field-insert_all j acc end = refl
get_field-insert_all j acc (field k v fs) =
    get_field-insert_all j (insert k v acc) fs ∙ rw (get_field-insert k j v acc) (ground arith)

module _ (fl : Floats) where
  -- Each value of the fields is read back from its print; the keys are any.
  abbrev pub Printable : Fields fl.F64 → Type 0
  Printable end = Unit
  Printable (field k v fs) = Canonical (PrintsBack fl) v × Printable fs

  parse_fields-insert_all :
      (fs : Fields fl.F64) (k : Text) (v : Json fl.F64)
      → Reads fl v
      → Printable fs
      → (acc : Fields fl.F64) (f : ℕ) (rest : Text) → suc (cost fl v + cost_fields fl fs) ≤ f
      → parse_fields fl f acc
          (write_escaped k ++ b':' ∷ (to_string fl v ++ (write_fields fl false fs ++ rest)))
        ≡ ok (obj (insert_all acc (field k v fs)), rest)
  unfolding cost to_string insert_all
  parse_fields-insert_all fs k v rv h acc zero rest n = absurd (omega arith)
  parse_fields-insert_all end k v rv h acc (suc f) rest n =
      fields_last fl v rv f (omega arith) acc k rest
  parse_fields-insert_all (field j w fs) k v rv h acc (suc f) rest n =
      rw
        (
          append_assoc (write_escaped j) (b':' ∷ (to_string fl w ++ write_fields fl false fs)) rest,
          append_assoc (to_string fl w) (write_fields fl false fs) rest,
        )
        (fields_more fl v rv f (omega arith) acc k _
          ∙ parse_fields-insert_all fs j w (parse_value-Reads fl w h.0) h.1 (insert k v acc) f rest
              (omega arith))

  obj-Reads :
      (fs : Fields fl.F64) (f : ℕ)
      → Printable fs
      → suc (cost_fields fl fs) ≤ f
      → parse_value fl f (to_string fl (obj fs) ++ []) ≡ ok (obj (insert_all end fs), [])
  unfolding cost to_string insert_all
  obj-Reads fs zero h n = absurd (omega arith)
  obj-Reads end (suc f) h n = (parse_value-empty fl f []).1
  obj-Reads (field k v fs) (suc f) h n =
      rw
        (
          append_assoc (write_escaped k) (b':' ∷ (to_string fl v ++ write_fields fl false fs)) [],
          append_assoc (to_string fl v) (write_fields fl false fs) [],
        )
        (parse_value-obj fl f _ k
          ∙ parse_fields-insert_all fs k v (parse_value-Reads fl v h.0) h.1 end f [] (omega arith))

  cost_fields-le :
      (fs : Fields fl.F64)
      → Printable fs
      → cost_fields fl fs ≤ 2 * length (write_fields fl false fs)
  unfolding cost to_string write_escaped
  cost_fields-le end h = omega arith
  cost_fields-le (field k v fs) h = omega (
    arith,
    length-append (write_escaped k) (b':' ∷ (to_string fl v ++ write_fields fl false fs)),
    length-append (to_string fl v) (write_fields fl false fs),
    cost_le fl v h.0,
    cost_fields-le fs h.1,
  )

  obj-fuel :
      (fs : Fields fl.F64)
      → Printable fs
      → suc (cost_fields fl fs) ≤ 2 * length (to_string fl (obj fs)) + 2
  unfolding cost to_string write_escaped
  obj-fuel end h = omega arith
  obj-fuel (field k v fs) h = omega (arith, cost_fields-le (field k v fs) h)

  parse-insert_all :
      (fs : Fields fl.F64)
      → Printable fs
      → parse fl (to_string fl (obj fs)) ≡ ok (obj (insert_all end fs))
  unfolding parse parse_end skip_ws stops
  parse-insert_all fs h =
      rw
        (rw append-nil at (obj-Reads fs (2 * length (to_string fl (obj fs)) + 2) h (obj-fuel fs h)))

  -- What is read of a text that writes the fields `fs`.
  pub record Collected (s : Text) (fs : Fields fl.F64) : Type 0 where
    pub fields : Fields fl.F64
    pub read : parse fl s ≡ ok (obj fields)
    pub ordered : Canonical (λ (f : fl.F64). Unit) (obj fields)
    pub found : (j : Text) → get_field j fields ≡ last_value j fs

  -- An object whose fields are written in any order, and with keys that repeat, is read as a map in the
  -- order of its keys, each once, that gives the last value that was written for a key, and nothing
  -- for a key that was not written.
  pub parse-Collected : (fs : Fields fl.F64) → Printable fs → Collected (to_string fl (obj fs)) fs
  unfolding get_field
  parse-Collected fs h = record {
    fields = insert_all end fs;
    read = parse-insert_all fs h;
    ordered = parse-Canonical fl _ _ (parse-insert_all fs h);
    found = λ j. get_field-insert_all j end fs ∙ or_else-none (last_value j fs);
  }
