-- ===== src/Envelope/Laws.antt =====
-- `normalize_pushed` of service/src/envelope.rs.
use ahara_collector.Prelude.{
  ◌≡◌, refl, sym, ◌∙◌, true, false, ◌⊎◌, inl, inr, Option, none, some, Text, arith, length, ltb,
  Bool-cases, Option-cases,
}
use ahara_collector.Prelude.Int.{ℤ}
use ahara_collector.Prelude.Results.{Result, ok, err}
use ahara_collector.Prelude.Utf8.{as_bytes}
use ahara_collector.Json.Syntax.{
  Floats, Json, null, bool, int, float, str, arr, obj, Fields, insert, get_field,
}
use ahara_collector.Json.Printer.{to_string}
use ahara_collector.Json.Strings.{Error}
use ahara_collector.Json.Parser.{parse}
use ahara_collector.Envelope.{
  key_module, key_timestamp, valid_module, declared_module, has_values, stamp, normalize_map,
  normalize_pushed, max_pushed_bytes,
}

module _ {F : Type 0} where
  declared_module-cases :
      (map : Fields F) (name : Text) (o : Option (Json F))
      → get_field key_module map ≡ o
      → declared_module map ≡ some name
      → (get_field key_module map ≡ some (str name)) × (valid_module name ≡ true)
  unfolding declared_module
  declared_module-cases map name none q e = absurd (ground (arith, rw (q, declared_module) at e))
  declared_module-cases map name (some null) q e =
      absurd (ground (arith, rw (q, declared_module) at e))
  declared_module-cases map name (some (bool b)) q e =
      absurd (ground (arith, rw (q, declared_module) at e))
  declared_module-cases map name (some (int i)) q e =
      absurd (ground (arith, rw (q, declared_module) at e))
  declared_module-cases map name (some (float f)) q e =
      absurd (ground (arith, rw (q, declared_module) at e))
  declared_module-cases map name (some (arr xs)) q e =
      absurd (ground (arith, rw (q, declared_module) at e))
  declared_module-cases map name (some (obj fs)) q e =
      absurd (ground (arith, rw (q, declared_module) at e))
  declared_module-cases map name (some (str t)) q e = elim (Bool-cases (valid_module t)) [
    | inr v ↦ absurd (ground (arith, v, rw (q, declared_module, v) at e))
    | inl v ↦
        let same : t ≡ name = ground (arith, rw (q, declared_module, v) at e) in
        (q ∙ rw same refl, rw (sym same) v)
  ]

  -- The map after `stamp` has an integer at `timestampNs`: the one it had, or the clock's.
  abbrev pub Stamped : ℤ → Fields F → Fields F → Type 0
  Stamped now_ns map stamped =
      ((i : ℤ) × (get_field key_timestamp map ≡ some (int i)) × (stamped ≡ map))
      ⊎ ((get_field key_timestamp map ≡ none) × (stamped ≡ insert key_timestamp (int now_ns) map))

  stamp-Stamped :
      (now_ns : ℤ) (map stamped : Fields F) (o : Option (Json F))
      → get_field key_timestamp map ≡ o
      → stamp now_ns map ≡ some stamped
      → Stamped now_ns map stamped
  unfolding stamp
  stamp-Stamped now_ns map stamped none q e = inr (q, ground (arith, rw (q, stamp) at e))
  stamp-Stamped now_ns map stamped (some (int i)) q e =
      inl (i, q, ground (arith, rw (q, stamp) at e))
  stamp-Stamped now_ns map stamped (some null) q e = absurd (ground (arith, rw (q, stamp) at e))
  stamp-Stamped now_ns map stamped (some (bool b)) q e = absurd (ground (arith, rw (q, stamp) at e))
  stamp-Stamped now_ns map stamped (some (float f)) q e =
      absurd (ground (arith, rw (q, stamp) at e))
  stamp-Stamped now_ns map stamped (some (str t)) q e = absurd (ground (arith, rw (q, stamp) at e))
  stamp-Stamped now_ns map stamped (some (arr xs)) q e = absurd (ground (arith, rw (q, stamp) at e))
  stamp-Stamped now_ns map stamped (some (obj fs)) q e = absurd (ground (arith, rw (q, stamp) at e))

-- What is accepted of a pushed line, and what becomes of it.
pub record Pushed (fl : Floats) (line : Text) (now_ns : ℤ) (name out : Text) : Type 0 where
  pub map : Fields fl.F64
  pub stamped : Fields fl.F64
  pub small : ltb max_pushed_bytes (length (as_bytes line)) ≡ false
  pub parsed : parse fl line ≡ ok (obj map)
  pub declared : get_field key_module map ≡ some (str name)
  pub valid : valid_module name ≡ true
  pub values : has_values map ≡ true
  pub timed : Stamped now_ns map stamped
  pub written : out ≡ to_string fl (obj stamped)

normalize_map-Pushed :
    (fl : Floats) (line : Text) (now_ns : ℤ) (name out : Text) (map : Fields fl.F64)
    → ltb max_pushed_bytes (length (as_bytes line)) ≡ false
    → parse fl line ≡ ok (obj map)
    → normalize_map fl now_ns map ≡ some (name, out)
    → Pushed fl line now_ns name out
unfolding normalize_map
normalize_map-Pushed fl line now_ns name out map small parsed e =
    elim (Option-cases (declared_module map)) [
      | inl d ↦ absurd (ground (arith, rw (d, normalize_map) at e))
      | inr (m, d) ↦ elim (Bool-cases (has_values map)) [
        | inr v ↦ absurd (ground (arith, rw (d, v, normalize_map) at e))
        | inl v ↦ elim (Option-cases (stamp now_ns map)) [
          | inl t ↦ absurd (ground (arith, rw (d, v, t, normalize_map) at e))
          | inr (stamped, t) ↦
              let same : Path (Option (Text × Text)) (some (m, to_string fl (obj stamped)))
                  (some (name, out)) =
                rw (d, v, t, normalize_map) at e in
              let name_same : m ≡ name = ground (arith, same) in
              record {
                map = map;
                stamped = stamped;
                small = small;
                parsed = parsed;
                declared = rw (sym name_same) (declared_module-cases map m _ refl d).0;
                valid = rw (sym name_same) (declared_module-cases map m _ refl d).1;
                values = v;
                timed = stamp-Stamped now_ns map stamped _ refl t;
                written = ground (arith, same);
              }
        ]
      ]
    ]

normalize_pushed-cases :
    (fl : Floats) (line : Text) (now_ns : ℤ) (name out : Text) (r : Result Error (Json fl.F64))
    → ltb max_pushed_bytes (length (as_bytes line)) ≡ false
    → parse fl line ≡ r
    → normalize_pushed fl line now_ns ≡ some (name, out)
    → Pushed fl line now_ns name out
unfolding normalize_pushed
normalize_pushed-cases fl line now_ns name out (err x) b q e =
    absurd (ground (arith, rw (b, q, normalize_pushed) at e))
normalize_pushed-cases fl line now_ns name out (ok (obj map)) b q e =
    normalize_map-Pushed fl line now_ns name out map b q (rw (b, q, normalize_pushed) at e)
normalize_pushed-cases fl line now_ns name out (ok null) b q e =
    absurd (ground (arith, rw (b, q, normalize_pushed) at e))
normalize_pushed-cases fl line now_ns name out (ok (bool x)) b q e =
    absurd (ground (arith, rw (b, q, normalize_pushed) at e))
normalize_pushed-cases fl line now_ns name out (ok (int i)) b q e =
    absurd (ground (arith, rw (b, q, normalize_pushed) at e))
normalize_pushed-cases fl line now_ns name out (ok (float f)) b q e =
    absurd (ground (arith, rw (b, q, normalize_pushed) at e))
normalize_pushed-cases fl line now_ns name out (ok (str t)) b q e =
    absurd (ground (arith, rw (b, q, normalize_pushed) at e))
normalize_pushed-cases fl line now_ns name out (ok (arr xs)) b q e =
    absurd (ground (arith, rw (b, q, normalize_pushed) at e))

-- A pushed line that is accepted is at most 64 KiB long and an object with a valid module name and
-- values. It goes to that module, printed as it was parsed but for a missing `timestampNs`, which
-- becomes the clock's.
pub normalize_pushed_lem :
    (fl : Floats) (line : Text) (now_ns : ℤ) (name out : Text)
    → normalize_pushed fl line now_ns ≡ some (name, out)
    → Pushed fl line now_ns name out
unfolding normalize_pushed
normalize_pushed_lem fl line now_ns name out e =
    elim (Bool-cases (ltb max_pushed_bytes (length (as_bytes line)))) [
      | inl b ↦ absurd (ground (arith, rw (b, normalize_pushed) at e))
      | inr b ↦ normalize_pushed-cases fl line now_ns name out (parse fl line) b refl e
    ]
