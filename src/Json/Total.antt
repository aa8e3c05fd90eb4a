-- ===== src/Json/Total.antt =====
-- `parse` of service/src/json.rs on every input: its fuel, and what it accepts.
mod Combinators
mod Scalars
use Combinators.{
  Outcome, Outcome-mono, Outcome-bind, length-skip_ws, parse_colon-Outcome, open_with-Outcome,
  close_with-Outcome,
}
use Scalars.{AnyText, AnyFloat, parse_string-Outcome, parse_literal-Outcome, parse_number-Outcome}
use ahara_collector.Prelude.{
  ℕ, zero, suc, ◌+◌, ◌*◌, ◌≤◌, ◌<◌, ◌≡◌, ◌≢◌, refl, true, false, none, [], ◌∷◌, Text, arith, codes,
  length, if◌then◌else◌, ◌==◌, Bool-cases, inl, inr,
}
use ahara_collector.Prelude.Results.{Result, ok, err, ◌>>=◌}
use ahara_collector.Json.Syntax.{
  Floats, Json, Items, Fields, null, str, arr, obj, nil, item, end, insert,
}
use ahara_collector.Json.Strings.{Error, out_of_fuel, parse_string}
use ahara_collector.Json.Parser.{
  Parser, skip_ws, push_item, open_with, close_with, parse_colon, parse_by_head, parse_value,
  parse_items, parse_fields, parse_end, parse,
}
use ahara_collector.Json.Canonical.{Canonical, CanonicalItems, CanonicalFields, insert-Canonical}

module _ (fl : Floats) where
  abbrev Valid : Json fl.F64 → Type 0
  Valid = Canonical (AnyFloat fl)

  push_item-Canonical :
      (xs : Items fl.F64) (v : Json fl.F64)
      → CanonicalItems (AnyFloat fl) xs
      → Valid v
      → CanonicalItems (AnyFloat fl) (push_item xs v)
  unfolding push_item
  push_item-Canonical nil v h k = (k, tt)
  push_item-Canonical (item w xs) v h k = (h.0, push_item-Canonical xs v h.1 k)

  -- A parser of the loop of a container: it gets what is left behind the bracket.
  abbrev Loop : Parser (Json fl.F64) → ℕ → Type 0
  Loop loop n = (t : Text) → length t < n → Outcome Valid (length t) (loop t)

  opened-Outcome :
      (bracket : ℕ) (empty : Json fl.F64) (loop : Parser (Json fl.F64)) (s : Text)
      → Valid empty
      → Loop loop (suc (length s))
      → Outcome Valid (suc (length s)) (open_with bracket empty loop (skip_ws s))
  opened-Outcome bracket empty loop s q h =
      Outcome-mono Valid (length (skip_ws s)) (suc (length s)) _ (omega (arith, length-skip_ws s)) (
        open_with-Outcome Valid bracket empty loop (skip_ws s) q
          (h (skip_ws s) (omega (arith, length-skip_ws s))))

  parse_by_head-Outcome :
      (fields items : Parser (Json fl.F64)) (s : Text)
      → Loop fields (length s)
      → Loop items (length s)
      → Outcome Valid (length s) (parse_by_head fl fields items s)
  unfolding parse_by_head
  parse_by_head-Outcome fields items [] hf hi = λ p. cc
  parse_by_head-Outcome fields items (c ∷ s) hf hi = elim (Bool-cases (c == b'{')) [
    | inl e ↦ rw (Outcome, e) (opened-Outcome b'}' (obj end) fields s tt hf)
    | inr e₁ ↦ elim (Bool-cases (c == b'[')) [
      | inl e ↦ rw (Outcome, e₁, e) (opened-Outcome b']' (arr nil) items s tt hi)
      | inr e₂ ↦ elim (Bool-cases (c == b'"')) [
        | inl e ↦
            rw (Outcome, e₁, e₂, e)
              (Outcome-bind AnyText Valid (suc (length s)) (suc (length s)) _ _
                (parse_string-Outcome (c ∷ s)) (λ a rest p k. (tt, k)))
        | inr e₃ ↦ elim (Bool-cases (c == b't')) [
          | inl e ↦
              rw (Outcome, e₁, e₂, e₃, e)
                (parse_literal-Outcome Valid b't' (codes "rue") (c ∷ s) (Json.bool true) tt)
          | inr e₄ ↦ elim (Bool-cases (c == b'f')) [
            | inl e ↦
                rw (Outcome, e₁, e₂, e₃, e₄, e)
                  (parse_literal-Outcome Valid b'f' (codes "alse") (c ∷ s) (Json.bool false) tt)
            | inr e₅ ↦ elim (Bool-cases (c == b'n')) [
              | inl e ↦
                  rw (Outcome, e₁, e₂, e₃, e₄, e₅, e)
                    (parse_literal-Outcome Valid b'n' (codes "ull") (c ∷ s) null tt)
              | inr e₆ ↦ rw (Outcome, e₁, e₂, e₃, e₄, e₅, e₆) (parse_number-Outcome fl (c ∷ s))
            ]
          ]
        ]
      ]
    ]
  ]

  closed-Outcome :
      (bracket : ℕ) (whole : Json fl.F64) (loop : Parser (Json fl.F64)) (s : Text) (n : ℕ)
      → length s < n
      → Valid whole
      → Loop loop (length s)
      → Outcome Valid n (close_with bracket whole loop (skip_ws s))
  closed-Outcome bracket whole loop s n h q k =
      Outcome-mono Valid (length (skip_ws s)) n _ (omega (arith, length-skip_ws s)) (
        close_with-Outcome Valid bracket whole loop (skip_ws s) q
          (λ t p. k t (omega (arith, length-skip_ws s))))

  mutual
    unfolding parse_value

    parse_value-Outcome :
        (f : ℕ) (s : Text) → 2 * length s < f → Outcome Valid (length s) (parse_value fl f s)
    parse_value-Outcome zero s h = absurd (omega arith)
    parse_value-Outcome (suc f) s h =
        Outcome-mono Valid (length (skip_ws s)) (length s) _ (length-skip_ws s) (
          parse_by_head-Outcome (parse_fields fl f end) (parse_items fl f nil) (skip_ws s)
            (λ t k. parse_fields-Outcome f end t (omega (arith, length-skip_ws s)) tt)
            (λ t k. parse_items-Outcome f nil t (omega (arith, length-skip_ws s)) tt))

    parse_items-Outcome :
        (f : ℕ) (items : Items fl.F64) (s : Text)
        → suc (2 * length s) < f
        → CanonicalItems (AnyFloat fl) items
        → Outcome Valid (length s) (parse_items fl f items s)
    parse_items-Outcome zero items s h q = absurd (omega arith)
    parse_items-Outcome (suc f) items s h q =
        Outcome-bind Valid Valid (length s) (length s) (parse_value fl f s) _
          (parse_value-Outcome f s (omega arith))
          (λ v rest p k.
            let valid = push_item-Canonical items v q p in
            closed-Outcome b']' (arr (push_item items v)) _ rest (length s) k valid
              (λ t n. parse_items-Outcome f (push_item items v) t (omega arith) valid))

    parse_fields-Outcome :
        (f : ℕ) (fields : Fields fl.F64) (s : Text)
        → suc (2 * length s) < f
        → CanonicalFields (AnyFloat fl) none fields
        → Outcome Valid (length s) (parse_fields fl f fields s)
    parse_fields-Outcome zero fields s h q = absurd (omega arith)
    parse_fields-Outcome (suc f) fields s h q =
        Outcome-bind AnyText Valid (length (skip_ws s)) (length s) (parse_string (skip_ws s)) _
          (parse_string-Outcome (skip_ws s))
          (λ key rest₁ _ k₁. parse_colon-Outcome Valid (length s) (skip_ws rest₁) _ (λ rest₂ k₂.
            let shorter : length rest₂ < length s =
              omega (arith, length-skip_ws s, length-skip_ws rest₁) in
            Outcome-bind Valid Valid (length rest₂) (length s) (parse_value fl f rest₂) _
              (parse_value-Outcome f rest₂ (omega arith))
              (λ v rest₃ p k₃.
                let valid = insert-Canonical (AnyFloat fl) none key v fields q tt p in
                closed-Outcome b'}' (obj (insert key v fields)) _ rest₃ (length s) (omega arith)
                  valid
                  (λ t n. parse_fields-Outcome f (insert key v fields) t (omega arith) valid))))

  -- What `parse` ensures of its result.
  abbrev Parsed : Result Error (Json fl.F64) → Type 0
  Parsed (ok v) = Valid v
  Parsed (err e) = e ≢ out_of_fuel

  parse_end-Parsed : (v : Json fl.F64) (s : Text) → Valid v → Parsed (parse_end fl v s)
  unfolding parse_end
  parse_end-Parsed v [] h = h
  parse_end-Parsed v (c ∷ s) h = λ p. cc

  finish-Parsed :
      (r : Result Error (Json fl.F64 × Text)) (n : ℕ)
      → Outcome Valid n r
      → Parsed (r >>= λ (v, rest). parse_end fl v (skip_ws rest))
  finish-Parsed (ok (v, rest)) n h = parse_end-Parsed v (skip_ws rest) h.0
  finish-Parsed (err e) n h = h

  parse-Parsed : (s : Text) → Parsed (parse fl s)
  unfolding parse
  parse-Parsed s =
      finish-Parsed (parse_value fl (2 * length s + 2) s) (length s)
        (parse_value-Outcome (2 * length s + 2) s (omega arith))

  -- Every input has a result: the fuel of `parse` never runs out.
  pub parse-ne-out_of_fuel : (s : Text) → parse fl s ≢ err out_of_fuel
  parse-ne-out_of_fuel s e = (rw e at (parse-Parsed s)) refl

  -- Every document that is accepted has integers in the range of an `i64`, and in each of its
  -- objects the keys in increasing order, none twice.
  pub parse-Canonical :
      (s : Text) (v : Json fl.F64) → parse fl s ≡ ok v → Canonical (λ (f : fl.F64). Unit) v
  parse-Canonical s v e = rw e at (parse-Parsed s)
