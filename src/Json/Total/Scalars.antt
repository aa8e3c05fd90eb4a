-- ===== src/Json/Total/Scalars.antt =====
-- Strings, literals and numbers: each consumes what it reads.
use ahara_collector.Prelude.{
  ℕ, zero, suc, ◌+◌, ◌≤◌, ◌<◌, ◌≡◌, ◌≢◌, refl, ap, Bool, true, false, none, some, [], ◌∷◌, ◌++◌,
  Text, arith, length, length-append, if◌then◌else◌, ◌==◌, Bool-cases, Option-cases, inl, inr,
  strip_prefix, strip_prefix→eq, any, text_eq,
}
use ahara_collector.Prelude.Int.{ℤ, FitsI64}
use ahara_collector.Prelude.Results.{Result, ok, err, ◌>>=◌}
use ahara_collector.Json.Syntax.{Floats, Json, int}
use ahara_collector.Json.Strings.{
  Error, Step, push, close, fail, out_of_fuel, low_half, surrogate, unicode_escape, parse_escape,
  string_step, string_loop, parse_string, from_hex,
}
use ahara_collector.Json.Numbers.{
  number_span, is_mark, signed, signed_digits, parse_i64, float_or_error, number_value,
  parse_number,
}
use ahara_collector.Json.Parser.{parse_literal}
use ahara_collector.Json.Canonical.{Canonical}
use ahara_collector.Json.Total.Combinators.{Outcome, Outcome-mono}

abbrev StepOutcome : ℕ → Step → Type 0
StepOutcome n (push c rest) = length rest < n
StepOutcome n (close rest) = length rest < n
StepOutcome n (fail e) = e ≢ out_of_fuel

abbrev pub AnyText : Text → Type 0
AnyText t = Unit

StepOutcome-mono : (n m : ℕ) (st : Step) → n ≤ m → StepOutcome n st → StepOutcome m st
StepOutcome-mono n m (push c rest) h o = omega arith
StepOutcome-mono n m (close rest) h o = omega arith
StepOutcome-mono n m (fail e) h o = o

module _ (n : ℕ) where
  low_half-Outcome :
      (code : ℕ) (whole s : Text)
      → length whole < n
      → length s ≤ length whole
      → StepOutcome n (low_half code whole s)
  unfolding low_half
  low_half-Outcome code whole (a ∷ b ∷ c ∷ d ∷ s) h k = ground arith
  low_half-Outcome code whole _ h k = λ p. cc

  surrogate-Outcome : (code : ℕ) (s : Text) → length s < n → StepOutcome n (surrogate code s)
  unfolding surrogate
  surrogate-Outcome code (a ∷ b ∷ s) h =
      ground (arith, low_half-Outcome code (a ∷ b ∷ s) s h (omega arith))
  surrogate-Outcome code _ h = h

  unicode_escape-Outcome : (s : Text) → length s < n → StepOutcome n (unicode_escape s)
  unfolding unicode_escape
  unicode_escape-Outcome (a ∷ b ∷ c ∷ d ∷ s) h = elim (Option-cases (from_hex a b c d)) [
    | inl e ↦ rw (StepOutcome, e) (λ p. cc)
    | inr (code, e) ↦ rw (StepOutcome, e) (ground (arith, surrogate-Outcome code s (omega arith)))
  ]
  unicode_escape-Outcome _ h = λ p. cc

  parse_escape-Outcome : (s : Text) → length s < n → StepOutcome n (parse_escape s)
  unfolding parse_escape
  parse_escape-Outcome [] h = λ p. cc
  parse_escape-Outcome (c ∷ s) h = ground (arith, unicode_escape-Outcome s (omega arith))

string_step-Outcome : (s : Text) → StepOutcome (length s) (string_step s)
unfolding string_step
string_step-Outcome [] = λ p. cc
string_step-Outcome (c ∷ s) = ground (arith, parse_escape-Outcome (suc (length s)) s (omega arith))

string_loop-Outcome :
    (f : ℕ) (out s : Text) → length s < f → Outcome AnyText (length s) (string_loop f out s)
unfolding string_loop
string_loop-Outcome zero out s h = absurd (omega arith)
string_loop-Outcome (suc f) out s h =
    after (string_step s) refl (string_step-Outcome s)
      (λ out' rest. string_loop-Outcome f out' rest)
  where
    after :
        (st : Step)
        → string_step s ≡ st
        → StepOutcome (length s) st
        → ((out' rest : Text)
            → length rest < f
            → Outcome AnyText (length rest) (string_loop f out' rest))
        → Outcome AnyText (length s) (string_loop (suc f) out s)
    after (push c rest) e k ih =
        rw (Outcome, e)
          (Outcome-mono AnyText (length rest) (length s) _ (omega arith)
            (ih (out ++ c ∷ []) rest (omega arith)))
    after (close rest) e k ih = rw (Outcome, e) (tt, k)
    after (fail e) p k ih = rw (Outcome, p) k

pub parse_string-Outcome : (s : Text) → Outcome AnyText (length s) (parse_string s)
unfolding parse_string
parse_string-Outcome [] = λ p. cc
parse_string-Outcome (c ∷ s) = elim (Bool-cases (c == b'"')) [
  | inl e ↦
      rw (Outcome, e)
        (Outcome-mono AnyText (length s) (suc (length s)) _ (omega arith)
          (string_loop-Outcome (suc (length s)) [] s (omega arith)))
  | inr e ↦ rw (Outcome, e) (λ p. cc)
]

pub parse_literal-Outcome :
    {F : Type 0} (P : Json F → Type 0) (c : ℕ) (word s : Text) (v : Json F)
    → P v
    → Outcome P (length s) (parse_literal (c ∷ word) v s)
unfolding parse_literal
parse_literal-Outcome P c word s v p = elim (Option-cases (strip_prefix (c ∷ word) s)) [
  | inl e ↦ rw (Outcome, e) (λ q. cc)
  | inr (rest, e) ↦
      rw (Outcome, e)
        (
          p,
          omega
              (arith, ap length (strip_prefix→eq (c ∷ word) s rest e), length-append {0} word rest),
        )
]

length-number_span : (s : Text) → length (number_span s).0 + length (number_span s).1 ≡ length s
unfolding number_span
length-number_span [] = omega arith
length-number_span (c ∷ s) = ground (arith, length-number_span s)

parse_i64-FitsI64 : (s : Text) (i : ℤ) → parse_i64 s ≡ some i → FitsI64 i
unfolding parse_i64 signed_digits signed
parse_i64-FitsI64 [] i h = cc
parse_i64-FitsI64 (c ∷ []) i h = ground arith
parse_i64-FitsI64 (c ∷ d ∷ s) i h = ground arith

module _ (fl : Floats) where
  abbrev pub AnyFloat : fl.F64 → Type 0
  AnyFloat f = Unit

  abbrev NumberOutcome : Text → Result Error (Json fl.F64) → Type 0
  NumberOutcome run (ok v) = Canonical AnyFloat v × (0 < length run)
  NumberOutcome run (err e) = e ≢ out_of_fuel

  float_or_error-Outcome :
      (run text : Text) → 0 < length run → NumberOutcome run (float_or_error fl text)
  unfolding float_or_error
  float_or_error-Outcome run text h = elim (Option-cases (fl.parse text)) [
    | inl e ↦ rw (NumberOutcome, e) (λ q. cc)
    | inr (f, e) ↦ rw (NumberOutcome, e) (tt, h)
  ]

  number_text-Outcome :
      (run text : Text)
      → 0 < length run
      → NumberOutcome run (
          if any is_mark run
          then float_or_error fl text
          else elim (parse_i64 text) [ none ↦ float_or_error fl text | some i ↦ ok (int i) ])
  number_text-Outcome run text h = elim (Bool-cases (any is_mark run)) [
    | inl e ↦ rw (NumberOutcome, e) (float_or_error-Outcome run text h)
    | inr e ↦ elim (Option-cases (parse_i64 text)) [
      | inl p ↦ rw (NumberOutcome, e, p) (float_or_error-Outcome run text h)
      | inr (i, p) ↦ rw (NumberOutcome, e, p) (parse_i64-FitsI64 text i p, h)
    ]
  ]

  number_value-Outcome :
      (minus : Bool) (run : Text)
      → NumberOutcome run (number_value fl (if minus then b'-' ∷ [] else []) run)
  unfolding number_value
  number_value-Outcome true [] = λ q. cc
  number_value-Outcome false [] = λ q. cc
  number_value-Outcome true (r ∷ run) = number_text-Outcome (r ∷ run) (b'-' ∷ r ∷ run) (omega arith)
  number_value-Outcome false (r ∷ run) = elim (Bool-cases (text_eq (r ∷ run) (b'-' ∷ []))) [
    | inl e ↦ rw (NumberOutcome, e) (λ q. cc)
    | inr e ↦ rw (NumberOutcome, e) (number_text-Outcome (r ∷ run) (r ∷ run) (omega arith))
  ]

  read_number-Outcome :
      (run rest : Text) (n : ℕ) (r : Result Error (Json fl.F64))
      → NumberOutcome run r
      → length run + length rest ≤ n
      → Outcome (Canonical AnyFloat) n (r >>= λ v. ok (v, rest))
  read_number-Outcome run rest n (ok v) h k = (h.0, omega arith)
  read_number-Outcome run rest n (err e) h k = h

  pub parse_number-Outcome :
      (s : Text) → Outcome (Canonical AnyFloat) (length s) (parse_number fl s)
  unfolding parse_number
  parse_number-Outcome [] = λ q. cc
  parse_number-Outcome (c ∷ s) = elim (Bool-cases (c == b'-')) [
    | inl e ↦
        rw (Outcome, e)
          (read_number-Outcome (number_span s).0 (number_span s).1 (suc (length s)) _
            (number_value-Outcome true (number_span s).0) (omega (arith, length-number_span s)))
    | inr e ↦
        rw (Outcome, e)
          (read_number-Outcome (number_span (c ∷ s)).0 (number_span (c ∷ s)).1 (suc (length s)) _
            (number_value-Outcome false (number_span (c ∷ s)).0)
            (omega (arith, length-number_span (c ∷ s))))
  ]
