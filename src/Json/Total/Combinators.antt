-- ===== src/Json/Total/Combinators.antt =====
-- What a parser ensures: it does not run out of fuel, and if it reads a value then the value
-- satisfies `P` and the input that is left is shorter than `n`.
use ahara_collector.Prelude.{
  ℕ, suc, ◌≤◌, ◌<◌, ◌≢◌, [], ◌∷◌, Text, arith, length, ◌==◌, Bool-cases, inl, inr,
}
use ahara_collector.Prelude.Results.{Result, ok, err, ◌>>=◌}
use ahara_collector.Json.Strings.{Error, out_of_fuel}
use ahara_collector.Json.Syntax.{Json}
use ahara_collector.Json.Parser.{Parser, skip_ws, open_with, close_with, parse_colon}

abbrev pub Outcome : {A : Type 0} → (A → Type 0) → ℕ → Result Error (A × Text) → Type 0
Outcome P n (ok (a, rest)) = P a × (length rest < n)
Outcome P n (err e) = e ≢ out_of_fuel

pub Outcome-mono :
    {A : Type 0} (P : A → Type 0) (n m : ℕ) (r : Result Error (A × Text))
    → n ≤ m
    → Outcome P n r
    → Outcome P m r
Outcome-mono P n m (ok (a, rest)) h o = (o.0, omega arith)
Outcome-mono P n m (err e) h o = o

pub Outcome-bind :
    {A B : Type 0} (P : A → Type 0) (Q : B → Type 0) (n m : ℕ) (r : Result Error (A × Text))
    (k : A × Text → Result Error (B × Text))
    → Outcome P n r
    → ((a : A) (rest : Text) → P a → length rest < n → Outcome Q m (k (a, rest)))
    → Outcome Q m (r >>= k)
Outcome-bind P Q n m (ok (a, rest)) k o h = h a rest o.0 o.1
Outcome-bind P Q n m (err e) k o h = o

pub length-skip_ws : (s : Text) → length (skip_ws s) ≤ length s
unfolding skip_ws
length-skip_ws [] = omega arith
length-skip_ws (c ∷ s) = ground (arith, length-skip_ws s)

pub parse_colon-Outcome :
    {B : Type 0} (Q : B → Type 0) (m : ℕ) (s : Text) (k : Text → Result Error (B × Text))
    → ((rest : Text) → length rest < length s → Outcome Q m (k rest))
    → Outcome Q m (parse_colon s >>= k)
unfolding parse_colon
parse_colon-Outcome Q m [] k h = λ e. cc
parse_colon-Outcome Q m (c ∷ s) k h = elim (Bool-cases (c == b':')) [
  | inl e ↦ rw e (h s (omega arith))
  | inr e ↦ rw e (λ p. cc)
]

module _ {F : Type 0} (Q : Json F → Type 0) where
  pub open_with-Outcome :
      (bracket : ℕ) (empty : Json F) (loop : Parser (Json F)) (s : Text)
      → Q empty
      → Outcome Q (length s) (loop s)
      → Outcome Q (length s) (open_with bracket empty loop s)
  unfolding open_with
  open_with-Outcome bracket empty loop [] q o = o
  open_with-Outcome bracket empty loop (c ∷ s) q o = elim (Bool-cases (c == bracket)) [
    | inl e ↦ rw e (q, omega arith)
    | inr e ↦ rw e o
  ]

  pub close_with-Outcome :
      (bracket : ℕ) (whole : Json F) (loop : Parser (Json F)) (s : Text)
      → Q whole
      → ((t : Text) → length t < length s → Outcome Q (length t) (loop t))
      → Outcome Q (length s) (close_with bracket whole loop s)
  unfolding close_with
  close_with-Outcome bracket whole loop [] q o = λ p. cc
  close_with-Outcome bracket whole loop (c ∷ s) q o = elim (Bool-cases (c == b',')) [
    | inl e ↦
        rw e (Outcome-mono Q (length s) (suc (length s)) (loop s) (omega arith) (o s (omega arith)))
    | inr e ↦ elim (Bool-cases (c == bracket)) [
      | inl b ↦ rw (e, b) (q, omega arith)
      | inr b ↦ rw (e, b) (λ p. cc)
    ]
  ]
