-- ===== src/Maps.antt =====
-- A `BTreeMap` with text keys: a list in the order of its keys.
use ahara_collector.Prelude.{
  ◌≡◌, refl, arith, Option, none, some, List, [], ◌∷◌, Text, if◌then◌else◌, text_eq, text_eq→eq,
  text_eq_refl,
}
use ahara_collector.Json.Syntax.{text_lt}

module _ {ℓ} {A : Type ℓ} where
  unfoldable pub insert_key : Text → A → List (Text × A) → List (Text × A)
  insert_key k a [] = (k, a) ∷ []
  insert_key k a ((j, b) ∷ m) =
      let rest = insert_key k a m in
      if text_eq k j then (j, a) ∷ m else if text_lt k j then (k, a) ∷ (j, b) ∷ m else (j, b) ∷ rest

  unfoldable pub lookup : Text → List (Text × A) → Option A
  lookup k [] = none
  lookup k ((j, b) ∷ m) = if text_eq k j then some b else lookup k m

  pub lookup-insert_key :
      (k j : Text) (a : A) (m : List (Text × A))
      → lookup j (insert_key k a m) ≡ (if text_eq j k then some a else lookup j m)
  unfolding lookup insert_key
  lookup-insert_key k j a [] = refl
  lookup-insert_key k j a ((i, b) ∷ m) = ground (
    arith,
    text_eq→eq k i,
    text_eq→eq j k,
    text_eq→eq j i,
    text_eq_refl j,
    text_eq_refl k,
    lookup-insert_key k j a m,
  )
