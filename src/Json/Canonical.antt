-- ===== src/Json/Canonical.antt =====
-- The documents that the program's `Json` can hold: an integer is an `i64`, and the keys of a map
-- are in order, each once. Insertion into such a map.
use ahara_collector.Prelude.{
  ◌≡◌, refl, ap, true, false, inl, inr, Option, none, some, [], ◌∷◌, Text, arith, text_eq,
  text_eq→eq, Bool-cases,
}
use ahara_collector.Prelude.Int.{FitsI64}
use ahara_collector.Json.Syntax.{
  Json, Items, Fields, null, bool, int, float, str, arr, obj, nil, item, end, field, text_lt,
  insert,
}

pub text_lt_irrefl : (s : Text) → text_lt s s ≡ false
unfolding text_lt
text_lt_irrefl [] = refl
text_lt_irrefl (a ∷ s) = ground (arith, text_lt_irrefl s)

pub text_lt_trans : (s t u : Text) → text_lt s t ≡ true → text_lt t u ≡ true → text_lt s u ≡ true
unfolding text_lt
text_lt_trans [] [] u h k = cc
text_lt_trans [] (b ∷ t) [] h k = cc
text_lt_trans [] (b ∷ t) (c ∷ u) h k = refl
text_lt_trans (a ∷ s) [] u h k = cc
text_lt_trans (a ∷ s) (b ∷ t) [] h k = cc
text_lt_trans (a ∷ s) (b ∷ t) (c ∷ u) h k = ground (arith, text_lt_trans s t u)

pub text_lt_asymm : (s t : Text) → text_lt s t ≡ true → text_lt t s ≡ false
text_lt_asymm s t h = elim (Bool-cases (text_lt t s)) [
  | inl k ↦ cc (text_lt_trans s t s h k, text_lt_irrefl s)
  | inr k ↦ k
]

pub text_lt-ne : (s t : Text) → text_lt s t ≡ true → text_eq t s ≡ false
text_lt-ne s t h = elim (Bool-cases (text_eq t s)) [
  | inl k ↦ cc (text_eq→eq t s k, text_lt_irrefl s)
  | inr k ↦ k
]

pub text_lt_total : (s t : Text) → text_eq s t ≡ false → text_lt s t ≡ false → text_lt t s ≡ true
unfolding text_lt text_eq
text_lt_total [] [] h k = cc
text_lt_total [] (b ∷ t) h k = cc
text_lt_total (a ∷ s) [] h k = refl
text_lt_total (a ∷ s) (b ∷ t) h k = ground (arith, text_lt_total s t)

-- `k` comes after the key before it, if there is one.
abbrev pub Follows : Option Text → Text → Type 0
Follows none k = Unit
Follows (some j) k = text_lt j k ≡ true

module _ {F : Type 0} (P : F → Type 0) where
  -- The floats in the document satisfy `P`.
  abbrev mutual
    pub Canonical : Json F → Type 0
    Canonical null = Unit
    Canonical (bool b) = Unit
    Canonical (int i) = FitsI64 i
    Canonical (float f) = P f
    Canonical (str s) = Unit
    Canonical (arr xs) = CanonicalItems xs
    Canonical (obj fs) = CanonicalFields none fs

    pub CanonicalItems : Items F → Type 0
    CanonicalItems nil = Unit
    CanonicalItems (item v xs) = Canonical v × CanonicalItems xs

    pub CanonicalFields : Option Text → Fields F → Type 0
    CanonicalFields before end = Unit
    CanonicalFields before (field k v fs) =
        Follows before k × Canonical v × CanonicalFields (some k) fs

module _ {F : Type 0} (P : F → Type 0) where
  -- An insertion keeps the order.
  pub insert-Canonical :
      (before : Option Text) (k : Text) (v : Json F) (fs : Fields F)
      → CanonicalFields P before fs
      → Follows before k
      → Canonical P v
      → CanonicalFields P before (insert k v fs)
  unfolding insert
  insert-Canonical before k v end h p q = (p, q, tt)
  insert-Canonical before k v (field j w fs) h p q = elim (Bool-cases (text_eq k j)) [
    | inl same ↦ rw same (h.0, q, h.2)
    | inr other ↦ elim (Bool-cases (text_lt k j)) [
      | inl less ↦ rw (other, less) (p, q, (less, h.1, h.2))
      | inr more ↦
          rw (other, more)
            (h.0, h.1, insert-Canonical (some j) k v fs h.2 (text_lt_total k j other more) q)
    ]
  ]

module _ {F : Type 0} where
  abbrev pub append_fields : Fields F → Fields F → Fields F
  append_fields end gs = gs
  append_fields (field k v fs) gs = field k v (append_fields fs gs)

  abbrev pub KeysBelow : Text → Fields F → Type 0
  KeysBelow k end = Unit
  KeysBelow k (field j v fs) = (text_lt j k ≡ true) × KeysBelow k fs

  -- A key after all others goes last.
  pub insert-last :
      (k : Text) (v : Json F) (fs : Fields F)
      → KeysBelow k fs
      → insert k v fs ≡ append_fields fs (field k v end)
  unfolding insert
  insert-last k v end h = refl
  insert-last k v (field j w fs) h =
      rw (text_lt-ne j k h.0, text_lt_asymm j k h.0) (ap (field j w) (insert-last k v fs h.1))

  pub append_fields_assoc :
      (fs gs hs : Fields F)
      → append_fields (append_fields fs gs) hs ≡ append_fields fs (append_fields gs hs)
  append_fields_assoc end gs hs = refl
  append_fields_assoc (field k v fs) gs hs = ap (field k v) (append_fields_assoc fs gs hs)

  pub KeysBelow-last :
      (k j : Text) (v : Json F) (fs : Fields F)
      → KeysBelow k fs
      → text_lt k j ≡ true
      → KeysBelow j (append_fields fs (field k v end))
  KeysBelow-last k j v end h p = (p, tt)
  KeysBelow-last k j v (field i w fs) h p =
      (text_lt_trans i k j h.0 p, KeysBelow-last k j v fs h.1 p)
