-- ===== src/Envelope/Ordered.antt =====
-- The order of the keys in the device blocks of service/src/envelope.rs.
use ahara_collector.Prelude.{
  not, ◌&&◌, Option, none, some, List, [], ◌∷◌, Text, codes, is_empty, Bool-cases, inl, inr,
}
use ahara_collector.Json.Syntax.{str, Fields, end, insert, has_fields}
use ahara_collector.Json.Canonical.{Canonical, CanonicalFields, insert-Canonical}
use ahara_collector.Envelope.{insert_text, insert_tags, device}

module _ {F : Type 0} (P : F → Type 0) where
  pub insert_text-Canonical :
      (k : Text) (o : Option Text) (fs : Fields F)
      → CanonicalFields P none fs
      → CanonicalFields P none (insert_text k o fs)
  unfolding insert_text
  insert_text-Canonical k none fs h = h
  insert_text-Canonical k (some s) fs h = insert-Canonical P none k (str s) fs h tt tt

  insert_tags-Canonical :
      (tags : List (Text × Text)) (fs : Fields F)
      → CanonicalFields P none fs
      → CanonicalFields P none (insert_tags tags fs)
  unfolding insert_tags
  insert_tags-Canonical [] fs h = h
  insert_tags-Canonical ((k, v) ∷ tags) fs h =
      elim (Bool-cases (not (is_empty k) && not (is_empty v))) [
        | inl e ↦ rw e (
            insert_tags-Canonical tags (insert k (str v) fs)
              (insert-Canonical P none k (str v) fs h tt tt))
        | inr e ↦ rw e (insert_tags-Canonical tags fs h)
      ]

  pub device-Canonical :
      (ip : Text) (name model device_id : Option Text) (tags : List (Text × Text))
      → Canonical P (device ip name model device_id tags)
  unfolding device
  device-Canonical ip name model device_id tags =
      let named = insert_text (codes "name") name (insert (codes "ip") (str ip) end) in
      let map =
        insert_text (codes "deviceId") device_id (insert_text (codes "model") model named) in
      let mapped : CanonicalFields P none map = insert_text-Canonical _ device_id _ (
        insert_text-Canonical _ model _ (
          insert_text-Canonical _ name _
            (insert-Canonical P none (codes "ip") (str ip) end tt tt tt))) in
      elim (Bool-cases (has_fields {F = F} (insert_tags tags end))) [
        | inl e ↦
            rw e (insert-Canonical P none _ _ map mapped tt (insert_tags-Canonical tags end tt))
        | inr e ↦ rw e mapped
      ]
