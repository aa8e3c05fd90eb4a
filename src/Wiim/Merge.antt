-- ===== src/Wiim/Merge.antt =====
-- `merge_inventory` of service/src/wiim.rs.
use ahara_collector.Prelude.{
  ◌≡◌, refl, ap, ◌∙◌, Bool, true, false, Option, none, some, List, [], ◌∷◌, Text, if◌then◌else◌,
  text_eq, text_eq→eq, text_eq_refl, text_eq_sym, Bool-cases, inl, inr, All, arith,
}
use ahara_collector.Prelude.Options.{or_else, map_some}
use ahara_collector.Json.Syntax.{text_lt}
use ahara_collector.Maps.{insert_key, lookup, lookup-insert_key}
use ahara_collector.Wiim.{
  WiimDevice, Inventory, unreachable, insert_devices, insert_unreachable, values, merge_inventory,
}
use ahara_collector.Wiim.Transport.{find_device}

-- Every device stands under its own identifier.
abbrev Keyed : Inventory → Type 0
Keyed m = All (λ (e : Text × WiimDevice). e.1.id ≡ e.0) m

-- What a map holds, its values hold, and the other way round.
module _ (P : WiimDevice → Type 0) where
  abbrev pub Each : Inventory → Type 0
  Each m = All (λ (e : Text × WiimDevice). P e.1) m

  pub insert_key-Each :
      (d : WiimDevice) (k : Text) (m : Inventory) → P d → Each m → Each (insert_key k d m)
  unfolding insert_key
  insert_key-Each d k [] p h = (p, tt)
  insert_key-Each d k ((j, b) ∷ m) p (q, h) = elim (Bool-cases (text_eq k j)) [
    | inl e ↦ rw e (p, h)
    | inr e ↦ elim (Bool-cases (text_lt k j)) [
      | inl f ↦ rw (e, f) (p, (q, h))
      | inr f ↦ rw (e, f) (q, insert_key-Each d k m p h)
    ]
  ]

  pub insert_devices-Each :
      (ds : List WiimDevice) (m : Inventory) → All P ds → Each m → Each (insert_devices ds m)
  unfolding insert_devices
  insert_devices-Each [] m h g = g
  insert_devices-Each (d ∷ ds) m (p, h) g =
      insert_devices-Each ds (insert_key d.id d m) h (insert_key-Each d d.id m p g)

  insert_unreachable-Each :
      (ds : List WiimDevice) (m : Inventory)
      → ((d : WiimDevice) → P d → P (unreachable d))
      → All P ds
      → Each m
      → Each (insert_unreachable ds m)
  unfolding insert_unreachable
  insert_unreachable-Each [] m u h g = g
  insert_unreachable-Each (d ∷ ds) m u (p, h) g =
      insert_unreachable-Each ds (insert_key d.id (unreachable d) m) u h
        (insert_key-Each (unreachable d) d.id m (u d p) g)

  pub values-All : (m : Inventory) → Each m → All P (values m)
  unfolding values
  values-All [] h = tt
  values-All ((k, d) ∷ m) (p, h) = (p, values-All m h)

  pub merge_inventory-All :
      (previous discovered : List WiimDevice)
      → ((d : WiimDevice) → P d → P (unreachable d))
      → All P previous
      → All P discovered
      → All P (merge_inventory previous discovered)
  unfolding merge_inventory
  merge_inventory-All previous discovered u h g =
      values-All (insert_devices discovered (insert_unreachable previous [])) (
        insert_devices-Each discovered (insert_unreachable previous []) g
          (insert_unreachable-Each previous [] u h tt))

insert_key-Keyed :
    (d : WiimDevice) (k : Text) (m : Inventory) → d.id ≡ k → Keyed m → Keyed (insert_key k d m)
unfolding insert_key
insert_key-Keyed d k [] p h = (p, tt)
insert_key-Keyed d k ((j, b) ∷ m) p (q, h) = elim (Bool-cases (text_eq k j)) [
  | inl e ↦ rw e (p ∙ text_eq→eq k j e, h)
  | inr e ↦ elim (Bool-cases (text_lt k j)) [
    | inl f ↦ rw (e, f) (p, (q, h))
    | inr f ↦ rw (e, f) (q, insert_key-Keyed d k m p h)
  ]
]

insert_devices-Keyed :
    (ds : List WiimDevice) (m : Inventory) → Keyed m → Keyed (insert_devices ds m)
unfolding insert_devices
insert_devices-Keyed [] m h = h
insert_devices-Keyed (d ∷ ds) m h =
    insert_devices-Keyed ds (insert_key d.id d m) (insert_key-Keyed d d.id m refl h)

insert_unreachable-Keyed :
    (ds : List WiimDevice) (m : Inventory) → Keyed m → Keyed (insert_unreachable ds m)
unfolding insert_unreachable unreachable
insert_unreachable-Keyed [] m h = h
insert_unreachable-Keyed (d ∷ ds) m h =
    insert_unreachable-Keyed ds (insert_key d.id (unreachable d) m)
      (insert_key-Keyed (unreachable d) d.id m refl h)

find_device-values : (id : Text) (m : Inventory) → Keyed m → find_device id (values m) ≡ lookup id m
unfolding find_device values lookup
find_device-values id [] h = refl
find_device-values id ((k, d) ∷ m) (e, h) =
    ground (arith, e, text_eq_sym d.id id, find_device-values id m h)

-- The last device of a list that has the identifier.
unfoldable pub find_last : Text → List WiimDevice → Option WiimDevice
find_last id [] = none
find_last id (d ∷ ds) = or_else (find_last id ds) (if text_eq id d.id then some d else none)

or_else_if :
    (b : Bool) (o : Option WiimDevice) (d : WiimDevice) (rest : Option WiimDevice)
    → or_else o (if b then some d else rest) ≡ or_else (or_else o (if b then some d else none)) rest
or_else_if true none d rest = refl
or_else_if false none d rest = refl
or_else_if b (some e) d rest = refl

lookup-insert_devices :
    (id : Text) (ds : List WiimDevice) (m : Inventory)
    → lookup id (insert_devices ds m) ≡ or_else (find_last id ds) (lookup id m)
unfolding insert_devices find_last
lookup-insert_devices id [] m = refl
lookup-insert_devices id (d ∷ ds) m =
    lookup-insert_devices id ds (insert_key d.id d m)
    ∙ ap (or_else (find_last id ds)) (lookup-insert_key d.id id d m)
    ∙ or_else_if (text_eq id d.id) (find_last id ds) d (lookup id m)

or_else-unreachable :
    (b : Bool) (o : Option WiimDevice) (d : WiimDevice) (rest : Option WiimDevice)
    → or_else (map_some unreachable o) (if b then some (unreachable d) else rest)
      ≡ or_else (map_some unreachable (or_else o (if b then some d else none))) rest
or_else-unreachable true none d rest = refl
or_else-unreachable false none d rest = refl
or_else-unreachable b (some e) d rest = refl

lookup-insert_unreachable :
    (id : Text) (ds : List WiimDevice) (m : Inventory)
    → lookup id (insert_unreachable ds m)
      ≡ or_else (map_some unreachable (find_last id ds)) (lookup id m)
unfolding insert_unreachable find_last
lookup-insert_unreachable id [] m = refl
lookup-insert_unreachable id (d ∷ ds) m =
    lookup-insert_unreachable id ds (insert_key d.id (unreachable d) m)
    ∙ ap (or_else (map_some unreachable (find_last id ds)))
        (lookup-insert_key d.id id (unreachable d) m)
    ∙ or_else-unreachable (text_eq id d.id) (find_last id ds) d (lookup id m)

or_else-none : (o : Option WiimDevice) → or_else o none ≡ o
or_else-none none = refl
or_else-none (some d) = refl

-- A merge has, for each identifier, the device that was discovered last with it, and else the one
-- that was known last, as unreachable; an identifier that neither list has is in no device of it.
pub merge_inventory_lem :
    (id : Text) (previous discovered : List WiimDevice)
    → find_device id (merge_inventory previous discovered)
      ≡ or_else (find_last id discovered) (map_some unreachable (find_last id previous))
unfolding merge_inventory lookup find_last
merge_inventory_lem id previous discovered =
    let known = insert_unreachable previous [] in
    find_device-values id (insert_devices discovered known)
      (insert_devices-Keyed discovered known (insert_unreachable-Keyed previous [] tt))
    ∙ lookup-insert_devices id discovered known
    ∙ ap (or_else (find_last id discovered)) (
        lookup-insert_unreachable id previous []
        ∙ or_else-none (map_some unreachable (find_last id previous)))

-- A device that is merged in alone is found under its identifier.
pub find_device-merge_inventory :
    (previous : List WiimDevice) (d : WiimDevice)
    → find_device d.id (merge_inventory previous (d ∷ [])) ≡ some d
unfolding find_last
find_device-merge_inventory previous d =
    merge_inventory_lem d.id previous (d ∷ []) ∙ rw (text_eq_refl d.id) refl
