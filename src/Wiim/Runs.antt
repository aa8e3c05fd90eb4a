-- ===== src/Wiim/Runs.antt =====
-- The interleavings of probes with the rounds of the discovery thread of service/src/wiim.rs.
use ahara_collector.Prelude.{
  ℕ, ◌≡◌, refl, ap, subst, ◌∙◌, true, none, some, List, [], ◌∷◌, Text, Bytes, Bool-cases, inl, inr,
  All,
}
use ahara_collector.Prelude.Results.{Result, ok, err, Holds, holds, fails, Holds-map, err-ne-ok}
use ahara_collector.Json.Syntax.{Floats}
use ahara_collector.Config.{Ipv4Cidr, contains}
use ahara_collector.Metrics.{Metrics}
use ahara_collector.Wiim.{
  WiimDevice, WiimError, outside_cidr, Inventory, unreachable, merge_inventory,
}
use ahara_collector.Wiim.Description.{Libraries, fetch_description}
use ahara_collector.Wiim.Transport.{
  Registry, Web, find_device, description_url, probe_ports, probe_each, add_probed, probe,
}
use ahara_collector.Wiim.Discovery.{insert_found, fetch_all, locations, discover, publish, round}
use ahara_collector.Wiim.Scope.{fetch_description-Holds}
use ahara_collector.Wiim.Merge.{
  Each, insert_key-Each, values-All, merge_inventory-All, find_last, merge_inventory_lem,
  find_device-merge_inventory,
}

-- What happens: a probe of an address, and a round of the thread, with the network that it finds and
-- the clock; a round hears datagrams, or its socket fails.
pub data Event : Type 0 where
  probed : Web → ℕ → ℕ → Event
  heard : Web → ℕ → List (ℕ × Bytes) → Event
  deaf : Event

-- The thread's own list, and what it shares.
pub record Service : Type 0 where
  pub own : List WiimDevice
  pub registry : Registry
  pub metrics : Metrics

unfoldable pub after_round : List WiimDevice × Registry × Metrics → Service
after_round (own, registry, metrics) = record { own = own; registry = registry; metrics = metrics }

module _ (fl : Floats) (lib : Libraries) (cidr : Ipv4Cidr) where
  unfoldable pub step : Event → Service → Service
  unfolding after_round probe discover round
  step (probed web now ip) s = record s { registry = (probe fl lib web cidr now ip s.registry).1 }
  step (heard web now datagrams) s =
      let (found, m) = discover fl lib web cidr now datagrams s.metrics in
      after_round (round fl (some found) s.own s.registry m)
  step deaf s = after_round (round fl none s.own s.registry s.metrics)

  unfoldable pub run : List Event → Service → Service
  unfolding step
  run [] s = s
  run (e ∷ es) s = run es (step e s)

  unfoldable pub IsInside : WiimDevice → Type 0
  IsInside d = contains cidr d.ip ≡ true

  fetched-IsInside :
      (web : Web) (now : ℕ) (location : Text)
      → Holds IsInside (fetch_description lib cidr web.get_text location now)
  unfolding IsInside
  fetched-IsInside web now location =
      Holds-map _ (fetch_description-Holds lib cidr web.get_text location now) λ d p. p.inside

  insert_found-Each :
      (r : Result WiimError WiimDevice) (found : Inventory)
      → Holds IsInside r
      → Each IsInside found
      → Each IsInside (insert_found r found)
  unfolding insert_found
  insert_found-Each (ok d) found (holds p) h = insert_key-Each IsInside d d.id found p h
  insert_found-Each (err e) found fails h = h

  fetch_all-Each :
      (web : Web) (now : ℕ) (ls : List Text) (found : Inventory) (m : Metrics)
      → Each IsInside found
      → Each IsInside (fetch_all fl lib web cidr now ls found m).0
  unfolding fetch_all
  fetch_all-Each web now [] found m h = h
  fetch_all-Each web now (l ∷ ls) found m h = fetch_all-Each web now ls _ _ (
      insert_found-Each (fetch_description lib cidr web.get_text l now) found
        (fetched-IsInside web now l) h)

  discover-All :
      (web : Web) (now : ℕ) (datagrams : List (ℕ × Bytes)) (m : Metrics)
      → All IsInside (discover fl lib web cidr now datagrams m).0
  unfolding discover
  discover-All web now datagrams m =
      values-All IsInside _
        (fetch_all-Each web now (locations fl lib web cidr datagrams []) [] m tt)

  probe_each-Holds :
      (web : Web) (now ip : ℕ) (ports : List ℕ)
      → Holds IsInside (probe_each fl lib web cidr now ip ports)
  unfolding probe_each
  probe_each-Holds web now ip [] = fails
  probe_each-Holds web now ip (port ∷ ports) =
      first (fetch_description lib cidr web.get_text (description_url ip port) now)
        (fetched-IsInside web now (description_url ip port)) (probe_each-Holds web now ip ports)
    where
      first :
          (r : Result WiimError WiimDevice)
          → Holds IsInside r
          → Holds IsInside (probe_each fl lib web cidr now ip ports)
          → Holds IsInside
              (elim r [ ok d ↦ ok d | err e ↦ probe_each fl lib web cidr now ip ports ])
      first (ok d) (holds p) h = holds p
      first (err e) fails h = h

  add_probed-All :
      (r : Result WiimError WiimDevice) (s : Registry)
      → Holds IsInside r
      → All IsInside s.inventory
      → All IsInside (add_probed fl r s).1.inventory
  unfolding add_probed IsInside unreachable
  add_probed-All (ok d) s (holds p) h =
      merge_inventory-All IsInside s.inventory (d ∷ []) (λ e q. q) h (p, tt)
  add_probed-All (err e) s fails h = h

  probe-All :
      (web : Web) (now ip : ℕ) (s : Registry)
      → All IsInside s.inventory
      → All IsInside (probe fl lib web cidr now ip s).1.inventory
  unfolding probe
  probe-All web now ip s h = elim (Bool-cases (contains cidr ip)) [
    | inl c ↦ rw c (add_probed-All _ s (probe_each-Holds web now ip (probe_ports ip s.inventory)) h)
    | inr c ↦ rw c h
  ]

  -- The thread's list and the shared one.
  pub record AllInside (s : Service) : Type 0 where
    pub own : All IsInside s.own
    pub shared : All IsInside s.registry.inventory

  step-AllInside : (e : Event) (s : Service) → AllInside s → AllInside (step e s)
  unfolding step round publish after_round IsInside unreachable
  step-AllInside (probed web now ip) s h = record {
    own = h.own;
    shared = probe-All web now ip s.registry h.shared;
  }
  step-AllInside (heard web now datagrams) s h =
      let found = discover-All web now datagrams s.metrics in
      let merged = merge_inventory-All IsInside s.own _ (λ e q. q) h.own found in
      record { own = merged; shared = merged }
  step-AllInside deaf s h = record { own = h.own; shared = h.shared }

  -- However probes and rounds of the thread follow each other, and whatever the network answers, an
  -- inventory whose devices are all inside the block never gets a device outside of it.
  pub run-AllInside : (es : List Event) (s : Service) → AllInside s → AllInside (run es s)
  unfolding run
  run-AllInside [] s h = h
  run-AllInside (e ∷ es) s h = run-AllInside es (step e s) (step-AllInside e s h)

add_probed-find_device :
    (fl : Floats) (r : Result WiimError WiimDevice) (s : Registry) (d : WiimDevice)
    → (add_probed fl r s).0 ≡ ok d
    → find_device d.id (add_probed fl r s).1.inventory ≡ some d
unfolding add_probed
add_probed-find_device fl (ok f) s d e =
    let same = ap (λ (r : Result WiimError WiimDevice). elim r [ ok g ↦ g | err _ ↦ d ]) e in
    subst (λ (g : WiimDevice). find_device g.id (merge_inventory s.inventory (f ∷ [])) ≡ some g)
      same (find_device-merge_inventory s.inventory f)
add_probed-find_device fl (err x) s d e = absurd (err-ne-ok x d e)

probe-find_device :
    (fl : Floats) (lib : Libraries) (web : Web) (cidr : Ipv4Cidr) (now ip : ℕ) (d : WiimDevice)
    (s : Registry)
    → (probe fl lib web cidr now ip s).0 ≡ ok d
    → find_device d.id (probe fl lib web cidr now ip s).1.inventory ≡ some d
unfolding probe
probe-find_device fl lib web cidr now ip d s e = elim (Bool-cases (contains cidr ip)) [
  | inl c ↦
      let answer = probe_each fl lib web cidr now ip (probe_ports ip s.inventory) in
      rw (c, probe) (add_probed-find_device fl answer s d (rw (c, probe) at e))
  | inr c ↦ absurd (err-ne-ok outside_cidr d (rw (c, probe) at e))
]

-- What a probe has added, the thread's next round takes away again when the thread has not discovered
-- the device itself: after the probe the shared inventory has the device, after the round it has none
-- of that identifier.
pub probe-publish :
    (fl : Floats) (lib : Libraries) (web : Web) (cidr : Ipv4Cidr) (now ip : ℕ) (d : WiimDevice)
    (s : Service) (discovered : List WiimDevice)
    → (probe fl lib web cidr now ip s.registry).0 ≡ ok d
    → find_last d.id s.own ≡ none
    → find_last d.id discovered ≡ none
    → (find_device d.id (probe fl lib web cidr now ip s.registry).1.inventory ≡ some d)
      × (find_device d.id
            (publish fl s.own discovered
              (probe fl lib web cidr now ip s.registry).1
              s.metrics).1.inventory
          ≡ none)
unfolding publish
probe-publish fl lib web cidr now ip d s discovered e a b = (
  probe-find_device fl lib web cidr now ip d s.registry e,
  merge_inventory_lem d.id s.own discovered ∙ rw (b, a) refl,
)
