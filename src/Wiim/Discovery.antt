-- ===== src/Wiim/Discovery.antt =====
-- Discovery in `WiimModule` of service/src/wiim.rs: what one round of its loop does with the
-- datagrams that arrive in its window.
use ahara_collector.Prelude.{
  ℕ, ◌%◌, ◌^◌, not, ◌||◌, Option, none, some, List, [], ◌∷◌, Text, Bytes, length, ltb, text_eq, any,
  keep, if◌then◌else◌,
}
use ahara_collector.Prelude.Results.{Result, ok, err}
use ahara_collector.Json.Syntax.{Floats}
use ahara_collector.Config.{Ipv4Cidr, contains}
use ahara_collector.Maps.{insert_key}
use ahara_collector.Metrics.{Metrics, inc}
use ahara_collector.Ssdp.{max_datagram}
use ahara_collector.Wiim.{WiimDevice, WiimError, Inventory, values, merge_inventory, saved}
use ahara_collector.Wiim.Description.{Libraries, renderer_location, fetch_description}
use ahara_collector.Wiim.Transport.{Registry, Web}

unfoldable pub add_location : Option Text → List Text → List Text
unfolding any text_eq
add_location none found = found
add_location (some l) found = if any (text_eq l) found then found else l ∷ found

unfoldable pub count_failed : Result WiimError WiimDevice → Metrics → Metrics
unfolding inc
count_failed (ok d) m = m
count_failed (err e) m = record m { wiim_descriptions_failed = inc m.wiim_descriptions_failed }

unfoldable pub insert_found : Result WiimError WiimDevice → Inventory → Inventory
unfolding insert_key
insert_found (ok d) found = insert_key d.id d found
insert_found (err e) found = found

module _ (fl : Floats) (lib : Libraries) (web : Web) (cidr : Ipv4Cidr) where
  -- The location of a datagram from its sender, if it is a renderer's answer from within the block.
  unfoldable pub datagram_location : ℕ × Bytes → Option Text
  unfolding contains renderer_location
  datagram_location (source, payload) =
      if ltb max_datagram (length payload) || not (contains cidr source)
      then none
      else renderer_location lib cidr payload

  -- The set of the locations. In which order the program goes through its hash set is not determined:
  -- here, the last that arrived comes first.
  unfoldable pub locations : List (ℕ × Bytes) → List Text → List Text
  unfolding datagram_location add_location
  locations [] found = found
  locations (datagram ∷ datagrams) found =
      locations datagrams (add_location (datagram_location datagram) found)

  unfoldable pub fetch_all : ℕ → List Text → Inventory → Metrics → Inventory × Metrics
  unfolding fetch_description count_failed insert_found
  fetch_all now_seconds [] found m = (found, m)
  fetch_all now_seconds (l ∷ ls) found m =
      let r = fetch_description lib cidr web.get_text l now_seconds in
      fetch_all now_seconds ls (insert_found r found) (count_failed r m)

  -- `discover`, where its socket works.
  unfoldable pub discover : ℕ → List (ℕ × Bytes) → Metrics → List WiimDevice × Metrics
  unfolding locations fetch_all values
  discover now_seconds datagrams m =
      let (found, m') = fetch_all now_seconds (locations datagrams []) [] m in (values found, m')

unfoldable pub count_reachable : List WiimDevice → ℕ
unfolding keep
count_reachable devices = length (keep (λ (d : WiimDevice). d.reachable) devices)

-- The rest of the round: the thread's own list is merged with what was discovered, and takes the
-- place of the shared inventory and of its file.
unfoldable pub publish :
    Floats
    → List WiimDevice
    → List WiimDevice
    → Registry
    → Metrics
    → List WiimDevice × Registry × Metrics
unfolding merge_inventory saved count_reachable
publish fl devices discovered r m =
    let merged = merge_inventory devices discovered in
    (
      merged,
      record { inventory = merged; state_file = some (saved fl merged) },
      record m {
        wiim_devices = length merged % 2 ^ 64;
        wiim_reachable_devices = count_reachable merged % 2 ^ 64;
      },
    )

-- A discovery that fails is counted, and nothing else happens.
unfoldable pub round :
    Floats
    → Option (List WiimDevice)
    → List WiimDevice
    → Registry
    → Metrics
    → List WiimDevice × Registry × Metrics
unfolding publish inc
round fl none devices r m = (
  devices,
  r,
  record m {
    wiim_discovery_runs = inc m.wiim_discovery_runs;
    wiim_discovery_failed = inc m.wiim_discovery_failed;
  },
)
round fl (some discovered) devices r m =
    publish fl devices discovered r (record m { wiim_discovery_runs = inc m.wiim_discovery_runs })
