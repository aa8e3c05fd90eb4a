-- ===== src/Examples/WiimWitnesses.antt =====
-- The properties of the WiiM inventory and transport at one renderer.
use ahara_collector.Metrics.{no_counts}
use ahara_collector.Prelude.{
  ◌≡◌, refl, ap, subst, true, some, none, List, [], ◌∷◌, Text, codes, arith, text_eq, map,
  if◌then◌else◌,
}
use ahara_collector.Prelude.Options.{or_else, map_some, unwrap_or}
use ahara_collector.Prelude.Results.{ok}
use ahara_collector.Config.{Ipv4Cidr, contains}
use ahara_collector.Net.{Url, show_ipv4}
use ahara_collector.Wiim.{
  WiimDevice, av_transport, unreachable, merge_inventory, saved, load_inventory,
}
use ahara_collector.Wiim.Description.{Libraries, media_renderer_urn, text_is, fetch_description}
use ahara_collector.Wiim.Transport.{RawResponse, Web, find_device, path_of, proxy_upnp, probe}
use ahara_collector.Wiim.Discovery.{publish}
use ahara_collector.Wiim.Scope.{
  Described, fetch_description-Described, upnp_url, SameAnswers, proxy_upnp-SameAnswers,
}
use ahara_collector.Wiim.Merge.{find_last, merge_inventory_lem}
use ahara_collector.Wiim.Runs.{
  Event, probed, heard, deaf, Service, run, IsInside, AllInside, run-AllInside, probe-publish,
}
use ahara_collector.Wiim.Stored.{load_inventory-saved}
use ahara_collector.Examples.Samples.{spelled}

abbrev cidr : Ipv4Cidr
cidr = record { network = 0x0a000000; mask = 0xffffff00 }

abbrev location : Text
location = codes "http://10.0.0.7:49152/description.xml"

abbrev url : Url
url = record {
  text = location;
  scheme = codes "http";
  host = some (codes "10.0.0.7");
  port_or_known_default = some 49152;
  path = codes "/description.xml";
  query = none;
  fragment = none;
  username = [];
  password = none;
}

-- An element is its name. The one device has a service.
abbrev libraries : Libraries
libraries = record {
  parse_url = λ s. some url;
  join = λ base path. some (record url { path = path });
  Node = Text;
  parse_xml = λ s. some (codes "root" ∷ codes "device" ∷ []);
  descendants = λ n. n ∷ codes "service" ∷ [];
  children = λ n.
      if text_eq n (codes "service")
      then codes "serviceType" ∷ codes "controlURL" ∷ []
      else codes "deviceType" ∷ codes "UDN" ∷ [];
  is_element = λ n. true;
  tag_name = λ n. n;
  node_text = λ n.
      if text_eq n (codes "deviceType")
      then some media_renderer_urn
      else if text_eq n (codes "UDN")
      then some (codes " uuid:w-1 ")
      else if text_eq n (codes "serviceType")
      then some (codes "urn:AVTransport:1")
      else some (codes "/control");
}

abbrev speaker : WiimDevice
speaker = record {
  id = codes "w-1";
  udn = codes "uuid:w-1";
  ip = 0x0a000007;
  name = codes "10.0.0.7";
  model = none;
  firmware = none;
  description_port = 49152;
  description_path = codes "/description.xml";
  services = record {
    av_transport_path = some (codes "/control");
    rendering_control_path = none;
    play_queue_path = none;
  };
  last_seen_seconds = 100;
  reachable = true;
}

abbrev reply : RawResponse
reply = record { declared_length = none; status = 200; content_type = none; body = codes "ok" }

-- The device alone answers, or another address, too.
abbrev web : Web
web = record {
  get_text = λ u. some (codes "<root/>");
  post = λ u content action body.
      if text_eq u (codes "http://10.0.0.7:49152/control") then some reply else none;
  get_insecure = λ u. none;
}

abbrev other_web : Web
other_web = record web { post = λ u content action body. some reply }

described : fetch_description libraries cidr web.get_text location 100 ≡ ok speaker
unfolding fetch_description text_is show_ipv4
described = refl

fetch_description-Described_example : Described cidr 100 speaker
fetch_description-Described_example =
    fetch_description-Described libraries cidr web.get_text location 100 speaker described

target : upnp_url speaker (codes "/control") ≡ codes "http://10.0.0.7:49152/control"
unfolding upnp_url show_ipv4
target = refl

answers_alike :
    SameAnswers cidr
      (codes "w-1")
      av_transport
      (speaker ∷ [])
      (λ u. web.post u none none [])
      (λ u. other_web.post u none none [])
unfolding SameAnswers find_device path_of text_eq upnp_url show_ipv4
answers_alike d path k p =
    let device : speaker ≡ d = ap (λ o. unwrap_or o speaker) k.found in
    subst
      (λ e.
        (path_of av_transport e.services ≡ some path)
        → web.post (upnp_url e path) none none [] ≡ other_web.post (upnp_url e path) none none [])
      device
      (λ q.
        subst
          (λ t.
            web.post (upnp_url speaker t) none none []
            ≡ other_web.post (upnp_url speaker t) none none [])
          (ap (λ o. unwrap_or o path) q) refl)
      p

proxy_upnp-SameAnswers_example :
    proxy_upnp web cidr (codes "w-1") av_transport none none [] (speaker ∷ [])
    ≡ proxy_upnp other_web cidr (codes "w-1") av_transport none none [] (speaker ∷ [])
proxy_upnp-SameAnswers_example =
    proxy_upnp-SameAnswers web other_web cidr (codes "w-1") av_transport none none [] (speaker ∷ [])
      answers_alike

merge_inventory_lem_example :
    find_device (codes "w-1") (merge_inventory (speaker ∷ []) [])
    ≡ or_else
        (find_last (codes "w-1") [])
        (map_some unreachable (find_last (codes "w-1") (speaker ∷ [])))
merge_inventory_lem_example = merge_inventory_lem (codes "w-1") (speaker ∷ []) []

abbrev service : Service
service = record {
  own = [];
  registry = record { inventory = speaker ∷ []; state_file = none };
  metrics = no_counts;
}

service-AllInside : AllInside spelled libraries cidr service
unfolding IsInside contains
service-AllInside = record { own = tt; shared = (refl, tt) }

abbrev events : List Event
events = probed web 100 0x0a000007 ∷ heard web 130 [] ∷ deaf ∷ []

run-AllInside_example : AllInside spelled libraries cidr (run spelled libraries cidr events service)
run-AllInside_example = run-AllInside spelled libraries cidr events service service-AllInside

abbrev empty_service : Service
empty_service = record service { registry = record { inventory = []; state_file = none } }

probed_ok : (probe spelled libraries web cidr 100 0x0a000007 empty_service.registry).0 ≡ ok speaker
unfolding probe text_is
probed_ok = refl

unknown : find_last speaker.id [] ≡ none
unfolding find_last
unknown = refl

probe-publish_example :
    (find_device speaker.id
        (probe spelled libraries web cidr 100 0x0a000007 empty_service.registry).1.inventory
      ≡ some speaker)
    × (find_device speaker.id
          (publish spelled [] []
            (probe spelled libraries web cidr 100 0x0a000007 empty_service.registry).1
            no_counts).1.inventory
        ≡ none)
probe-publish_example =
    probe-publish spelled libraries web cidr 100 0x0a000007 speaker empty_service [] probed_ok
      unknown unknown

load_inventory-saved_example :
    load_inventory spelled (some (saved spelled (speaker ∷ [])))
    ≡ ok (map unreachable (speaker ∷ []))
load_inventory-saved_example =
    load_inventory-saved spelled (speaker ∷ [])
      (record { ip = omega arith; port = omega arith; seen = omega arith }, tt)
