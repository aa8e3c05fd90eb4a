-- ===== src/Wiim.antt =====
-- The WiiM inventory of service/src/wiim.rs: devices, their JSON and the merge of discoveries.
pub mod Description
pub mod Transport
pub mod Discovery
pub mod Scope
pub mod Merge
pub mod Runs
pub mod Stored
use ahara_collector.Prelude.{
  ℕ, ◌^◌, ◌-◌, Bool, true, false, Option, none, some, List, [], ◌∷◌, Text, codes, ltb,
  if◌then◌else◌,
}
use ahara_collector.Prelude.Int.{ℤ, pos, to_u16, to_u64}
use ahara_collector.Prelude.Options.{◌>>=◌}
use ahara_collector.Prelude.Results.{Result, ok, err}
use ahara_collector.Prelude.Parsing.{parse_ipv4}
use ahara_collector.Json.Syntax.{
  Floats, Json, bool, int, str, arr, obj, Items, nil, item, Fields, end, insert, get, as_str,
  as_i64, as_arr,
}
use ahara_collector.Json.Parser.{parse}
use ahara_collector.Json.Printer.{to_string}
use ahara_collector.Envelope.{insert_text}
use ahara_collector.Maps.{insert_key}
use ahara_collector.Net.{show_ipv4}
use ahara_collector.Sensors.{text_of}

pub data WiimService : Type 0 where
  av_transport rendering_control play_queue : WiimService

pub record WiimServices : Type 0 where
  pub av_transport_path : Option Text
  pub rendering_control_path : Option Text
  pub play_queue_path : Option Text

pub record WiimDevice : Type 0 where
  pub id : Text
  pub udn : Text
  pub ip : ℕ
  pub name : Text
  pub model : Option Text
  pub firmware : Option Text
  pub description_port : ℕ
  pub description_path : Text
  pub services : WiimServices
  pub last_seen_seconds : ℕ
  pub reachable : Bool

-- `try_into` an `i64`, or its largest value.
unfoldable pub seconds_int : ℕ → ℤ
seconds_int n = if ltb n (2 ^ 63) then pos n else pos (2 ^ 63 - 1)

module _ {F : Type 0} where
  unfoldable pub services_fields : WiimServices → Fields F
  unfolding insert_text
  services_fields s = insert_text (codes "playQueue") s.play_queue_path (
      insert_text (codes "renderingControl") s.rendering_control_path
        (insert_text (codes "avTransport") s.av_transport_path end))

  unfoldable pub named_fields : WiimDevice → Fields F
  unfolding insert show_ipv4
  named_fields d = insert (codes "name") (str d.name) (
      insert (codes "ip") (str (show_ipv4 d.ip))
        (insert (codes "udn") (str d.udn) (insert (codes "id") (str d.id) end)))

  unfoldable pub optional_fields : WiimDevice → Fields F
  unfolding insert_text named_fields
  optional_fields d =
      insert_text (codes "firmware") d.firmware
        (insert_text (codes "model") d.model (named_fields d))

  -- `WiimDevice::to_json`
  unfoldable pub device_json : WiimDevice → Json F
  unfolding optional_fields services_fields seconds_int insert
  device_json d = obj (
      insert (codes "reachable") (bool d.reachable) (
        insert (codes "lastSeenSeconds") (int (seconds_int d.last_seen_seconds)) (
          insert (codes "services") (obj (services_fields d.services)) (
            insert (codes "descriptionPath") (str d.description_path) (
              insert (codes "descriptionPort") (int (pos d.description_port))
                (optional_fields d))))))

  unfoldable pub int_of : Json F → Text → Option ℤ
  unfolding get as_i64
  int_of value key = get value key >>= as_i64

  unfoldable pub services_of : Json F → WiimServices
  unfolding text_of
  services_of value = record {
    av_transport_path = text_of value (codes "avTransport");
    rendering_control_path = text_of value (codes "renderingControl");
    play_queue_path = text_of value (codes "playQueue");
  }

  -- `WiimDevice::from_json`: a stored device is not reachable until it is seen again.
  unfoldable pub device_of : Json F → Option WiimDevice
  unfolding get text_of parse_ipv4 int_of services_of
  device_of value = do
    services ← get value (codes "services")
    ip_text ← text_of value (codes "ip")
    ip ← parse_ipv4 ip_text
    port_int ← int_of value (codes "descriptionPort")
    port ← to_u16 port_int
    id ← text_of value (codes "id")
    udn ← text_of value (codes "udn")
    name ← text_of value (codes "name")
    description_path ← text_of value (codes "descriptionPath")
    seen_int ← int_of value (codes "lastSeenSeconds")
    seen ← to_u64 seen_int
    some (record {
      id = id;
      udn = udn;
      ip = ip;
      name = name;
      model = text_of value (codes "model");
      firmware = text_of value (codes "firmware");
      description_port = port;
      description_path = description_path;
      services = services_of services;
      last_seen_seconds = seen;
      reachable = false;
    })

  unfoldable pub inventory_items : List WiimDevice → Items F
  unfolding device_json
  inventory_items [] = nil
  inventory_items (d ∷ ds) = item (device_json d) (inventory_items ds)

  unfoldable pub devices_of : Items F → Option (List WiimDevice)
  unfolding device_of
  devices_of nil = some []
  devices_of (item v vs) = do d ← device_of v; ds ← devices_of vs; some (d ∷ ds)

unfoldable pub unreachable : WiimDevice → WiimDevice
unreachable d = record d { reachable = false }

abbrev pub Inventory : Type 0
Inventory = List (Text × WiimDevice)

unfoldable pub insert_devices : List WiimDevice → Inventory → Inventory
unfolding insert_key
insert_devices [] m = m
insert_devices (d ∷ ds) m = insert_devices ds (insert_key d.id d m)

unfoldable pub insert_unreachable : List WiimDevice → Inventory → Inventory
unfolding insert_key unreachable
insert_unreachable [] m = m
insert_unreachable (d ∷ ds) m = insert_unreachable ds (insert_key d.id (unreachable d) m)

unfoldable pub values : Inventory → List WiimDevice
values [] = []
values ((k, d) ∷ m) = d ∷ values m

unfoldable pub merge_inventory : List WiimDevice → List WiimDevice → List WiimDevice
unfolding insert_devices insert_unreachable values
merge_inventory previous discovered =
    values (insert_devices discovered (insert_unreachable previous []))

-- What `save_inventory` writes, and what `load_inventory` makes of the file, if there is one.
unfoldable pub saved : Floats → List WiimDevice → Text
unfolding inventory_items
saved fl devices = to_string fl (arr (inventory_items devices))

pub data WiimError : Type 0 where
  bad_inventory invalid_location not_http no_host bad_host outside_cidr no_port : WiimError
  bad_document no_device not_renderer no_udn empty_udn bad_control_url leaves_endpoint no_services :
      WiimError
  no_answer too_large unknown_device no_such_service no_query : WiimError

unfoldable pub load_document : {F : Type 0} → Json F → Result WiimError (List WiimDevice)
unfolding devices_of as_arr
load_document doc = elim (as_arr doc >>= devices_of) [ none ↦ err bad_inventory | some ds ↦ ok ds ]

unfoldable pub load_inventory : Floats → Option Text → Result WiimError (List WiimDevice)
unfolding load_document
load_inventory fl none = ok []
load_inventory fl (some text) = elim (parse fl text) [
  | err e ↦ err bad_inventory
  | ok doc ↦ load_document doc
]
