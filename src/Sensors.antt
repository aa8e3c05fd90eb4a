-- ===== src/Sensors.antt =====
-- The environment sensors of service/src/sensors.rs: discovery replies, and readings from polls.
pub mod Served
pub mod Envelopes
use ahara_collector.Prelude.{
  ℕ, ◌%◌, ◌^◌, Bool, true, false, not, ◌&&◌, ◌||◌, ◌==◌, Option, none, some, List, [], ◌∷◌, ◌++◌,
  Text, Bytes, codes, length, if◌then◌else◌, is_empty, split_once, any, keep,
}
use ahara_collector.Prelude.Int.{ℤ, wrapping_sub}
use ahara_collector.Prelude.Options.{is_some}
use ahara_collector.Prelude.Results.{Result, ok, err}
use ahara_collector.Prelude.Utf8.{from_utf8}
use ahara_collector.Json.Syntax.{
  Floats, Json, str, arr, obj, Items, nil, item, Fields, end, field, get, as_str, as_f64,
}
use ahara_collector.Json.Parser.{parse}
use ahara_collector.Config.{BasicCredentials, PollerConfig}
use ahara_collector.Envelope.{device, reading}
use ahara_collector.Metrics.{Metrics, inc, inc_by}
use ahara_collector.Spool.Model.{Spool, append}
use ahara_collector.Net.{show_ipv4}
use ahara_collector.Http.Lines.{HttpError}
use ahara_collector.Http.Client.{Network, ClientResponse, request, basic_auth_header}

pub record EnvDevice : Type 0 where
  pub ip : ℕ
  pub name : Text
  pub model : Option Text
  pub device_id : Option Text
  pub tags : List (Text × Text)

abbrev pub module_env_sensors : Text
module_env_sensors = codes "envSensors"

unfoldable pub pair_tags : Option (Text × Text) → List (Text × Text)
pair_tags none = []
pair_tags (some (k, v)) = if not (is_empty k) && not (is_empty v) then (k, v) ∷ [] else []

module _ {F : Type 0} where
  -- The text at a key of a document.
  unfoldable pub text_of : Json F → Text → Option Text
  unfolding get as_str
  text_of doc key = elim (get doc key) [ none ↦ none | some v ↦ as_str v ]

  -- The fields of a map that are texts.
  unfoldable pub field_tags : Fields F → List (Text × Text)
  unfolding as_str
  field_tags end = []
  field_tags (field key value fs) = elim (as_str value) [
    | none ↦ field_tags fs
    | some v ↦ (key, v) ∷ field_tags fs
  ]

  unfoldable pub item_tags : Json F → List (Text × Text)
  unfolding split_once pair_tags field_tags
  item_tags (str s) = pair_tags (split_once 61 s)
  item_tags (obj fs) = field_tags fs
  item_tags _ = []

  unfoldable pub items_tags : Items F → List (Text × Text)
  unfolding item_tags
  items_tags nil = []
  items_tags (item v vs) = item_tags v ++ items_tags vs

  unfoldable pub parse_device_tags : Option (Json F) → List (Text × Text)
  unfolding field_tags items_tags
  parse_device_tags (some (obj fs)) = field_tags fs
  parse_device_tags (some (arr vs)) = items_tags vs
  parse_device_tags _ = []

  unfoldable pub reply_device : Json F → ℕ → Option EnvDevice
  unfolding text_of parse_device_tags get
  reply_device doc src = elim (text_of doc (codes "deviceId")) [
    | none ↦ none
    | some name ↦
        if is_empty name
        then none
        else some (record {
          ip = src;
          name = name;
          model = text_of doc (codes "model");
          device_id = some name;
          tags = parse_device_tags (get doc (codes "m5_tags"));
        })
  ]

  -- Whether one of the keys is there.
  unfoldable pub has_key : List Text → Json F → Bool
  unfolding get
  has_key [] doc = false
  has_key (key ∷ keys) doc = is_some (get doc key) || has_key keys doc

-- The document in a text, or in bytes.
unfoldable pub document_of : (fl : Floats) → Text → Option (Json fl.F64)
document_of fl text = elim (parse fl text) [ err e ↦ none | ok doc ↦ some doc ]

unfoldable pub document_in : (fl : Floats) → Bytes → Option (Json fl.F64)
unfolding from_utf8 document_of
document_in fl bytes = elim (from_utf8 bytes) [ none ↦ none | some text ↦ document_of fl text ]

unfoldable pub parse_discovery_reply : Floats → Bytes → ℕ → Option EnvDevice
unfolding document_in reply_device
parse_discovery_reply fl payload src = elim (document_in fl payload) [
  | none ↦ none
  | some doc ↦ reply_device doc src
]

-- Whether one of the keys holds a number.
unfoldable pub has_number : (fl : Floats) → List Text → Json fl.F64 → Bool
unfolding get as_f64
has_number fl [] doc = false
has_number fl (key ∷ keys) doc =
    elim (get doc key) [ none ↦ false | some v ↦ is_some (as_f64 fl v) ] || has_number fl keys doc

abbrev pub sensor_fields : List Text
sensor_fields =
    codes "temperature_c"
    ∷ codes "temperature_f"
    ∷ codes "humidity"
    ∷ codes "pressure_pa"
    ∷ codes "pressure_hpa"
    ∷ codes "timestamp_ms"
    ∷ codes "sample_age_ms"
    ∷ []

unfoldable pub is_sensor_payload : Floats → Text → Bool
unfolding document_of has_key
is_sensor_payload fl body = elim (document_of fl body) [
  | none ↦ false
  | some doc ↦ has_key (sensor_fields ++ codes "temperature" ∷ codes "pressure" ∷ []) doc
]

abbrev pub reading_keys : List Text
reading_keys =
    codes "temperature_c"
    ∷ codes "temperature"
    ∷ codes "humidity"
    ∷ codes "pressure_pa"
    ∷ codes "pressure"
    ∷ codes "pressure_hpa"
    ∷ []

unfoldable pub number_at : (fl : Floats) → Json fl.F64 → Text → Option fl.F64
unfolding get as_f64
number_at fl doc key = elim (get doc key) [ none ↦ none | some v ↦ as_f64 fl v ]

-- The sample's age before the device's clock, and the server's clock without either.
unfoldable pub timestamp_of : (fl : Floats) → Option fl.F64 → Option fl.F64 → ℤ → ℤ
unfolding wrapping_sub
timestamp_of fl (some age) _ now_ns = wrapping_sub now_ns (fl.mul_1e6 age)
timestamp_of fl none (some ts) now_ns = fl.mul_1e6 ts
timestamp_of fl none none now_ns = now_ns

unfoldable pub reading_of : (fl : Floats) → Json fl.F64 → EnvDevice → ℤ → Option Text
unfolding has_number timestamp_of number_at device reading show_ipv4
reading_of fl doc d now_ns =
    if has_number fl reading_keys doc
    then reading fl module_env_sensors
        (device (show_ipv4 d.ip) (some d.name) d.model d.device_id d.tags)
        (timestamp_of fl (number_at fl doc (codes "sample_age_ms"))
          (number_at fl doc (codes "timestamp_ms")) now_ns)
        doc
    else none

unfoldable pub build_environment_reading : Floats → Text → EnvDevice → ℤ → Option Text
unfolding document_of reading_of
build_environment_reading fl body d now_ns = elim (document_of fl body) [
  | none ↦ none
  | some doc ↦ reading_of fl doc d now_ns
]

-- The devices of the configuration, before any has answered.
unfoldable pub static_devices : List ℕ → List EnvDevice
unfolding show_ipv4
static_devices [] = []
static_devices (ip ∷ ips) =
    record { ip = ip; name = show_ipv4 ip; model = none; device_id = none; tags = [] }
    ∷ static_devices ips

unfoldable pub add_device : Option EnvDevice → List EnvDevice → List EnvDevice
unfolding any
add_device none found = found
add_device (some d) found =
    if any (λ (e : EnvDevice). e.ip == d.ip) found then found else found ++ d ∷ []

-- The loop over the datagrams that arrive before the deadline, each with its sender.
unfoldable pub collect_replies : Floats → List (Bytes × ℕ) → List EnvDevice → List EnvDevice
unfolding parse_discovery_reply add_device
collect_replies fl [] found = found
collect_replies fl ((payload, src) ∷ datagrams) found =
    collect_replies fl datagrams (add_device (parse_discovery_reply fl payload src) found)

module _ (net : Network) (port : ℕ) (creds : BasicCredentials) where
  unfoldable pub sensors_body : Result HttpError ClientResponse → Option Text
  unfolding from_utf8
  sensors_body (err e) = none
  sensors_body (ok response) = if response.status == 200 then from_utf8 response.body else none

  unfoldable pub fetch_sensors : EnvDevice → Option Text
  unfolding sensors_body request basic_auth_header
  fetch_sensors d = sensors_body (
      request net d.ip port (codes "GET") (codes "/sensors")
        (basic_auth_header creds.username creds.password ∷ []) [])

  unfoldable pub serves : Floats → EnvDevice → Bool
  unfolding fetch_sensors is_sensor_payload
  serves fl d = elim (fetch_sensors d) [ none ↦ false | some body ↦ is_sensor_payload fl body ]

  -- `discover`: what its socket receives, or nothing where it cannot be opened or sent from. Then the
  -- configured devices are the answer, without a look at what they serve.
  unfoldable pub discover : Floats → List ℕ → Option (List (Bytes × ℕ)) → List EnvDevice
  unfolding static_devices collect_replies serves keep
  discover fl ips none = static_devices ips
  discover fl ips (some datagrams) =
      keep (serves fl) (collect_replies fl datagrams (static_devices ips))

  unfoldable pub poll : Floats → ℤ → EnvDevice → Option Text
  unfolding fetch_sensors build_environment_reading
  poll fl now_ns d = elim (fetch_sensors d) [
    | none ↦ none
    | some body ↦ build_environment_reading fl body d now_ns
  ]

-- One round of polls: the lines, with the counters of what succeeded and failed.
unfoldable pub count_poll : Option Text → Metrics → Metrics
unfolding inc
count_poll none m = record m { env_polls_failed = inc m.env_polls_failed }
count_poll (some line) m = record m { env_polls_ok = inc m.env_polls_ok }

unfoldable pub poll_all : (EnvDevice → Option Text) → List EnvDevice → Metrics → List Text × Metrics
unfolding count_poll
poll_all f [] m = ([], m)
poll_all f (d ∷ ds) m =
    let (lines, m') = poll_all f ds (count_poll (f d) m) in
    (elim (f d) [ none ↦ lines | some line ↦ line ∷ lines ], m')

-- The lines of a round go to the module's spool, and count if it takes them.
unfoldable pub store_lines : List Text → Spool → Metrics → Spool × Metrics
unfolding append inc_by
store_lines [] spool m = (spool, m)
store_lines (line ∷ lines) spool m =
    let (r, spool') = append (line ∷ lines) spool in
    (
      spool',
      elim r [
        | err e ↦ m
        | ok written ↦ record m { spool_lines_written = inc_by written m.spool_lines_written }
      ],
    )

-- The body of the loop of `run` behind the discovery.
unfoldable pub round :
    (EnvDevice → Option Text) → List EnvDevice → Spool → Metrics → Spool × Metrics
unfolding poll_all store_lines
round f devices spool m = let (lines, m') = poll_all f devices m in store_lines lines spool m'

-- What the loop does with a discovery: the count, and the list that the registry shows.
unfoldable pub discovered : List EnvDevice → Metrics → Metrics
unfolding inc
discovered devices m = record m {
  env_devices = length devices % 2 ^ 64;
  env_discovery_runs = inc m.env_discovery_runs;
}
