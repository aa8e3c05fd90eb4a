-- ===== src/Api/Routes.antt =====
-- The routes of service/src/api.rs: which handler a request is for, and its gate.
use ahara_collector.Prelude.{
  ℕ, Bool, ◌&&◌, ◌||◌, Option, none, some, List, [], ◌∷◌, Text, codes, if◌then◌else◌, text_eq,
  strip_prefix,
}
use ahara_collector.Prelude.Parsing.{split, parse_ipv4}
use ahara_collector.Prelude.Results.{Result, ok, err}
use ahara_collector.Json.Syntax.{Floats, arr, obj, end, insert}
use ahara_collector.Json.Printer.{to_string}
use ahara_collector.SpoolSet.{set_stats}
use ahara_collector.Maps.{lookup}
use ahara_collector.Http.{Request, Response, json_response, text_response, empty}
use ahara_collector.Metrics.{inc, render}
use ahara_collector.Wiim.{
  WiimService, av_transport, rendering_control, play_queue, WiimDevice, WiimError, device_json,
  inventory_items,
}
use ahara_collector.Wiim.Transport.{WiimProxyResponse, proxy_upnp, proxy_linkplay, probe}
use ahara_collector.Api.State.{Setup, State, Handler}
use ahara_collector.Api.Auth.{gated}
use ahara_collector.Api.Readings.{
  health, devices, readings_next, readings_ack, text_field, document,
}
use ahara_collector.Api.Ingest.{ingest}
use ahara_collector.Api.Lease.{media_server_register}

pub data Route : Type 0 where
  to_health to_metrics to_devices to_next to_ack to_ingest : Route
  to_wiim_devices to_wiim_probe to_media_server : Route
  to_upnp : Text → Text → Route
  to_linkplay : Text → Route
  not_found not_allowed : Route

abbrev pub is_get : Text → Bool
is_get m = text_eq m (codes "GET")

abbrev pub is_post : Text → Bool
is_post m = text_eq m (codes "POST")

abbrev pub is_put : Text → Bool
is_put m = text_eq m (codes "PUT")

unfoldable pub unrouted : Text → Route
unrouted m = if is_get m || is_post m || is_put m then not_found else not_allowed

unfoldable pub wiim_parts : Text → List Text → Route
wiim_parts m (id ∷ kind ∷ service ∷ []) =
    if is_post m && text_eq kind (codes "upnp") then to_upnp id service else unrouted m
wiim_parts m (id ∷ kind ∷ []) =
    if is_get m && text_eq kind (codes "linkplay") then to_linkplay id else unrouted m
wiim_parts m parts = unrouted m

unfoldable pub wiim_route : Text → Text → Option Route
wiim_route m path =
    if is_get m && text_eq path (codes "/wiim/devices")
    then some to_wiim_devices
    else if is_post m && text_eq path (codes "/wiim/probe")
    then some to_wiim_probe
    else if is_put m && text_eq path (codes "/wiim/media-server")
    then some to_media_server
    else elim (strip_prefix (codes "/wiim/") path) [
      | none ↦ none
      | some suffix ↦ some (wiim_parts m (split 47 suffix))
    ]

unfoldable pub sensor_route : Text → Text → Route
sensor_route m path =
    if is_get m && text_eq path (codes "/health")
    then to_health
    else if is_get m && text_eq path (codes "/metrics")
    then to_metrics
    else if is_get m && text_eq path (codes "/devices")
    then to_devices
    else if is_get m && text_eq path (codes "/readings/next")
    then to_next
    else if is_post m && text_eq path (codes "/readings/ack")
    then to_ack
    else if is_post m && text_eq path (codes "/ingest")
    then to_ingest
    else unrouted m

unfoldable pub route : Request → Route
route request = elim (wiim_route request.method request.path) [
  | some r ↦ r
  | none ↦ sensor_route request.method request.path
]

unfoldable pub metrics_page : Setup → Handler
metrics_page setup s = (text_response 200 (render s.metrics (set_stats s.spools) setup.host), s)

unfoldable pub answer_or_502 : Result WiimError WiimProxyResponse → Handler
answer_or_502 (ok r) s =
    (record { status = r.status; content_type = r.content_type; body = r.body }, s)
answer_or_502 (err e) s = (
  empty 502,
  record s { metrics = record s.metrics { wiim_proxy_failed = inc s.metrics.wiim_proxy_failed } },
)

unfoldable pub count_proxy : State → State
count_proxy s = record s {
  metrics = record s.metrics { wiim_proxy_requests = inc s.metrics.wiim_proxy_requests };
}

unfoldable pub service_of : Text → Option WiimService
service_of name =
    if text_eq name (codes "av-transport")
    then some av_transport
    else if text_eq name (codes "rendering-control")
    then some rendering_control
    else if text_eq name (codes "play-queue")
    then some play_queue
    else none

unfoldable pub wiim_upnp : Setup → Request → Text → Text → Handler
wiim_upnp setup request id name s = elim (service_of name) [
  | none ↦ (empty 404, s)
  | some service ↦
      answer_or_502
        (proxy_upnp setup.web setup.iot_cidr id service
          (lookup (codes "content-type") request.headers)
          (lookup (codes "soapaction") request.headers) request.body s.wiim.inventory)
        (count_proxy s)
]

unfoldable pub wiim_linkplay : Setup → Request → Text → Handler
wiim_linkplay setup request id s =
    answer_or_502 (proxy_linkplay setup.web setup.iot_cidr id request.raw_query s.wiim.inventory)
      (count_proxy s)

unfoldable pub probe_address : Floats → Request → Option ℕ
probe_address fl request = elim (document fl request) [
  | none ↦ none
  | some doc ↦ elim (text_field fl doc (codes "ip")) [ none ↦ none | some ip ↦ parse_ipv4 ip ]
]

unfoldable pub probed : Floats → Result WiimError WiimDevice → Response
probed fl (err e) = empty 502
probed fl (ok d) = json_response 200 (to_string fl (device_json d))

unfoldable pub wiim_probe : Floats → Setup → Request → Handler
wiim_probe fl setup request s = elim (probe_address fl request) [
  | none ↦ (empty 400, s)
  | some ip ↦
      let (r, wiim) =
        probe fl setup.libraries setup.web setup.iot_cidr setup.now_seconds ip s.wiim in
      (
        probed fl r,
        record s {
          wiim = wiim;
          metrics = record s.metrics { wiim_probes = inc s.metrics.wiim_probes };
        },
      )
]

unfoldable pub wiim_devices : Floats → Handler
wiim_devices fl s =
    let body = insert (codes "devices") (arr (inventory_items s.wiim.inventory)) end in
    (json_response 200 (to_string fl (obj body)), s)

unfoldable pub dispatch : Floats → Setup → Request → Route → Handler
dispatch fl setup request to_health = health fl setup
dispatch fl setup request to_metrics = gated setup.sensor_token request (metrics_page setup)
dispatch fl setup request to_devices = gated setup.sensor_token request (devices fl)
dispatch fl setup request to_next = gated setup.sensor_token request (readings_next fl request)
dispatch fl setup request to_ack = gated setup.sensor_token request (readings_ack fl request)
dispatch fl setup request to_ingest = ingest fl setup request
dispatch fl setup request to_wiim_devices = gated setup.airwave_token request (wiim_devices fl)
dispatch fl setup request to_wiim_probe =
    gated setup.airwave_token request (wiim_probe fl setup request)
dispatch fl setup request to_media_server =
    gated setup.airwave_token request (media_server_register fl setup request)
dispatch fl setup request (to_upnp id name) =
    gated setup.airwave_token request (wiim_upnp setup request id name)
dispatch fl setup request (to_linkplay id) =
    gated setup.airwave_token request (wiim_linkplay setup request id)
dispatch fl setup request not_found = λ s. (empty 404, s)
dispatch fl setup request not_allowed = λ s. (empty 405, s)

unfoldable pub handle : Floats → Setup → Request → Handler
handle fl setup request s =
    dispatch fl setup request (route request)
      (record s { metrics = record s.metrics { api_requests = inc s.metrics.api_requests } })
