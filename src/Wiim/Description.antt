-- ===== src/Wiim/Description.antt =====
-- Locations and description documents of service/src/wiim.rs. URLs and XML are read by libraries,
-- whose functions are parameters.
use ahara_collector.Prelude.{
  ℕ, Bool, true, false, not, ◌&&◌, ◌==◌, Option, none, some, List, [], ◌∷◌, ◌++◌, Text, Bytes,
  codes, text_eq, is_empty, strip_prefix, if◌then◌else◌,
}
use ahara_collector.Prelude.Options.{unwrap_or}
use ahara_collector.Prelude.Results.{Result, ok, err, ◌>>=◌, ok_or}
use ahara_collector.Prelude.Parsing.{parse_ipv4, trim, contains_text}
use ahara_collector.Prelude.Decimal.{decimal}
use ahara_collector.Config.{Ipv4Cidr, contains}
use ahara_collector.Net.{Url, show_ipv4}
use ahara_collector.Ssdp.{SsdpMessage, parse_message, header}
use ahara_collector.Wiim.{
  WiimError, invalid_location, not_http, no_host, bad_host, outside_cidr, no_port, bad_document,
  no_device, not_renderer, no_udn, empty_udn, bad_control_url, leaves_endpoint, no_services,
  no_answer, WiimServices, WiimDevice,
}

-- `Url::parse`, `join`, and the documents of roxmltree.
pub record Libraries : Type 1 where
  pub parse_url : Text → Option Url
  pub join : Url → Text → Option Url
  pub Node : Type 0
  pub parse_xml : Text → Option (List Node)
  pub descendants : Node → List Node
  pub children : Node → List Node
  pub is_element : Node → Bool
  pub tag_name : Node → Text
  pub node_text : Node → Option Text

abbrev pub media_renderer_urn : Text
media_renderer_urn = codes "urn:schemas-upnp-org:device:MediaRenderer:1"

unfoldable pub renderer_search : ℕ → Text
unfolding decimal
renderer_search window_seconds =
    codes "M-SEARCH * HTTP/1.1\r\nHOST: 239.255.255.250:1900\r\nMAN: \"ssdp:discover\"\r\nMX: "
    ++ decimal window_seconds
    ++ codes "\r\nST: "
    ++ media_renderer_urn
    ++ codes "\r\n\r\n"

unfoldable pub text_is : Option Text → Text → Bool
unfolding text_eq
text_is none t = false
text_is (some s) t = text_eq s t

unfoldable pub not_blank : Option Text → Bool
not_blank none = false
not_blank (some s) = not (is_empty s)

-- `==` of two optional values.
unfoldable pub same_text : Option Text → Option Text → Bool
unfolding text_eq
same_text none none = true
same_text (some s) (some t) = text_eq s t
same_text _ _ = false

unfoldable pub same_port : Option ℕ → Option ℕ → Bool
same_port none none = true
same_port (some a) (some b) = a == b
same_port _ _ = false

-- The address of a URL's host.
unfoldable pub host_ip : Url → Result WiimError ℕ
unfolding parse_ipv4
host_ip url = do host ← ok_or url.host no_host; ok_or (parse_ipv4 host) bad_host

unfoldable pub check_url : Ipv4Cidr → Url → Result WiimError Url
unfolding host_ip contains text_eq
check_url cidr url =
    if text_eq url.scheme (codes "http")
    then (host_ip url >>= λ ip.
        if contains cidr ip
        then elim url.port_or_known_default [ none ↦ err no_port | some p ↦ ok url ]
        else err outside_cidr)
    else err not_http

unfoldable pub is_renderer : SsdpMessage → Bool
unfolding header text_is not_blank text_eq
is_renderer message =
    text_eq message.start_line (codes "HTTP/1.1 200 OK")
    && text_is (header message (codes "st")) media_renderer_urn
    && not_blank (header message (codes "usn"))

unfoldable pub trimmed : Option Text → Option Text
unfolding trim
trimmed none = none
trimmed (some s) = if is_empty (trim s) then none else some (trim s)

unfoldable pub stays : Url → Url → Bool
unfolding same_text same_port text_eq
stays location resolved =
    text_eq resolved.scheme (codes "http")
    && same_text resolved.host location.host
    && same_port resolved.port_or_known_default location.port_or_known_default

unfoldable pub path_and_query : Url → Text
path_and_query url = elim url.query [ none ↦ url.path | some q ↦ url.path ++ 63 ∷ q ]

-- The kind of a service is found in its type.
unfoldable pub set_service : Text → Text → WiimServices → WiimServices
unfolding contains_text
set_service kind path s =
    if contains_text (codes "AVTransport") kind
    then record s { av_transport_path = some path }
    else if contains_text (codes "RenderingControl") kind
    then record s { rendering_control_path = some path }
    else if contains_text (codes "PlayQueue") kind
    then record s { play_queue_path = some path }
    else s

unfoldable pub is_supported : WiimServices → Bool
is_supported s = elim s.av_transport_path [
  | some p ↦ true
  | none ↦ elim s.rendering_control_path [ some p ↦ true | none ↦ false ]
]

-- `udn.strip_prefix("uuid:").unwrap_or(&udn).trim()`
unfoldable pub id_of : Text → Text
unfolding strip_prefix trim
id_of udn = trim (unwrap_or (strip_prefix (codes "uuid:") udn) udn)

unfoldable pub checked : Bool → WiimError → Result WiimError (Unit {0})
checked true e = ok tt
checked false e = err e

module _ (lib : Libraries) (cidr : Ipv4Cidr) where
  unfoldable pub validated_location : Text → Result WiimError Url
  unfolding check_url
  validated_location location = ok_or (lib.parse_url location) invalid_location >>= check_url cidr

  unfoldable pub location_of : SsdpMessage → Option Text
  unfolding header validated_location
  location_of message = elim (header message (codes "location")) [
    | none ↦ none
    | some location ↦ elim (validated_location location) [ err e ↦ none | ok url ↦ some location ]
  ]

  unfoldable pub renderer_location : Bytes → Option Text
  unfolding parse_message is_renderer location_of
  renderer_location payload = elim (parse_message payload) [
    | none ↦ none
    | some message ↦ if is_renderer message then location_of message else none
  ]

  -- The first of the nodes that is an element of that name.
  unfoldable pub find_element : Text → List lib.Node → Option lib.Node
  unfolding text_eq
  find_element name [] = none
  find_element name (n ∷ ns) =
      if lib.is_element n && text_eq (lib.tag_name n) name then some n else find_element name ns

  unfoldable pub elements : Text → List lib.Node → List lib.Node
  unfolding text_eq
  elements name [] = []
  elements name (n ∷ ns) =
      let rest = elements name ns in
      if lib.is_element n && text_eq (lib.tag_name n) name then n ∷ rest else rest

  unfoldable pub child_text : lib.Node → Text → Option Text
  unfolding find_element trimmed
  child_text n name = elim (find_element name (lib.children n)) [
    | none ↦ none
    | some c ↦ trimmed (lib.node_text c)
  ]

  unfoldable pub validated_control_path : Url → Text → Result WiimError Text
  unfolding stays path_and_query
  validated_control_path location value = elim (lib.join location value) [
    | none ↦ err bad_control_url
    | some resolved ↦
        if stays location resolved then ok (path_and_query resolved) else err leaves_endpoint
  ]

  unfoldable pub read_services : Url → List lib.Node → WiimServices → Result WiimError WiimServices
  unfolding child_text validated_control_path set_service
  read_services location [] s = ok s
  read_services location (n ∷ ns) s = elim (child_text n (codes "controlURL")) [
    | none ↦ read_services location ns s
    | some control_url ↦ elim (validated_control_path location control_url) [
      | err e ↦ err e
      | ok path ↦
          read_services location ns
            (set_service (unwrap_or (child_text n (codes "serviceType")) []) path s)
    ]
  ]

  unfoldable pub parse_description : Text → Url → ℕ → Result WiimError WiimDevice
  unfolding validated_location find_element child_text id_of checked read_services elements
      is_supported host_ip
  parse_description xml url now_seconds = do
    location ← validated_location url.text
    nodes ← ok_or (lib.parse_xml xml) bad_document
    device ← ok_or (find_element (codes "device") nodes) no_device
    _ ←
        checked
          (text_is (some (unwrap_or (child_text device (codes "deviceType")) []))
            media_renderer_urn)
          not_renderer
    udn ← ok_or (child_text device (codes "UDN")) no_udn
    _ ← checked (not (is_empty (id_of udn))) empty_udn
    services ←
        read_services location (elements (codes "service") (lib.descendants device)) (record {
          av_transport_path = none;
          rendering_control_path = none;
          play_queue_path = none;
        })
    _ ← checked (is_supported services) no_services
    ip ← host_ip location
    port ← ok_or location.port_or_known_default no_port
    ok (record {
      id = id_of udn;
      udn = udn;
      ip = ip;
      name = unwrap_or (child_text device (codes "friendlyName")) (show_ipv4 ip);
      model = child_text device (codes "modelName");
      firmware = child_text device (codes "modelNumber");
      description_port = port;
      description_path = location.path;
      services = services;
      last_seen_seconds = now_seconds;
      reachable = true;
    })

  -- `get` is the text that the location's server answers, if it answers with a success.
  unfoldable pub fetch_description : (Text → Option Text) → Text → ℕ → Result WiimError WiimDevice
  unfolding validated_location parse_description
  fetch_description get location now_seconds = do
    url ← validated_location location
    body ← ok_or (get url.text) no_answer
    parse_description body url now_seconds
