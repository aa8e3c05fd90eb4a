-- ===== src/Wiim/Transport.antt =====
-- `WiimTransport` of service/src/wiim.rs: what is sent to a registered device, and the probe of an
-- address. The file of the inventory is written whenever it is saved.
use ahara_collector.Prelude.{
  ℕ, Bool, false, ◌==◌, Option, none, some, List, [], ◌∷◌, ◌++◌, Text, Bytes, codes, length, ltb,
  text_eq, is_empty, if◌then◌else◌,
}
use ahara_collector.Prelude.Options.{unwrap_or}
use ahara_collector.Prelude.Results.{Result, ok, err, ◌>>=◌, ok_or}
use ahara_collector.Prelude.Decimal.{decimal}
use ahara_collector.Json.Syntax.{Floats}
use ahara_collector.Config.{Ipv4Cidr, contains}
use ahara_collector.Net.{show_ipv4}
use ahara_collector.Http.Lines.{max_body}
use ahara_collector.Wiim.{
  WiimService, av_transport, rendering_control, play_queue, WiimServices, WiimDevice, WiimError,
  outside_cidr, no_answer, too_large, unknown_device, no_such_service, no_query, merge_inventory,
  saved,
}
use ahara_collector.Wiim.Description.{Libraries, fetch_description}

-- The shared inventory, and the file that it is saved in.
pub record Registry : Type 0 where
  pub inventory : List WiimDevice
  pub state_file : Option Text

-- A response as it comes from the client, before its size is checked.
pub record RawResponse : Type 0 where
  pub declared_length : Option ℕ
  pub status : ℕ
  pub content_type : Option Text
  pub body : Bytes

pub record WiimProxyResponse : Type 0 where
  pub status : ℕ
  pub content_type : Text
  pub body : Bytes

-- The HTTP clients of reqwest: a description by its URL, a control request with its optional
-- headers, and a LinkPlay command. There is nothing where a call fails.
pub record Web : Type 0 where
  pub get_text : Text → Option Text
  pub post : Text → Option Text → Option Text → Bytes → Option RawResponse
  pub get_insecure : Text → Option RawResponse

unfoldable pub find_device : Text → List WiimDevice → Option WiimDevice
unfolding text_eq
find_device id [] = none
find_device id (d ∷ ds) = if text_eq d.id id then some d else find_device id ds

unfoldable pub within_cidr : Ipv4Cidr → WiimDevice → Result WiimError WiimDevice
unfolding contains
within_cidr cidr d = if contains cidr d.ip then ok d else err outside_cidr

-- `WiimTransport::device`
unfoldable pub registered : Ipv4Cidr → Text → List WiimDevice → Result WiimError WiimDevice
unfolding find_device within_cidr
registered cidr id inventory = ok_or (find_device id inventory) unknown_device >>= within_cidr cidr

unfoldable pub path_of : WiimService → WiimServices → Option Text
path_of av_transport s = s.av_transport_path
path_of rendering_control s = s.rendering_control_path
path_of play_queue s = s.play_queue_path

unfoldable pub declares_too_much : Option ℕ → Bool
declares_too_much none = false
declares_too_much (some n) = ltb max_body n

unfoldable pub collect_response : RawResponse → Result WiimError WiimProxyResponse
unfolding declares_too_much
collect_response r =
    if declares_too_much r.declared_length
    then err too_large
    else if ltb max_body (length r.body)
    then err too_large
    else ok (record {
      status = r.status;
      content_type = unwrap_or r.content_type (codes "application/octet-stream");
      body = r.body;
    })

-- The URL that a control request goes to.
unfoldable pub upnp_target : Ipv4Cidr → Text → WiimService → List WiimDevice → Result WiimError Text
unfolding registered path_of show_ipv4 decimal
upnp_target cidr id service inventory = do
  d ← registered cidr id inventory
  path ← ok_or (path_of service d.services) no_such_service
  ok (codes "http://" ++ show_ipv4 d.ip ++ codes ":" ++ decimal d.description_port ++ path)

unfoldable pub proxy_upnp :
    Web
    → Ipv4Cidr
    → Text
    → WiimService
    → Option Text
    → Option Text
    → Bytes
    → List WiimDevice
    → Result WiimError WiimProxyResponse
unfolding upnp_target collect_response
proxy_upnp web cidr id service content_type soap_action body inventory = do
  target ← upnp_target cidr id service inventory
  r ← ok_or (web.post target content_type soap_action body) no_answer
  collect_response r

unfoldable pub linkplay_target : Ipv4Cidr → Text → Text → List WiimDevice → Result WiimError Text
unfolding registered show_ipv4
linkplay_target cidr id raw_query inventory =
    if is_empty raw_query
    then err no_query
    else (registered cidr id inventory >>= λ d.
        ok (codes "https://" ++ show_ipv4 d.ip ++ codes ":443/httpapi.asp?" ++ raw_query))

unfoldable pub proxy_linkplay :
    Web → Ipv4Cidr → Text → Text → List WiimDevice → Result WiimError WiimProxyResponse
unfolding linkplay_target collect_response
proxy_linkplay web cidr id raw_query inventory = do
  target ← linkplay_target cidr id raw_query inventory
  r ← ok_or (web.get_insecure target) no_answer
  collect_response r

-- A port in a list in increasing order, each once: `sort_unstable` and `dedup`.
unfoldable pub insert_port : ℕ → List ℕ → List ℕ
insert_port p [] = p ∷ []
insert_port p (q ∷ qs) =
    let rest = insert_port p qs in
    if p == q then q ∷ qs else if ltb p q then p ∷ q ∷ qs else q ∷ rest

-- The ports of the address that are known, and the two usual ones.
unfoldable pub probe_ports : ℕ → List WiimDevice → List ℕ
unfolding insert_port
probe_ports ip [] = insert_port 49152 (insert_port 59152 [])
probe_ports ip (d ∷ ds) =
    let rest = probe_ports ip ds in if d.ip == ip then insert_port d.description_port rest else rest

unfoldable pub description_url : ℕ → ℕ → Text
unfolding show_ipv4 decimal
description_url ip port =
    codes "http://" ++ show_ipv4 ip ++ codes ":" ++ decimal port ++ codes "/description.xml"

-- A device that answers is merged into the inventory, and the inventory is saved.
unfoldable pub add_probed :
    Floats → Result WiimError WiimDevice → Registry → Result WiimError WiimDevice × Registry
unfolding merge_inventory saved
add_probed fl (err e) r = (err e, r)
add_probed fl (ok d) r =
    let merged = merge_inventory r.inventory (d ∷ []) in
    (ok d, record { inventory = merged; state_file = some (saved fl merged) })

module _ (fl : Floats) (lib : Libraries) (web : Web) (cidr : Ipv4Cidr) (now_seconds : ℕ) where
  unfoldable pub probe_each : ℕ → List ℕ → Result WiimError WiimDevice
  unfolding fetch_description description_url
  probe_each ip [] = err no_answer
  probe_each ip (port ∷ ports) =
      elim (fetch_description lib cidr web.get_text (description_url ip port) now_seconds) [
        | ok d ↦ ok d
        | err e ↦ probe_each ip ports
      ]

  unfoldable pub probe : ℕ → Registry → Result WiimError WiimDevice × Registry
  unfolding contains probe_ports probe_each add_probed
  probe ip r =
      if contains cidr ip
      then add_probed fl (probe_each ip (probe_ports ip r.inventory)) r
      else (err outside_cidr, r)
