-- ===== src/Wiim/Scope.antt =====
-- Which addresses the WiiM transport of service/src/wiim.rs accepts and contacts.
use ahara_collector.Prelude.{
  ℕ, ◌≡◌, refl, ap, Bool, true, false, not, Option, none, some, List, [], Text, Bytes, codes,
  is_empty, text_eq, ◌++◌, Bool-cases, Option-cases, inl, inr, arith,
}
use ahara_collector.Prelude.Results.{
  Result, ok, err, ok_or, ◌>>=◌, Holds, holds, fails, Holds→, Holds-bind, Holds-then, Holds-ok_or,
  Result-cases,
}
use ahara_collector.Prelude.Decimal.{decimal}
use ahara_collector.Prelude.Options.{unwrap_or}
use ahara_collector.Config.{Ipv4Cidr, contains}
use ahara_collector.Net.{Url, show_ipv4}
use ahara_collector.Wiim.{
  WiimError, invalid_location, bad_document, no_device, not_renderer, no_udn, empty_udn,
  no_services, no_port, no_answer, unknown_device, no_such_service, WiimService, WiimServices,
  WiimDevice,
}
use ahara_collector.Wiim.Description.{
  Libraries, media_renderer_urn, text_is, host_ip, check_url, validated_location, find_element,
  elements, child_text, read_services, is_supported, id_of, checked, parse_description,
  fetch_description,
}
use ahara_collector.Wiim.Transport.{
  Web, RawResponse, find_device, within_cidr, registered, path_of, upnp_target, collect_response,
  proxy_upnp,
}

-- A device that a description may add.
pub record Described (cidr : Ipv4Cidr) (now_seconds : ℕ) (d : WiimDevice) : Type 0 where
  pub inside : contains cidr d.ip ≡ true
  pub id : is_empty d.id ≡ false
  pub supported : is_supported d.services ≡ true
  pub seen : d.last_seen_seconds ≡ now_seconds
  pub reachable : d.reachable ≡ true

module _ (cidr : Ipv4Cidr) where
  HostInside : Url → Type 0
  HostInside url = Holds (λ ip. contains cidr ip ≡ true) (host_ip url)

  check_url-HostInside : (url : Url) → Holds HostInside (check_url cidr url)
  unfolding check_url HostInside
  check_url-HostInside url = elim (Bool-cases (text_eq url.scheme (codes "http"))) [
    | inr a ↦ rw (a, check_url) fails
    | inl a ↦ elim (Result-cases (host_ip url)) [
      | inr (e, b) ↦ rw (a, b, check_url) fails
      | inl (ip, b) ↦ elim (Bool-cases (contains cidr ip)) [
        | inr c ↦ rw (a, b, c, check_url) fails
        | inl c ↦ elim (Option-cases url.port_or_known_default) [
          | inl p ↦ rw (a, b, c, p, check_url) fails
          | inr (n, p) ↦ rw (a, b, c, p, check_url) (holds (rw b (holds c)))
        ]
      ]
    ]
  ]

not-true : (b : Bool) → not b ≡ true → b ≡ false
not-true b h = ground (arith, h)

checked-true : (b : Bool) (e : WiimError) → Holds (λ _. b ≡ true) (checked b e)
unfolding checked
checked-true true e = holds refl
checked-true false e = fails

module _ (lib : Libraries) (cidr : Ipv4Cidr) where
  validated_location-HostInside :
      (text : Text) → Holds (HostInside cidr) (validated_location lib cidr text)
  unfolding validated_location
  validated_location-HostInside text =
      Holds-then (ok_or (lib.parse_url text) invalid_location) _
        λ url. check_url-HostInside cidr url

  type_of : lib.Node → Text
  type_of device = unwrap_or (child_text lib cidr device (codes "deviceType")) []

  services_in : Url → lib.Node → Result WiimError WiimServices
  services_in location device =
      read_services lib cidr location (elements lib cidr (codes "service") (lib.descendants device))
        (record { av_transport_path = none; rendering_control_path = none; play_queue_path = none })

  parse_description-Holds :
      (xml : Text) (url : Url) (now_seconds : ℕ)
      → Holds (Described cidr now_seconds) (parse_description lib cidr xml url now_seconds)
  unfolding parse_description HostInside type_of services_in
  parse_description-Holds xml url now_seconds =
      Holds-bind (validated_location lib cidr url.text) _ (validated_location-HostInside url.text)
        λ location h. Holds-then (ok_or (lib.parse_xml xml) bad_document) _ λ nodes.
          Holds-then (ok_or (find_element lib cidr (codes "device") nodes) no_device) _ λ device.
            Holds-then (checked (text_is (some (type_of device)) media_renderer_urn) not_renderer) _
              λ _. Holds-then (ok_or (child_text lib cidr device (codes "UDN")) no_udn) _ λ udn.
                Holds-bind (checked (not (is_empty (id_of udn))) empty_udn) _ (checked-true _ _)
                  λ _ i. Holds-then (services_in location device) _ λ services.
                    Holds-bind (checked (is_supported services) no_services) _ (checked-true _ _)
                      λ _ p. Holds-bind (host_ip location) _ h λ ip c.
                        Holds-then (ok_or location.port_or_known_default no_port) _ λ port.
                          holds (record {
                            inside = c;
                            id = not-true (is_empty (id_of udn)) i;
                            supported = p;
                            seen = refl;
                            reachable = refl;
                          })

  pub fetch_description-Holds :
      (get : Text → Option Text) (location : Text) (now_seconds : ℕ)
      → Holds (Described cidr now_seconds) (fetch_description lib cidr get location now_seconds)
  unfolding fetch_description
  fetch_description-Holds get location now_seconds =
      Holds-then (validated_location lib cidr location) _ λ url.
        Holds-then (ok_or (get url.text) no_answer) _
          λ body. parse_description-Holds body url now_seconds

-- A device that a description gives is inside the block, has an identifier and one of the two
-- services that a renderer needs, and was seen now and is reachable: whatever the server answers, and
-- whatever the libraries make of it.
pub fetch_description-Described :
    (lib : Libraries) (cidr : Ipv4Cidr) (get : Text → Option Text) (location : Text)
    (now_seconds : ℕ) (d : WiimDevice)
    → fetch_description lib cidr get location now_seconds ≡ ok d
    → Described cidr now_seconds d
fetch_description-Described lib cidr get location now_seconds d e =
    Holds→ (fetch_description lib cidr get location now_seconds) d e
      (fetch_description-Holds lib cidr get location now_seconds)

-- A device of the inventory that requests may go to.
pub record Known (cidr : Ipv4Cidr) (id : Text) (inventory : List WiimDevice) (d : WiimDevice)
    : Type 0 where
  pub found : find_device id inventory ≡ some d
  pub inside : contains cidr d.ip ≡ true

registered-Known :
    (cidr : Ipv4Cidr) (id : Text) (inventory : List WiimDevice)
    → Holds (Known cidr id inventory) (registered cidr id inventory)
unfolding registered within_cidr
registered-Known cidr id inventory =
    Holds-bind (ok_or (find_device id inventory) unknown_device) _ (Holds-ok_or _ _) λ d f.
      elim (Bool-cases (contains cidr d.ip)) [
        | inl c ↦ rw c (holds (record { found = f; inside = c }))
        | inr c ↦ rw c fails
      ]

unfoldable pub upnp_url : WiimDevice → Text → Text
upnp_url d path =
    codes "http://" ++ show_ipv4 d.ip ++ codes ":" ++ decimal d.description_port ++ path

-- Two networks that answer a request alike wherever it goes to a known device's path of the service.
unfoldable pub SameAnswers :
    Ipv4Cidr
    → Text
    → WiimService
    → List WiimDevice
    → (Text → Option RawResponse)
    → (Text → Option RawResponse)
    → Type 0
unfolding upnp_url
SameAnswers cidr id service inventory f g =
    (d : WiimDevice) (path : Text)
    → Known cidr id inventory d
    → path_of service d.services ≡ some path
    → f (upnp_url d path) ≡ g (upnp_url d path)

module _ {B : Type 0} where
  -- Continuations that agree on what a result may hold.
  same_bind :
      {P : Text → Type 0} (m : Result WiimError Text) (f g : Text → Result WiimError B)
      → Holds P m
      → ((t : Text) → P t → f t ≡ g t)
      → (m >>= f) ≡ (m >>= g)
  same_bind (ok t) f g (holds p) h = h t p
  same_bind (err e) f g fails h = refl

OneOf : Ipv4Cidr → Text → WiimService → List WiimDevice → Text → Type 0
unfolding upnp_url
OneOf cidr id service inventory url =
    (d : WiimDevice) × (path : Text) × Known cidr id inventory d
    × (path_of service d.services ≡ some path)
    × (url ≡ upnp_url d path)

upnp_target-OneOf :
    (cidr : Ipv4Cidr) (id : Text) (service : WiimService) (inventory : List WiimDevice)
    → Holds (OneOf cidr id service inventory) (upnp_target cidr id service inventory)
unfolding upnp_target upnp_url OneOf
upnp_target-OneOf cidr id service inventory =
    Holds-bind (registered cidr id inventory) _ (registered-Known cidr id inventory) λ d k.
      Holds-bind (ok_or (path_of service d.services) no_such_service) _ (Holds-ok_or _ _)
        λ path p. holds (d, path, k, p, refl)

-- A control request contacts nothing but the path that a registered device inside the block has
-- learned for the service: its result is the same on every network that answers that request alike.
pub proxy_upnp-SameAnswers :
    (web web' : Web) (cidr : Ipv4Cidr) (id : Text) (service : WiimService)
    (content_type soap_action : Option Text) (body : Bytes) (inventory : List WiimDevice)
    → SameAnswers cidr id service inventory
        (λ url. web.post url content_type soap_action body)
        (λ url. web'.post url content_type soap_action body)
    → proxy_upnp web cidr id service content_type soap_action body inventory
      ≡ proxy_upnp web' cidr id service content_type soap_action body inventory
unfolding proxy_upnp SameAnswers OneOf
proxy_upnp-SameAnswers web web' cidr id service content_type soap_action body inventory same =
    same_bind (upnp_target cidr id service inventory) _ _
      (upnp_target-OneOf cidr id service inventory)
      λ url o. ap (λ answer. ok_or answer no_answer >>= collect_response) (answers url o)
  where
    answers :
        (url : Text)
        → OneOf cidr id service inventory url
        → web.post url content_type soap_action body ≡ web'.post url content_type soap_action body
    answers url (d, path, k, p, e) = rw e (same d path k p)
