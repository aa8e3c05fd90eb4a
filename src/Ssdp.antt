-- ===== src/Ssdp.antt =====
-- The leases and messages of service/src/ssdp.rs.
pub mod Laws
pub mod Threads
use ahara_collector.Prelude.{
  ℕ, ◌+◌, ◌-◌, min, max, Bool, true, false, not, ◌&&◌, ◌||◌, Option, none, some, List, [], ◌∷◌,
  ◌++◌, Text, Bytes, codes, ltb, ◌==◌, if◌then◌else◌, text_eq, is_empty, length, keep, split_once,
  strip_prefix, map, any,
}
use ahara_collector.Prelude.Decimal.{decimal}
use ahara_collector.Prelude.Options.{is_some}
use ahara_collector.Prelude.Utf8.{as_bytes, from_utf8}
use ahara_collector.Prelude.Parsing.{trim, to_ascii_lowercase}
use ahara_collector.Config.{Ipv4Cidr, contains}
use ahara_collector.Metrics.{Metrics, inc}

abbrev pub max_datagram : ℕ
max_datagram = 2048

abbrev pub media_server_cache_seconds : ℕ
media_server_cache_seconds = 1800

pub record MediaServerLease : Type 0 where
  pub uuid : Text
  pub location : Text
  pub server : Text
  pub expires_at_seconds : ℕ

unfoldable pub active : MediaServerLease → ℕ → Bool
active lease now_seconds = ltb now_seconds lease.expires_at_seconds

abbrev media_server : Text
media_server = codes "urn:schemas-upnp-org:device:MediaServer:1"

abbrev content_directory : Text
content_directory = codes "urn:schemas-upnp-org:service:ContentDirectory:1"

abbrev connection_manager : Text
connection_manager = codes "urn:schemas-upnp-org:service:ConnectionManager:1"

abbrev pub media_server_targets : List Text
media_server_targets =
    codes "ssdp:all"
    ∷ codes "upnp:rootdevice"
    ∷ media_server
    ∷ content_directory
    ∷ connection_manager
    ∷ []

-- The notification types with their unique service names.
unfoldable pub nts : MediaServerLease → List (Text × Text)
nts lease =
    let udn = codes "uuid:" ++ lease.uuid in
    (codes "upnp:rootdevice", udn ++ codes "::upnp:rootdevice")
    ∷ (udn, udn)
    ∷ (media_server, udn ++ codes "::" ++ media_server)
    ∷ (content_directory, udn ++ codes "::" ++ content_directory)
    ∷ (connection_manager, udn ++ codes "::" ++ connection_manager)
    ∷ []

unfoldable pub cache_seconds : MediaServerLease → ℕ → ℕ
cache_seconds lease now_seconds =
    min (max (lease.expires_at_seconds - now_seconds) 1) media_server_cache_seconds

pub record SsdpMessage : Type 0 where
  pub start_line : Text
  pub headers : List (Text × Text)

-- `split("\r\n")`
unfoldable pub onto_line : ℕ → List Text → List Text
onto_line c [] = (c ∷ []) ∷ []
onto_line c (line ∷ lines) = (c ∷ line) ∷ lines

unfoldable pub split_lines : Text → List Text
unfolding onto_line
split_lines [] = [] ∷ []
split_lines (c ∷ []) = (c ∷ []) ∷ []
split_lines (c ∷ d ∷ s) =
    let ended = split_lines s in
    let rest = split_lines (d ∷ s) in if c == 13 && d == 10 then [] ∷ ended else onto_line c rest

-- The headers up to the first empty line; a line without a colon is passed over.
unfoldable pub read_headers : List Text → List (Text × Text)
unfolding split_once trim to_ascii_lowercase
read_headers [] = []
read_headers (line ∷ lines) =
    let rest = read_headers lines in
    if is_empty line then [] else elim (split_once 58 line) [
      | none ↦ rest
      | some (key, value) ↦ (to_ascii_lowercase (trim key), trim value) ∷ rest
    ]

unfoldable pub message_of : List Text → Option SsdpMessage
unfolding trim read_headers
message_of [] = none
message_of (line ∷ lines) =
    if is_empty (trim line)
    then none
    else some (record { start_line = trim line; headers = read_headers lines })

-- `SsdpMessage::parse`
unfoldable pub parse_message : Bytes → Option SsdpMessage
unfolding from_utf8 split_lines message_of
parse_message payload = elim (from_utf8 payload) [
  | none ↦ none
  | some text ↦ message_of (split_lines text)
]

unfoldable pub find_header : Text → List (Text × Text) → Option Text
unfolding text_eq
find_header name [] = none
find_header name ((key, value) ∷ headers) =
    if text_eq key name then some value else find_header name headers

unfoldable pub header : SsdpMessage → Text → Option Text
unfolding find_header
header message name = find_header name message.headers

-- `date` is the clock's reading as `httpdate` formats it.
unfoldable pub search_response : MediaServerLease → Text → Text → Text → ℕ → Text
unfolding cache_seconds decimal
search_response lease st usn date now_seconds =
    codes "HTTP/1.1 200 OK\r\nCACHE-CONTROL: max-age="
    ++ decimal (cache_seconds lease now_seconds)
    ++ codes "\r\nDATE: "
    ++ date
    ++ codes "\r\nEXT:\r\nLOCATION: "
    ++ lease.location
    ++ codes "\r\nSERVER: "
    ++ lease.server
    ++ codes "\r\nST: "
    ++ st
    ++ codes "\r\nUSN: "
    ++ usn
    ++ codes "\r\n\r\n"

unfoldable pub alive_message : MediaServerLease → Text × Text → ℕ → Text
unfolding cache_seconds decimal
alive_message lease (nt, usn) now_seconds =
    codes "NOTIFY * HTTP/1.1\r\nHOST: 239.255.255.250:1900\r\nCACHE-CONTROL: max-age="
    ++ decimal (cache_seconds lease now_seconds)
    ++ codes "\r\nLOCATION: "
    ++ lease.location
    ++ codes "\r\nNT: "
    ++ nt
    ++ codes "\r\nNTS: ssdp:alive\r\nSERVER: "
    ++ lease.server
    ++ codes "\r\nUSN: "
    ++ usn
    ++ codes "\r\n\r\n"

unfoldable pub alive_messages : MediaServerLease → ℕ → List Bytes
unfolding active nts alive_message as_bytes
alive_messages lease now_seconds =
    if active lease now_seconds
    then map (λ nt. as_bytes (alive_message lease nt now_seconds)) (nts lease)
    else []

unfoldable pub answered : Text → Text × Text → Bool
unfolding text_eq
answered st (nt, usn) = text_eq st (codes "ssdp:all") || text_eq st nt

unfoldable pub responses : MediaServerLease → Bytes → Text → ℕ → List Bytes
unfolding active parse_message header nts answered search_response as_bytes keep
responses lease payload date now_seconds =
    if active lease now_seconds
    then elim (parse_message payload) [
      | none ↦ []
      | some message ↦ elim (header message (codes "st")) [
        | none ↦ []
        | some st ↦
            map (λ nt. as_bytes (search_response lease nt.0 nt.1 date now_seconds))
              (keep (answered st) (nts lease))
      ]
    ]
    else []

unfoldable pub option_eq : Option Text → Text → Bool
unfolding text_eq
option_eq none t = false
option_eq (some s) t = text_eq s t

unfoldable pub is_target : Option Text → Bool
unfolding text_eq strip_prefix any
is_target none = false
is_target (some st) =
    any (text_eq st) media_server_targets || is_some (strip_prefix (codes "uuid:") st)

unfoldable pub is_media_server_search : Bytes → Bool
unfolding parse_message header option_eq is_target text_eq
is_media_server_search payload = elim (parse_message payload) [
  | none ↦ false
  | some message ↦
      text_eq message.start_line (codes "M-SEARCH * HTTP/1.1")
      && option_eq (header message (codes "man")) (codes "\"ssdp:discover\"")
      && is_target (header message (codes "st"))
]

pub record Responder : Type 0 where
  pub home_cidr : Ipv4Cidr
  pub bind_address : ℕ

-- The address and port of a sender; of an IPv6 address nothing is used.
pub data SocketAddr : Type 0 where
  v4 : ℕ → ℕ → SocketAddr
  v6 : SocketAddr

unfoldable pub replies_of : Option MediaServerLease → Bytes → Text → ℕ → List Bytes
unfolding responses
replies_of none payload date now_seconds = []
replies_of (some lease) payload date now_seconds = responses lease payload date now_seconds

unfoldable pub dropped : Metrics → Metrics
unfolding inc
dropped m = record m { wiim_media_dropped = inc m.wiim_media_dropped }

unfoldable pub searched : List Bytes → Metrics → Metrics
unfolding inc
searched replies m = record m {
  wiim_media_searches = inc m.wiim_media_searches;
  wiim_media_replies = if is_empty replies then m.wiim_media_replies else inc m.wiim_media_replies;
}

-- `Responder::process`: the replies, each to the sender, and the counters.
unfoldable pub process :
    Responder
    → Option MediaServerLease
    → SocketAddr
    → Bytes
    → Text
    → ℕ
    → Metrics
    → List (SocketAddr × Bytes) × Metrics
unfolding contains is_media_server_search replies_of dropped searched
process r lease v6 payload date now_seconds m = ([], dropped m)
process r lease (v4 ip port) payload date now_seconds m =
    if ltb max_datagram (length payload)
    then ([], dropped m)
    else if ip == r.bind_address
    then ([], m)
    else if not (contains r.home_cidr ip) || not (is_media_server_search payload)
    then ([], dropped m)
    else (let replies = replies_of lease payload date now_seconds in
        (map (λ reply. (v4 ip port, reply)) replies, searched replies m))
