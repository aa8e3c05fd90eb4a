-- ===== src/Api/Lease.antt =====
-- The registration of a media server in service/src/api.rs.
pub mod Laws
use ahara_collector.Prelude.{
  ℕ, ◌+◌, ◌-◌, ◌^◌, min, max, Bool, true, false, not, ◌&&◌, ◌||◌, Option, none, some, List, [], ◌∷◌,
  Text, codes, length, is_empty, all, any, leb, ltb, ◌==◌, if◌then◌else◌, text_eq,
}
use ahara_collector.Prelude.Int.{as_i64_cast, ℤ, to_u64}
use ahara_collector.Prelude.Options.{is_some}
use ahara_collector.Prelude.Utf8.{as_bytes}
use ahara_collector.Prelude.Parsing.{parse_ipv4}
use ahara_collector.Json.Syntax.{Floats, Json, int, obj, end, insert, get, as_i64}
use ahara_collector.Json.Printer.{to_string}
use ahara_collector.Envelope.{is_ascii_alphanumeric}
use ahara_collector.Net.{Url}
use ahara_collector.Ssdp.{MediaServerLease}
use ahara_collector.Http.{Request, Response, json_response, empty}
use ahara_collector.Metrics.{inc}
use ahara_collector.Api.State.{Setup, State, Handler}
use ahara_collector.Api.Readings.{text_field, document}

unfoldable pub is_uuid_byte : ℕ → Bool
is_uuid_byte b = is_ascii_alphanumeric b || b == 45 || b == 95 || b == 46

unfoldable pub valid_uuid : Text → Bool
valid_uuid value =
    not (is_empty value) && leb (length (as_bytes value)) 128 && all is_uuid_byte (as_bytes value)

unfoldable pub valid_server : Text → Bool
valid_server server =
    not (
      is_empty server || ltb 256 (length (as_bytes server)) || any (λ c. c == 13 || c == 10) server)

-- The seconds that a document asks for, 1200 if it does not; no less than 60 and no more than 1800.
unfoldable pub requested_seconds : Option ℤ → ℕ
requested_seconds none = 1200
requested_seconds (some i) = elim (to_u64 i) [ none ↦ 1200 | some n ↦ n ]

unfoldable pub lease_seconds_of : Option ℤ → ℕ
lease_seconds_of i = min (max (requested_seconds i) 60) 1800

unfoldable pub is_host : Option Text → ℕ → Bool
is_host none ip = false
is_host (some host) ip = elim (parse_ipv4 host) [ none ↦ false | some a ↦ a == ip ]

unfoldable pub is_port : Option ℕ → ℕ → Bool
is_port none port = false
is_port (some p) port = p == port

-- `http://<ip>:<port>/device.xml` of the media server, and nothing else.
unfoldable pub allowed_url : Setup → Url → Bool
allowed_url setup url =
    text_eq url.scheme (codes "http")
    && is_host url.host setup.media_server_ip
    && is_port url.port_or_known_default setup.media_server_port
    && text_eq url.path (codes "/device.xml")
    && not (is_some url.query)
    && not (is_some url.fragment)
    && is_empty url.username
    && not (is_some url.password)

unfoldable pub allowed_location : Setup → Text → Bool
allowed_location setup location = elim (setup.libraries.parse_url location) [
  | none ↦ false
  | some url ↦ allowed_url setup url
]

unfoldable pub saturating_add : ℕ → ℕ → ℕ
saturating_add a b = min (a + b) (2 ^ 64 - 1)

unfoldable pub register : Floats → MediaServerLease → Handler
register fl lease s =
    let body = insert (codes "expiresAtSeconds") (int (as_i64_cast lease.expires_at_seconds)) end in
    (
      json_response 200 (to_string fl (obj body)),
      record s {
        media_server = some lease;
        metrics = record s.metrics {
          wiim_media_registrations = inc s.metrics.wiim_media_registrations;
        };
      },
    )

unfoldable pub seconds_field : (fl : Floats) → Json fl.F64 → Option ℤ
seconds_field fl doc = elim (get doc (codes "leaseSeconds")) [ none ↦ none | some v ↦ as_i64 v ]

unfoldable pub register_document : (fl : Floats) → Setup → Json fl.F64 → Handler
register_document fl setup doc s = elim (text_field fl doc (codes "uuid")) [
  | none ↦ (empty 400, s)
  | some uuid ↦ elim (text_field fl doc (codes "location")) [
    | none ↦ (empty 400, s)
    | some location ↦ elim (text_field fl doc (codes "server")) [
      | none ↦ (empty 400, s)
      | some server ↦
          if valid_uuid uuid && valid_server server && allowed_location setup location
          then register fl
              (record {
                uuid = uuid;
                location = location;
                server = server;
                expires_at_seconds =
                    saturating_add setup.now_seconds (lease_seconds_of (seconds_field fl doc));
              })
              s
          else (empty 400, s)
    ]
  ]
]

unfoldable pub media_server_register : Floats → Setup → Request → Handler
media_server_register fl setup request s = elim (document fl request) [
  | none ↦ (empty 400, s)
  | some doc ↦ register_document fl setup doc s
]
