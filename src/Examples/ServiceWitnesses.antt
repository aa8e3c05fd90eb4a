-- ===== src/Examples/ServiceWitnesses.antt =====
-- The properties of the envelopes, the set of spools, the API and the responder at small inputs.
use ahara_collector.Metrics.{no_counts}
use ahara_collector.Prelude.{
  ◌≡◌, ◌≤◌, ◌+◌, ◌↔◌, ◌⊎◌, refl, true, false, some, [], ◌∷◌, Text, Bytes, codes, arith, text_eq,
  strip_prefix,
}
use ahara_collector.Prelude.Utf8.{as_bytes}
use ahara_collector.Prelude.Parsing.{trim}
use ahara_collector.Maps.{lookup}
use ahara_collector.Prelude.Int.{pos}
use ahara_collector.Prelude.Results.{ok}
use ahara_collector.Crypto.Base64.{base64_encode, base64_decode}
use ahara_collector.Crypto.Base64Laws.{base64_decode-base64_encode}
use ahara_collector.Crypto.Compare.{eq_constant_time}
use ahara_collector.Crypto.CompareLaws.{eq_constant_time_lem}
use ahara_collector.Envelope.{normalize_pushed}
use ahara_collector.Envelope.Laws.{Pushed, normalize_pushed_lem}
use ahara_collector.SpoolSet.{for_module}
use ahara_collector.SpoolSet.Laws.{Opened, for_module_lem}
use ahara_collector.Http.{Request}
use ahara_collector.Ssdp.{MediaServerLease, active, cache_seconds, Responder, v4, process}
use ahara_collector.Ssdp.Laws.{Answered, process-Answered, cache_seconds-bounds}
use ahara_collector.Api.Auth.{authorized_bearer, authorized_basic, presented}
use ahara_collector.Api.Routes.{route, handle}
use ahara_collector.Api.Laws.{Harmless, handle-Harmless}
use ahara_collector.Api.Lease.{media_server_register}
use ahara_collector.Api.Lease.Laws.{Leased, media_server_register-Leased}
use ahara_collector.Examples.Samples.{spelled}
use ahara_collector.Examples.Setups.{set, setup, state}
use ahara_collector.Examples.JsonRuns.{runs}
use ahara_collector.Json.Parser.{parse_value}
use ahara_collector.Json.Printer.{to_string, write_escaped, print_int}

base64_decode-base64_encode_example : base64_decode (base64_encode (codes "fo")) ≡ ok (codes "fo")
base64_decode-base64_encode_example =
    base64_decode-base64_encode (codes "fo") (omega arith, (omega arith, tt))

eq_constant_time_lem_example :
    (eq_constant_time (codes "ab") (codes "abc") ≡ true) ↔ (codes "ab" ≡ codes "abc")
eq_constant_time_lem_example = eq_constant_time_lem (codes "ab") (codes "abc")

abbrev line : Text
line = codes "{\"module\":\"m1\",\"values\":{\"t\":1}}"

abbrev out : Text
out = codes "{\"module\":\"m1\",\"timestampNs\":77,\"values\":{\"t\":1}}"

accepted : normalize_pushed spelled line (pos 77) ≡ some (codes "m1", out)
unfolding normalize_pushed runs parse_value to_string write_escaped print_int
accepted = refl

normalize_pushed_lem_example : Pushed spelled line (pos 77) (codes "m1") out
normalize_pushed_lem_example = normalize_pushed_lem spelled line (pos 77) (codes "m1") out accepted

for_module_lem_example : Opened (codes "kasa") set (for_module (codes "kasa") set)
for_module_lem_example = for_module_lem (codes "kasa") set

abbrev lease : MediaServerLease
lease = record {
  uuid = codes "u-1";
  location = codes "http://10.0.0.2:80/device.xml";
  server = codes "airwave";
  expires_at_seconds = 2000;
}

cache_seconds-bounds_example :
    (1 ≤ cache_seconds lease 1990)
    × (cache_seconds lease 1990 ≤ 1800)
    × ((active lease 1990 ≡ false) ⊎ (1990 + cache_seconds lease 1990 ≤ lease.expires_at_seconds))
cache_seconds-bounds_example = cache_seconds-bounds lease 1990

abbrev responder : Responder
responder = record {
  home_cidr = record { network = 0x0a000000; mask = 0xffffff00 };
  bind_address = 0x0a000001;
}

abbrev search : Bytes
search = codes "M-SEARCH * HTTP/1.1\r\nMAN: \"ssdp:discover\"\r\nST: upnp:rootdevice\r\n\r\n"

process-Answered_example :
    ((process responder (some lease) (v4 0x0a000007 1900) search (codes "now") 1990 no_counts).0
      ≡ [])
    ⊎ Answered responder (some lease) (v4 0x0a000007 1900) search 1990
process-Answered_example =
    process-Answered responder (some lease) (v4 0x0a000007 1900) search (codes "now") 1990 no_counts

abbrev guess : Request
guess = record {
  method = codes "GET";
  path = codes "/readings/next";
  raw_query = codes "module=kasa";
  query = (codes "module", codes "kasa") ∷ [];
  headers = (codes "authorization", codes "Bearer wrong!") ∷ [];
  body = [];
}

no_bearer :
    (authorized_bearer guess setup.sensor_token ≡ false)
    × (authorized_bearer guess setup.airwave_token ≡ false)
unfolding authorized_bearer presented text_eq eq_constant_time as_bytes trim strip_prefix lookup
no_bearer = (refl, refl)

no_basic : authorized_basic setup guess ≡ false
unfolding authorized_basic
no_basic = refl

handle-Harmless_example : Harmless (route guess) state (handle spelled setup guess state)
handle-Harmless_example = handle-Harmless spelled setup guess state no_bearer.0 no_bearer.1 no_basic

abbrev registration : Request
registration = record {
  method = codes "PUT";
  path = codes "/wiim/media-server";
  raw_query = [];
  query = [];
  headers = [];
  body =
      codes "{\"uuid\":\"u-1\",\"location\":\"http://10.0.0.2/device.xml\",\"server\":\"airwave\"}";
}

media_server_register-Leased_example :
    Leased setup state (media_server_register spelled setup registration state)
media_server_register-Leased_example = media_server_register-Leased spelled setup registration state
