-- ===== src/Examples/ServerWitnesses.antt =====
-- The properties of requests, connections and the configuration at small inputs.
use ahara_collector.Prelude.{
  ◌≡◌, ◌↔◌, ◌⊎◌, refl, sym, ap, subst, ◌∙◌, true, some, [], ◌∷◌, ◌++◌, Text, Bytes, codes, arith,
  text_eq, strip_prefix, if◌then◌else◌, none, List,
}
use ahara_collector.Prelude.Results.{Result, ok, err}
use ahara_collector.Prelude.Utf8.{as_bytes}
use ahara_collector.Prelude.Parsing.{trim}
use ahara_collector.Json.Parser.{parse_value}
use ahara_collector.Config.{Config, BasicCredentials, config_from_json}
use ahara_collector.Config.Bounds.{Bounded, config_from_json-Bounded}
use ahara_collector.Crypto.Compare.{eq_constant_time}
use ahara_collector.Maps.{lookup}
use ahara_collector.Http.{Request}
use ahara_collector.Http.Lines.{HttpError}
use ahara_collector.Http.Server.{read_request}
use ahara_collector.Http.Client.{basic_auth_header}
use ahara_collector.Http.Bounds.{Sized, read_request-Sized}
use ahara_collector.Api.State.{Setup}
use ahara_collector.Api.Auth.{presented, authorized_bearer, authorized_basic}
use ahara_collector.Api.Auth.Laws.{authorized_basic-basic_auth_header}
use ahara_collector.Api.Server.{connection}
use ahara_collector.Api.Server.Laws.{IsUnauthorized, Refused, Answered, connection-Answered}
use ahara_collector.Spool.Disk.{read_file}
use ahara_collector.Spool.Model.{Spool, open_spool}
use ahara_collector.Start.{Files, Started, start}
use ahara_collector.Start.Laws.{Secure, start-Secure}
use ahara_collector.Examples.Samples.{spelled}
use ahara_collector.Examples.Setups.{setup, state}
use ahara_collector.Examples.JsonRuns.{runs}

abbrev config_text : Text
config_text =
    codes "{\"bindAddress\":\"192.168.65.3\",\"homeCidr\":\"192.168.65.0/24\",\"homeBroadc"
    ++ codes "ast\":\"192.168.65.255\",\"apiPort\":8850,\"wiim\":{\"enable\":true,\"ssdpPort\":"
    ++ codes "1900,\"discoveryBindPort\":1902,\"responseWindowSeconds\":40,\"discoveryInt"
    ++ codes "ervalSeconds\":3,\"stateFile\":\"/w.json\",\"mediaServerIp\":\"192.168.66.3\",\""
    ++ codes "mediaServerPort\":7882},\"envSensors\":{\"enable\":true,\"discoveryPort\":123"
    ++ codes "43,\"discoveryBindPort\":12344,\"devicePort\":80,\"pollIntervalSeconds\":0,\""
    ++ codes "discoveryIntervalHours\":4},\"kasa\":{\"enable\":true,\"discoveryPort\":20002"
    ++ codes ",\"discoveryBindPort\":20003,\"devicePort\":80,\"pollIntervalSeconds\":1,\"di"
    ++ codes "scoveryIntervalHours\":4,\"staticDevices\":[\"192.168.65.40\"]},\"spool\":{\"d"
    ++ codes "ir\":\"/s\",\"maxBytes\":268435456,\"segmentBytes\":4194304}}"

-- The window and the intervals are put into their ranges.
abbrev config : Config
config = record {
  bind_address = 3232252163;
  home_cidr = record { network = 3232252160; mask = 4294967040 };
  home_broadcast = 3232252415;
  api_port = 8850;
  wiim = record {
    enable = true;
    ssdp_port = 1900;
    discovery_bind_port = 1902;
    response_window_seconds = 10;
    discovery_interval_seconds = 5;
    state_file = codes "/w.json";
    media_server_ip = 3232252419;
    media_server_port = 7882;
  };
  env_sensors = record {
    enable = true;
    discovery_port = 12343;
    discovery_bind_port = 12344;
    device_port = 80;
    poll_interval_seconds = 1;
    discovery_interval_hours = 4;
    static_devices = [];
  };
  kasa = record {
    enable = true;
    discovery_port = 20002;
    discovery_bind_port = 20003;
    device_port = 80;
    poll_interval_seconds = 1;
    discovery_interval_hours = 4;
    static_devices = 3232252200 ∷ [];
  };
  spool = record { dir = codes "/s"; max_bytes = 268435456; segment_bytes = 4194304 };
}

configured : config_from_json spelled config_text ≡ ok config
unfolding config_from_json runs parse_value
configured = refl

config_from_json-Bounded_example : Bounded config
config_from_json-Bounded_example = config_from_json-Bounded spelled config_text config configured

abbrev stream : Bytes
stream = codes "GET /readings/next?module=kasa HTTP/1.1\r\nContent-Length: 2\r\n\r\nhello"

abbrev next_request : Request
next_request = record {
  method = codes "GET";
  path = codes "/readings/next";
  raw_query = codes "module=kasa";
  query = (codes "module", codes "kasa") ∷ [];
  headers = (codes "content-length", codes "2") ∷ [];
  body = codes "he";
}

read : read_request stream ≡ ok next_request
unfolding read_request text_eq
read = refl

read_request-Sized_example : Sized next_request
read_request-Sized_example = read_request-Sized stream next_request read

abbrev creds : BasicCredentials
creds = record { username = codes "u"; password = codes "p" }

abbrev with_creds : Setup
with_creds = record setup { ingest_creds = some creds }

abbrev login : Request
login = record next_request { headers = basic_auth_header (codes "u") (codes "p") ∷ [] }

written :
    lookup (codes "authorization") login.headers
    ≡ some (basic_auth_header (codes "u") (codes "p")).1
unfolding lookup basic_auth_header text_eq
written = refl

authorized_basic-basic_auth_header_example :
    (authorized_basic with_creds login ≡ true)
    ↔ (as_bytes (codes "u" ++ 58 ∷ codes "p") ≡ as_bytes (codes "u" ++ 58 ∷ codes "p"))
authorized_basic-basic_auth_header_example =
    authorized_basic-basic_auth_header with_creds login creds (codes "u") (codes "p") refl
      (omega arith, (omega arith, (omega arith, tt))) written

refused : IsUnauthorized setup next_request
unfolding authorized_bearer authorized_basic presented text_eq eq_constant_time as_bytes trim
    strip_prefix lookup
refused = record { sensor = refl; airwave = refl; basic = refl }

all_refused : (request : Request) → read_request stream ≡ ok request → IsUnauthorized setup request
all_refused request e = subst (IsUnauthorized setup) (ap read_as (sym read ∙ e)) refused
  where
    read_as : Result HttpError Request → Request
    read_as (ok r) = r
    read_as (err x) = request

connection-Answered_example :
    Refused state stream (connection spelled setup stream state)
    ⊎ Answered spelled setup state stream (connection spelled setup stream state)
connection-Answered_example = connection-Answered spelled setup stream state all_refused

abbrev files : Files
files = record {
  read_to_string = λ path.
      if text_eq path (codes "/config")
      then some config_text
      else if text_eq path (codes "/sensor")
      then some (codes " sensor-testtoken\n")
      else if text_eq path (codes "/airwave")
      then some (codes "airwave-testtoken")
      else none;
  subdirectories = λ path. [];
}

abbrev arguments : List Text
arguments =
    codes "run"
    ∷ codes "--config"
    ∷ codes "/config"
    ∷ codes "--token-file"
    ∷ codes "/sensor"
    ∷ codes "--airwave-token-file"
    ∷ codes "/airwave"
    ∷ codes "--credentials"
    ∷ codes "/none"
    ∷ []

abbrev new_spool : Spool
new_spool = record {
  disk = [];
  segment_bytes = 4194304;
  max_bytes = 268435456;
  next_seq = 1;
  current_len = 0;
  dropped_segments = 0;
}

abbrev process : Started
process = record {
  config = config;
  credentials = record { env_sensors = none; kasa = none };
  sensor_token = codes "sensor-testtoken";
  airwave_token = codes "airwave-testtoken";
  spools = record {
    root = [];
    segment_bytes = 4194304;
    max_bytes = 268435456;
    spools = (codes "envSensors", new_spool) ∷ (codes "kasa", new_spool) ∷ [];
  };
}

started : start spelled files arguments ≡ ok process
unfolding start runs parse_value lookup open_spool read_file
started = refl

start-Secure_example : Secure process
start-Secure_example = start-Secure spelled files arguments process started
