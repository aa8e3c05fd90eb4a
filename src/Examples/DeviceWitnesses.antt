-- ===== src/Examples/DeviceWitnesses.antt =====
-- The properties of the plugs, the sensors and the configuration at small inputs.
use ahara_collector.Prelude.{
  ℕ, ◌≡◌, refl, some, none, List, [], ◌∷◌, ◌++◌, Text, Bytes, codes, arith, All, replicate,
}
use ahara_collector.Prelude.Int.{pos}
use ahara_collector.Prelude.Results.{ok}
use ahara_collector.Prelude.Utf8.{as_bytes}
use ahara_collector.Json.Syntax.{Json, int, obj, field, end}
use ahara_collector.Json.Parser.{parse_value}
use ahara_collector.Json.Printer.{to_string, write_escaped, print_int}
use ahara_collector.Config.{BasicCredentials}
use ahara_collector.Crypto.Hash.{sha256}
use ahara_collector.Http.Client.{Network}
use ahara_collector.Kasa.{KasaDevice}
use ahara_collector.Kasa.Session.{KlapSession, auth_hash, derive_keys, establish}
use ahara_collector.Kasa.Poll.{Slot}
use ahara_collector.Kasa.Handshake.{Shaken, establish-Shaken}
use ahara_collector.Sensors.{EnvDevice, document_of, build_environment_reading}
use ahara_collector.Sensors.Served.{IsServing, discover-IsServing}
use ahara_collector.Sensors.Envelopes.{Carries, build_environment_reading-Carries}
use ahara_collector.Examples.Samples.{spelled}
use ahara_collector.Examples.JsonRuns.{runs}

abbrev creds : BasicCredentials
creds = record { username = codes "u"; password = codes "p" }

-- A network on which nothing answers.
abbrev silent : Network
silent = λ ip port sent. none

abbrev plug : KasaDevice
plug = record { ip = 0x0a000009; http_port = 80; device_id = none; model = none; name = none }

abbrev session : KlapSession
session = record {
  ip = 0x0a000009;
  port = 80;
  cookie = codes "TP_SESSIONID=1";
  keys = record {
    key = replicate 16 1;
    iv = replicate 12 2;
    sig = replicate 28 3;
    seq = 4294967295;
  };
}

abbrev seed : Bytes
seed = replicate 16 7

abbrev remote : Bytes
remote = replicate 16 9

-- A device that knows the credentials: to the first request it answers with its seed and the hash.
plug_answer : Bytes
unfolding sha256 auth_hash as_bytes
plug_answer =
    codes "HTTP/1.1 200 OK\r\nset-cookie: TP_SESSIONID=1;TIMEOUT=86400\r\n\r\n"
    ++ remote
    ++ sha256 (seed ++ remote ++ auth_hash creds)

honest : Network
unfolding plug_answer
honest = λ ip port sent. some plug_answer

abbrev shaken : KlapSession
shaken = record {
  ip = 0x0a000009;
  port = 80;
  cookie = codes "TP_SESSIONID=1";
  keys = derive_keys seed remote (auth_hash creds);
}

established : establish honest 0x0a000009 80 creds seed ≡ ok shaken
unfolding establish honest plug_answer
established = refl

establish-Shaken_example : Shaken honest 0x0a000009 80 creds seed shaken
establish-Shaken_example = establish-Shaken honest 0x0a000009 80 creds seed shaken established

abbrev slots : List Slot
slots = (plug, none) ∷ (plug, some session) ∷ []

abbrev heard : List (Bytes × ℕ)
heard =
    (
      replicate 16 0 ++ codes "{\"result\":{\"mgt_encrypt_schm\":{\"encrypt_type\":\"KLAP\"}}}",
      0x0a000008,
    )
    ∷ []

-- Every address answers with a humidity.
abbrev answering : Network
answering = λ ip port sent. some (codes "HTTP/1.1 200 OK\r\n\r\n{\"humidity\":40}")

discover-IsServing_example :
    All
      (IsServing answering 80 creds spelled)
      (ahara_collector.Sensors.discover answering 80 creds spelled (0x0a000009 ∷ []) (some heard))
discover-IsServing_example = discover-IsServing answering 80 creds spelled (0x0a000009 ∷ []) heard

abbrev sensor : EnvDevice
sensor = record { ip = 0x0a000009; name = codes "n"; model = none; device_id = none; tags = [] }

abbrev payload : Json spelled.F64
payload = obj (field (codes "humidity") (int (pos 40)) end)

abbrev line : Text
line =
    codes
      "{\"device\":{\"ip\":\"10.0.0.9\",\"name\":\"n\"},\"module\":\"envSensors\",\"timestampNs\":77,\"values\":{\"humidity\":40}}"

parsed : document_of spelled (codes "{\"humidity\":40}") ≡ some payload
unfolding document_of runs parse_value
parsed = refl

polled : build_environment_reading spelled (codes "{\"humidity\":40}") sensor (pos 77) ≡ some line
unfolding build_environment_reading runs parse_value to_string write_escaped print_int
polled = refl

build_environment_reading-Carries_example : Carries spelled payload sensor line
build_environment_reading-Carries_example =
    build_environment_reading-Carries spelled (codes "{\"humidity\":40}") sensor (pos 77) line
      payload (record { now = omega arith; cast = λ f. omega arith }) parsed (tt, omega arith, tt)
      polled
