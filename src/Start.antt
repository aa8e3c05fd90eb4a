-- ===== src/Start.antt =====
-- `main` of service/src/main.rs up to the API: the arguments, the files that are read, and what the
-- API and the modules are started with. The file system is a parameter.
pub mod Laws
use ahara_collector.Prelude.{
  ℕ, Bool, true, false, ◌&&◌, Option, none, some, List, [], ◌∷◌, Text, Bytes, codes, length, ltb,
  text_eq, if◌then◌else◌,
}
use ahara_collector.Prelude.Int.{ℤ}
use ahara_collector.Prelude.Options.{unwrap_or, is_some}
use ahara_collector.Prelude.Results.{Result, ok, err, ◌>>=◌, ok_or, map_err}
use ahara_collector.Prelude.Utf8.{as_bytes}
use ahara_collector.Prelude.Parsing.{trim}
use ahara_collector.Json.Syntax.{Floats}
use ahara_collector.Config.{Config, Credentials, config_from_json, credentials_from_json}
use ahara_collector.Metrics.{no_counts}
use ahara_collector.Metrics.Gauges.{Host}
use ahara_collector.Spool.Disk.{Disk}
use ahara_collector.Spool.Model.{Spool, IoError}
use ahara_collector.SpoolSet.{SpoolSet, open_set, for_module}
use ahara_collector.Sensors.{module_env_sensors}
use ahara_collector.Kasa.{module_kasa}
use ahara_collector.Wiim.Description.{Libraries}
use ahara_collector.Wiim.Transport.{Web}
use ahara_collector.Api.State.{Setup, State}

-- `read_to_string`, and the subdirectories of a directory with their files.
pub record Files : Type 0 where
  pub read_to_string : Text → Option Text
  pub subdirectories : Text → List (Text × Disk)

-- Why the process ends: with the exit code 2 for its usage, and else with 1.
pub data StartError : Type 0 where
  usage config_unreadable config_invalid token_unreadable token_too_short : StartError
  airwave_token_unreadable airwave_token_too_short credentials_invalid spool_unavailable :
      StartError

unfoldable pub exit_code : StartError → ℕ
exit_code usage = 2
exit_code _ = 1

-- The argument behind the first that is the flag.
unfoldable pub read_arg : List Text → Text → Option Text
unfolding text_eq
read_arg [] flag = none
read_arg (a ∷ []) flag = none
read_arg (a ∷ b ∷ args) flag = if text_eq a flag then some b else read_arg (b ∷ args) flag

unfoldable pub is_run : List Text → Bool
unfolding text_eq
is_run [] = false
is_run (a ∷ args) = text_eq a (codes "run")

unfoldable pub required : List Text → Text → Result StartError Text
unfolding read_arg
required args flag = ok_or (read_arg args flag) usage

-- A token is what its file has between white space, of 16 bytes at least.
unfoldable pub token_of : StartError → StartError → Option Text → Result StartError Bytes
unfolding trim as_bytes
token_of unreadable too_short none = err unreadable
token_of unreadable too_short (some text) =
    let token = as_bytes (trim text) in if ltb (length token) 16 then err too_short else ok token

-- The spool of a module that is enabled.
unfoldable pub module_spool : Bool → Text → SpoolSet → Result StartError SpoolSet
unfolding for_module
module_spool false name set = ok set
module_spool true name set =
    let (r, set') = for_module name set in
    elim r [ ok spool ↦ ok set' | err e ↦ err spool_unavailable ]

-- What the process runs with.
pub record Started : Type 0 where
  pub config : Config
  pub credentials : Credentials
  pub sensor_token : Bytes
  pub airwave_token : Bytes
  pub spools : SpoolSet

-- A credentials file that cannot be read is as an empty one.
unfoldable pub start : Floats → Files → List Text → Result StartError Started
unfolding is_run required config_from_json token_of credentials_from_json open_set module_spool
start fl files args =
    if is_run args
    then (do
      config_path ← required args (codes "--config")
      token_path ← required args (codes "--token-file")
      airwave_path ← required args (codes "--airwave-token-file")
      credentials_path ← required args (codes "--credentials")
      config_text ← ok_or (files.read_to_string config_path) config_unreadable
      config ← map_err (λ e. config_invalid) (config_from_json fl config_text)
      sensor_token ← token_of token_unreadable token_too_short (files.read_to_string token_path)
      airwave_token ←
          token_of airwave_token_unreadable airwave_token_too_short
            (files.read_to_string airwave_path)
      credentials ←
          map_err (λ e. credentials_invalid)
            (credentials_from_json fl (unwrap_or (files.read_to_string credentials_path) []))
      with_sensors ← module_spool config.env_sensors.enable module_env_sensors (
          open_set (files.subdirectories config.spool.dir) config.spool.segment_bytes
            config.spool.max_bytes)
      spools ← module_spool config.kasa.enable module_kasa with_sensors
      ok (record {
        config = config;
        credentials = credentials;
        sensor_token = sensor_token;
        airwave_token = airwave_token;
        spools = spools;
      }))
    else err usage

-- The API of the process, with the clock and the libraries that it finds. A poller that is enabled
-- without credentials idles.
unfoldable pub setup_of : Libraries → Web → Host → ℤ → ℕ → Started → Setup
setup_of libraries web host now_ns now_seconds s = record {
  sensor_token = s.sensor_token;
  airwave_token = s.airwave_token;
  ingest_creds = s.credentials.env_sensors;
  media_server_ip = s.config.wiim.media_server_ip;
  media_server_port = s.config.wiim.media_server_port;
  wiim_enabled = s.config.wiim.enable;
  env_sensors_enabled = s.config.env_sensors.enable && is_some s.credentials.env_sensors;
  kasa_enabled = s.config.kasa.enable && is_some s.credentials.kasa;
  now_ns = now_ns;
  now_seconds = now_seconds;
  libraries = libraries;
  web = web;
  iot_cidr = s.config.home_cidr;
  host = host;
}

-- The state that the API starts in: nothing is discovered, and no lease is set.
unfoldable pub state_of : Option Text → Started → State
state_of state_file s = record {
  spools = s.spools;
  metrics = no_counts;
  env = [];
  kasa = [];
  wiim = record { inventory = []; state_file = state_file };
  media_server = none;
}
