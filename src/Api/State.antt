-- ===== src/Api/State.antt =====
-- The state that the handlers of service/src/api.rs share, and what the API is set up with.
use ahara_collector.Prelude.{ℕ, Bool, Option, List, Bytes}
use ahara_collector.Prelude.Int.{ℤ}
use ahara_collector.Config.{BasicCredentials, Ipv4Cidr}
use ahara_collector.Sensors.{EnvDevice}
use ahara_collector.Kasa.{KasaDevice}
use ahara_collector.Wiim.Description.{Libraries}
use ahara_collector.Wiim.Transport.{Registry, Web}
use ahara_collector.Http.{Response}
use ahara_collector.Metrics.{Metrics}
use ahara_collector.Metrics.Gauges.{Host}
use ahara_collector.SpoolSet.{SpoolSet}
use ahara_collector.Ssdp.{MediaServerLease}

-- The setup, with the clock's readings and the host's, and with the libraries and the network of the WiiM transport.
pub record Setup : Type 1 where
  pub sensor_token : Bytes
  pub airwave_token : Bytes
  pub ingest_creds : Option BasicCredentials
  pub media_server_ip : ℕ
  pub media_server_port : ℕ
  pub wiim_enabled : Bool
  pub env_sensors_enabled : Bool
  pub kasa_enabled : Bool
  pub now_ns : ℤ
  pub now_seconds : ℕ
  pub libraries : Libraries
  pub web : Web
  pub iot_cidr : Ipv4Cidr
  pub host : Host

pub record State : Type 0 where
  pub spools : SpoolSet
  pub metrics : Metrics
  pub env : List EnvDevice
  pub kasa : List KasaDevice
  pub wiim : Registry
  pub media_server : Option MediaServerLease

-- A handler answers and changes the state.
abbrev pub Handler : Type 0
Handler = State → Response × State
