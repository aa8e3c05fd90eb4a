-- ===== src/Config/Bounds.antt =====
-- The ranges of what `Config::from_json` of service/src/config.rs accepts.
use ahara_collector.Prelude.{
  ℕ, ◌<◌, ◌≤◌, ◌^◌, ◌≡◌, refl, sym, ◌∙◌, inl, inr, Bool, some, List, [], Text, min, max, arith,
  codes,
}
use Prim.Native.String.{String}
use ahara_collector.Prelude.Int.{ℤ, pos, negsuc, to_u16}
use ahara_collector.Prelude.Results.{
  Result, ok, ok_or, Holds, holds, Holds→, Result-cases, err-ne-ok, Holds-map, Holds-bind,
  Holds-then, Holds-ok_or,
}
use ahara_collector.Json.Syntax.{Floats, Json}
use ahara_collector.Json.Parser.{parse}
use ahara_collector.Config.{
  ConfigError, bad_json, WiimConfig, PollerConfig, Config, req_str, req_ip, req_i64, req_port,
  req_u64, req_bool, static_devices_of, parse_cidr, spool_of, poller, wiim_of, config_of,
  config_from_json,
}

pub record PollerBounds (c : PollerConfig) : Type 0 where
  pub discovery_port : c.discovery_port < 2 ^ 16
  pub discovery_bind_port : c.discovery_bind_port < 2 ^ 16
  pub device_port : c.device_port < 2 ^ 16
  pub poll_interval : 1 ≤ c.poll_interval_seconds
  pub discovery_interval : 1 ≤ c.discovery_interval_hours

pub record WiimBounds (c : WiimConfig) : Type 0 where
  pub ssdp_port : c.ssdp_port < 2 ^ 16
  pub discovery_bind_port : c.discovery_bind_port < 2 ^ 16
  pub media_server_port : c.media_server_port < 2 ^ 16
  pub window : (1 ≤ c.response_window_seconds) × (c.response_window_seconds ≤ 10)
  pub discovery_interval : 5 ≤ c.discovery_interval_seconds

pub record Bounded (c : Config) : Type 0 where
  pub api_port : c.api_port < 2 ^ 16
  pub wiim : WiimBounds c.wiim
  pub env_sensors : PollerBounds c.env_sensors
  pub kasa : PollerBounds c.kasa

to_u16-bounds : (i : ℤ) (n : ℕ) → to_u16 i ≡ some n → n < 2 ^ 16
to_u16-bounds (pos m) n e = ground (arith, e)
to_u16-bounds (negsuc m) n e = ground (arith, e)

poller_bounds :
    (enable : Bool) (a b c i j : ℕ) (devices : List ℕ)
    → a < 2 ^ 16
    → b < 2 ^ 16
    → c < 2 ^ 16
    → PollerBounds (record {
      enable = enable;
      discovery_port = a;
      discovery_bind_port = b;
      device_port = c;
      poll_interval_seconds = max i 1;
      discovery_interval_hours = max j 1;
      static_devices = devices;
    })
poller_bounds enable a b c i j devices p q r = record {
  discovery_port = p;
  discovery_bind_port = q;
  device_port = r;
  poll_interval = omega arith;
  discovery_interval = omega arith;
}

wiim_bounds :
    (enable : Bool) (a b i j : ℕ) (file : Text) (ip c : ℕ)
    → a < 2 ^ 16
    → b < 2 ^ 16
    → c < 2 ^ 16
    → WiimBounds (record {
      enable = enable;
      ssdp_port = a;
      discovery_bind_port = b;
      response_window_seconds = min (max i 1) 10;
      discovery_interval_seconds = max j 5;
      state_file = file;
      media_server_ip = ip;
      media_server_port = c;
    })
wiim_bounds enable a b i j file ip c p q r = record {
  ssdp_port = p;
  discovery_bind_port = q;
  media_server_port = r;
  window = (omega arith, omega arith);
  discovery_interval = omega arith;
}

module _ {F : Type 0} (doc : Json F) where
  req_port-bounds : (section key : Text) → Holds (λ p. p < 2 ^ 16) (req_port doc section key)
  unfolding req_port
  req_port-bounds section key =
      Holds-then (req_i64 doc section key) _
        λ i. Holds-map (ok_or (to_u16 i) _) (Holds-ok_or (to_u16 i) _) (to_u16-bounds i)

  poller-bounds : (section : Text) → Holds PollerBounds (poller doc section)
  unfolding poller
  poller-bounds section = Holds-then (static_devices_of doc section) _ λ devices.
      Holds-then (req_bool doc section (codes "enable")) _ λ enable.
        Holds-bind (port "discoveryPort") _ (req_port-bounds section _) λ a p.
          Holds-bind (port "discoveryBindPort") _ (req_port-bounds section _) λ b q.
            Holds-bind (port "devicePort") _ (req_port-bounds section _) λ c r.
              Holds-then (req_u64 doc section (codes "pollIntervalSeconds")) _ λ i.
                Holds-then (req_u64 doc section (codes "discoveryIntervalHours")) _
                  λ j. holds (poller_bounds enable a b c i j devices p q r)
    where
      port : String → Result ConfigError ℕ
      port key = req_port doc section (codes key)

  wiim_of-bounds : Holds WiimBounds (wiim_of doc)
  unfolding wiim_of
  wiim_of-bounds = Holds-then (req_bool doc section (codes "enable")) _ λ enable.
      Holds-bind (port "ssdpPort") _ (req_port-bounds section _) λ a p.
        Holds-bind (port "discoveryBindPort") _ (req_port-bounds section _) λ b q.
          Holds-then (req_u64 doc section (codes "responseWindowSeconds")) _ λ i.
            Holds-then (req_u64 doc section (codes "discoveryIntervalSeconds")) _ λ j.
              Holds-then (req_str doc section (codes "stateFile")) _ λ file.
                Holds-then (req_ip doc section (codes "mediaServerIp")) _ λ ip.
                  Holds-bind (port "mediaServerPort") _ (req_port-bounds section _)
                    λ c r. holds (wiim_bounds enable a b i j file ip c p q r)
    where
      section : Text
      section = codes "wiim"

      port : String → Result ConfigError ℕ
      port key = req_port doc section (codes key)

  config_of-bounds : Holds Bounded (config_of doc)
  unfolding config_of
  config_of-bounds = Holds-then (req_ip doc [] (codes "bindAddress")) _ λ bind.
      Holds-then (req_str doc [] (codes "homeCidr")) _ λ cidr.
        Holds-then (parse_cidr cidr) _ λ home.
          Holds-then (req_ip doc [] (codes "homeBroadcast")) _ λ broadcast.
            Holds-bind (req_port doc [] (codes "apiPort")) _ (req_port-bounds [] (codes "apiPort"))
              λ port p. Holds-bind (wiim_of doc) _ wiim_of-bounds λ w hw.
                Holds-bind (poller doc (codes "envSensors")) _ (poller-bounds (codes "envSensors"))
                  λ e he.
                    Holds-bind (poller doc (codes "kasa")) _ (poller-bounds (codes "kasa")) λ k hk.
                      Holds-then (spool_of doc) _
                        λ s. holds (record { api_port = p; wiim = hw; env_sensors = he; kasa = hk })

-- In every configuration that is accepted the ports are below 2^16, no polling or discovery interval
-- is zero, the WiiM discovery interval is at least 5 seconds, and the window of its responses is
-- between 1 and 10 seconds.
pub config_from_json-Bounded :
    (fl : Floats) (text : Text) (c : Config) → config_from_json fl text ≡ ok c → Bounded c
unfolding config_from_json
config_from_json-Bounded fl text c e = elim (Result-cases (parse fl text)) [
  | inl (doc, p) ↦
      Holds→ (config_of doc) c (sym (rw (p, config_from_json) refl) ∙ e) (config_of-bounds doc)
  | inr (x, p) ↦ absurd (err-ne-ok bad_json c (sym (rw (p, config_from_json) refl) ∙ e))
]
