-- ===== src/Config.antt =====
-- Configuration and credentials of service/src/config.rs. The texts of the errors are left out.
pub mod Bounds
use ahara_collector.Prelude.{
  ℕ, ◌-◌, ◌*◌, ◌%◌, ◌^◌, Bool, ◌||◌, Option, none, some, List, [], ◌∷◌, Text, codes, ltb, min, max,
  ◌==◌, if◌then◌else◌, is_empty, split_once,
}
use Prim.Native.Nat.{bit_and}
use ahara_collector.Prelude.Int.{ℤ, to_u16, to_u64}
use ahara_collector.Prelude.Results.{Result, ok, err, ◌>>=◌, ok_or}
use ahara_collector.Prelude.Parsing.{parse_u32, parse_ipv4, trim}
use ahara_collector.Json.Syntax.{
  Floats, Json, null, Items, nil, item, get, as_str, as_i64, as_bool, as_arr,
}
use ahara_collector.Json.Parser.{parse}

pub data ConfigError : Type 0 where
  bad_json bad_cidr bad_address bad_prefix missing_section missing_key wrong_type out_of_range :
      ConfigError

pub record Ipv4Cidr : Type 0 where
  pub network : ℕ
  pub mask : ℕ

-- The mask of a prefix: `u32::MAX << (32 - prefix)`, in 32 bits.
unfoldable pub prefix_mask : ℕ → ℕ
prefix_mask prefix = if prefix == 0 then 0 else (2 ^ 32 - 1) * 2 ^ (32 - prefix) % 2 ^ 32

unfoldable pub parse_cidr : Text → Result ConfigError Ipv4Cidr
unfolding split_once parse_ipv4 parse_u32 prefix_mask
parse_cidr text = do
  (addr, prefix) ← ok_or (split_once 47 text) bad_cidr
  addr ← ok_or (parse_ipv4 addr) bad_address
  prefix ← ok_or (parse_u32 prefix) bad_prefix
  if ltb 32 prefix
      then err bad_prefix
      else ok (record { network = bit_and addr (prefix_mask prefix); mask = prefix_mask prefix })

unfoldable pub contains : Ipv4Cidr → ℕ → Bool
contains cidr addr = bit_and addr cidr.mask == cidr.network

pub record WiimConfig : Type 0 where
  pub enable : Bool
  pub ssdp_port : ℕ
  pub discovery_bind_port : ℕ
  pub response_window_seconds : ℕ
  pub discovery_interval_seconds : ℕ
  pub state_file : Text
  pub media_server_ip : ℕ
  pub media_server_port : ℕ

pub record PollerConfig : Type 0 where
  pub enable : Bool
  pub discovery_port : ℕ
  pub discovery_bind_port : ℕ
  pub device_port : ℕ
  pub poll_interval_seconds : ℕ
  pub discovery_interval_hours : ℕ
  pub static_devices : List ℕ

pub record SpoolConfig : Type 0 where
  pub dir : Text
  pub max_bytes : ℕ
  pub segment_bytes : ℕ

pub record Config : Type 0 where
  pub bind_address : ℕ
  pub home_cidr : Ipv4Cidr
  pub home_broadcast : ℕ
  pub api_port : ℕ
  pub wiim : WiimConfig
  pub env_sensors : PollerConfig
  pub kasa : PollerConfig
  pub spool : SpoolConfig

module _ {F : Type 0} where
  unfoldable pub req : Json F → Text → Text → Result ConfigError (Json F)
  unfolding get
  req doc section key = do
    node ← (if is_empty section then ok doc else ok_or (get doc section) missing_section)
    ok_or (get node key) missing_key

  unfoldable pub req_str : Json F → Text → Text → Result ConfigError Text
  unfolding req as_str
  req_str doc section key = req doc section key >>= λ node. ok_or (as_str node) wrong_type

  unfoldable pub req_ip : Json F → Text → Text → Result ConfigError ℕ
  unfolding req_str parse_ipv4
  req_ip doc section key = req_str doc section key >>= λ s. ok_or (parse_ipv4 s) bad_address

  unfoldable pub req_i64 : Json F → Text → Text → Result ConfigError ℤ
  unfolding req as_i64
  req_i64 doc section key = req doc section key >>= λ node. ok_or (as_i64 node) wrong_type

  unfoldable pub req_port : Json F → Text → Text → Result ConfigError ℕ
  unfolding req_i64
  req_port doc section key = req_i64 doc section key >>= λ i. ok_or (to_u16 i) out_of_range

  unfoldable pub req_u64 : Json F → Text → Text → Result ConfigError ℕ
  unfolding req_i64
  req_u64 doc section key = req_i64 doc section key >>= λ i. ok_or (to_u64 i) out_of_range

  unfoldable pub req_bool : Json F → Text → Text → Result ConfigError Bool
  unfolding req as_bool
  req_bool doc section key = req doc section key >>= λ node. ok_or (as_bool node) wrong_type

  unfoldable pub address_of : Json F → Option ℕ
  unfolding as_str parse_ipv4
  address_of node = elim (as_str node) [ none ↦ none | some s ↦ parse_ipv4 s ]

  unfoldable pub addresses : Items F → Result ConfigError (List ℕ)
  unfolding address_of
  addresses nil = ok []
  addresses (item node nodes) = do
    a ← ok_or (address_of node) bad_address
    rest ← addresses nodes
    ok (a ∷ rest)

  -- An absent list is empty.
  unfoldable pub static_devices_of : Json F → Text → Result ConfigError (List ℕ)
  unfolding req as_arr addresses
  static_devices_of doc section = elim (req doc section (codes "staticDevices")) [
    | ok node ↦ ok_or (as_arr node) wrong_type >>= addresses
    | err e ↦ ok []
  ]

  unfoldable pub poller : Json F → Text → Result ConfigError PollerConfig
  unfolding static_devices_of req_bool req_port req_u64
  poller doc section = do
    static_devices ← static_devices_of doc section
    enable ← req_bool doc section (codes "enable")
    discovery_port ← req_port doc section (codes "discoveryPort")
    discovery_bind_port ← req_port doc section (codes "discoveryBindPort")
    device_port ← req_port doc section (codes "devicePort")
    poll_interval ← req_u64 doc section (codes "pollIntervalSeconds")
    discovery_interval ← req_u64 doc section (codes "discoveryIntervalHours")
    ok (record {
      enable = enable;
      discovery_port = discovery_port;
      discovery_bind_port = discovery_bind_port;
      device_port = device_port;
      poll_interval_seconds = max poll_interval 1;
      discovery_interval_hours = max discovery_interval 1;
      static_devices = static_devices;
    })

  unfoldable pub wiim_of : Json F → Result ConfigError WiimConfig
  unfolding req_bool req_port req_u64 req_str req_ip
  wiim_of doc = do
    enable ← req_bool doc (codes "wiim") (codes "enable")
    ssdp_port ← req_port doc (codes "wiim") (codes "ssdpPort")
    discovery_bind_port ← req_port doc (codes "wiim") (codes "discoveryBindPort")
    response_window ← req_u64 doc (codes "wiim") (codes "responseWindowSeconds")
    discovery_interval ← req_u64 doc (codes "wiim") (codes "discoveryIntervalSeconds")
    state_file ← req_str doc (codes "wiim") (codes "stateFile")
    media_server_ip ← req_ip doc (codes "wiim") (codes "mediaServerIp")
    media_server_port ← req_port doc (codes "wiim") (codes "mediaServerPort")
    ok (record {
      enable = enable;
      ssdp_port = ssdp_port;
      discovery_bind_port = discovery_bind_port;
      response_window_seconds = min (max response_window 1) 10;
      discovery_interval_seconds = max discovery_interval 5;
      state_file = state_file;
      media_server_ip = media_server_ip;
      media_server_port = media_server_port;
    })

  unfoldable pub spool_of : Json F → Result ConfigError SpoolConfig
  unfolding req_str req_u64
  spool_of doc = do
    dir ← req_str doc (codes "spool") (codes "dir")
    max_bytes ← req_u64 doc (codes "spool") (codes "maxBytes")
    segment_bytes ← req_u64 doc (codes "spool") (codes "segmentBytes")
    ok (record { dir = dir; max_bytes = max_bytes; segment_bytes = segment_bytes })

  unfoldable pub config_of : Json F → Result ConfigError Config
  unfolding req_ip req_str parse_cidr req_port wiim_of poller spool_of
  config_of doc = do
    bind_address ← req_ip doc [] (codes "bindAddress")
    cidr ← req_str doc [] (codes "homeCidr")
    home_cidr ← parse_cidr cidr
    home_broadcast ← req_ip doc [] (codes "homeBroadcast")
    api_port ← req_port doc [] (codes "apiPort")
    wiim ← wiim_of doc
    env_sensors ← poller doc (codes "envSensors")
    kasa ← poller doc (codes "kasa")
    spool ← spool_of doc
    ok (record {
      bind_address = bind_address;
      home_cidr = home_cidr;
      home_broadcast = home_broadcast;
      api_port = api_port;
      wiim = wiim;
      env_sensors = env_sensors;
      kasa = kasa;
      spool = spool;
    })

unfoldable pub config_from_json : (fl : Floats) → Text → Result ConfigError Config
unfolding config_of
config_from_json fl text = elim (parse fl text) [ err e ↦ err bad_json | ok doc ↦ config_of doc ]

pub record BasicCredentials : Type 0 where
  pub username : Text
  pub password : Text

pub record Credentials : Type 0 where
  pub env_sensors : Option BasicCredentials
  pub kasa : Option BasicCredentials

module _ {F : Type 0} where
  unfoldable pub text_at : Json F → Text → Result ConfigError Text
  unfolding get as_str
  text_at node key = elim (get node key) [
    | none ↦ err missing_key
    | some v ↦ ok_or (as_str v) missing_key
  ]

  unfoldable pub credentials_of : Json F → Result ConfigError (Option BasicCredentials)
  unfolding text_at
  credentials_of node = do
    username ← text_at node (codes "username")
    password ← text_at node (codes "password")
    if is_empty username || is_empty password
        then err out_of_range
        else ok (some (record { username = username; password = password }))

  -- A null section has no credentials, and neither has an absent one.
  unfoldable pub section_credentials : Json F → Result ConfigError (Option BasicCredentials)
  unfolding credentials_of
  section_credentials null = ok none
  section_credentials node = credentials_of node

  unfoldable pub read_section : Json F → Text → Result ConfigError (Option BasicCredentials)
  unfolding get section_credentials
  read_section doc section = elim (get doc section) [
    | none ↦ ok none
    | some node ↦ section_credentials node
  ]

unfoldable pub credentials_from_json : (fl : Floats) → Text → Result ConfigError Credentials
unfolding trim read_section
credentials_from_json fl text =
    let trimmed = trim text in
    if is_empty trimmed
    then ok (record { env_sensors = none; kasa = none })
    else elim (parse fl trimmed) [
      | err e ↦ err bad_json
      | ok doc ↦ do
        env_sensors ← read_section doc (codes "envSensors")
        kasa ← read_section doc (codes "kasa")
        ok (record { env_sensors = env_sensors; kasa = kasa })
    ]
