-- ===== src/Examples/Setups.antt =====
-- A setup of the API that the examples share.
use ahara_collector.Metrics.{no_counts}
use ahara_collector.Prelude.{true, false, some, none, [], Text, codes}
use ahara_collector.Prelude.Int.{pos}
use ahara_collector.SpoolSet.{SpoolSet, open_set}
use ahara_collector.Wiim.Description.{Libraries}
use ahara_collector.Api.State.{Setup, State}

pub set : SpoolSet
unfolding open_set
set = open_set [] 64 4096

abbrev pub libraries : Libraries
libraries = record {
  parse_url = λ s. some (record {
    text = s;
    scheme = codes "http";
    host = some (codes "10.0.0.2");
    port_or_known_default = some 80;
    path = codes "/device.xml";
    query = none;
    fragment = none;
    username = [];
    password = none;
  });
  join = λ url s. none;
  Node = Text;
  parse_xml = λ s. none;
  descendants = λ n. [];
  children = λ n. [];
  is_element = λ n. true;
  tag_name = λ n. n;
  node_text = λ n. none;
}

abbrev pub setup : Setup
setup = record {
  sensor_token = codes "s3cret";
  airwave_token = codes "airwave";
  ingest_creds = none;
  media_server_ip = 0x0a000002;
  media_server_port = 80;
  wiim_enabled = true;
  env_sensors_enabled = true;
  kasa_enabled = false;
  now_ns = pos 77;
  now_seconds = 100;
  libraries = libraries;
  web = record {
    get_text = λ url. none;
    post = λ url content action body. none;
    get_insecure = λ url. none;
  };
  iot_cidr = record { network = 0x0a000000; mask = 0xffffff00 };
  host = record { loadavg = none; meminfo = none };
}

pub state : State
state = record {
  spools = set;
  metrics = no_counts;
  env = [];
  kasa = [];
  wiim = record { inventory = []; state_file = none };
  media_server = none;
}
