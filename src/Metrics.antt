-- ===== src/Metrics.antt =====
-- The counters of service/src/metrics.rs and their text for Prometheus.
pub mod Gauges
use ahara_collector.Prelude.{ℕ, ◌+◌, ◌%◌, ◌^◌, List, [], ◌∷◌, ◌++◌, Text, codes}
use ahara_collector.Prelude.Decimal.{decimal}
use ahara_collector.Metrics.Gauges.{Host, host_gauges}
use ahara_collector.Spool.Model.{SpoolStats}

pub record Metrics : Type 0 where
  pub wiim_media_searches : ℕ
  pub wiim_media_replies : ℕ
  pub wiim_media_dropped : ℕ
  pub wiim_discovery_runs : ℕ
  pub wiim_discovery_failed : ℕ
  pub wiim_descriptions_failed : ℕ
  pub wiim_devices : ℕ
  pub wiim_reachable_devices : ℕ
  pub wiim_proxy_requests : ℕ
  pub wiim_proxy_failed : ℕ
  pub wiim_probes : ℕ
  pub wiim_media_registrations : ℕ
  pub env_discovery_runs : ℕ
  pub env_devices : ℕ
  pub env_polls_ok : ℕ
  pub env_polls_failed : ℕ
  pub kasa_discovery_runs : ℕ
  pub kasa_devices : ℕ
  pub kasa_polls_ok : ℕ
  pub kasa_polls_failed : ℕ
  pub spool_lines_written : ℕ
  pub ingest_lines_accepted : ℕ
  pub ingest_lines_rejected : ℕ
  pub api_requests : ℕ
  pub api_unauthorized : ℕ
  pub batches_served : ℕ
  pub batches_acked : ℕ

-- `Metrics::default`
abbrev pub no_counts : Metrics
no_counts = record {
  wiim_media_searches = 0;
  wiim_media_replies = 0;
  wiim_media_dropped = 0;
  wiim_discovery_runs = 0;
  wiim_discovery_failed = 0;
  wiim_descriptions_failed = 0;
  wiim_devices = 0;
  wiim_reachable_devices = 0;
  wiim_proxy_requests = 0;
  wiim_proxy_failed = 0;
  wiim_probes = 0;
  wiim_media_registrations = 0;
  env_discovery_runs = 0;
  env_devices = 0;
  env_polls_ok = 0;
  env_polls_failed = 0;
  kasa_discovery_runs = 0;
  kasa_devices = 0;
  kasa_polls_ok = 0;
  kasa_polls_failed = 0;
  spool_lines_written = 0;
  ingest_lines_accepted = 0;
  ingest_lines_rejected = 0;
  api_requests = 0;
  api_unauthorized = 0;
  batches_served = 0;
  batches_acked = 0;
}

-- A counter is a `u64`, and `fetch_add` wraps around.
unfoldable pub inc : ℕ → ℕ
inc n = (n + 1) % 2 ^ 64

-- `inc` so many times.
unfoldable pub inc_by : ℕ → ℕ → ℕ
inc_by k n = (n + k) % 2 ^ 64

-- One line of the output.
unfoldable pub emit : Text → ℕ → Text
unfolding decimal
emit name value = name ++ 32 ∷ decimal value ++ 10 ∷ []

unfoldable pub emit_all : List (Text × ℕ) → Text
unfolding emit
emit_all [] = []
emit_all ((name, value) ∷ rest) = emit name value ++ emit_all rest

unfoldable pub counters : Metrics → List (Text × ℕ)
counters m =
    (codes "collector_wiim_media_searches_total", m.wiim_media_searches)
    ∷ (codes "collector_wiim_media_replies_total", m.wiim_media_replies)
    ∷ (codes "collector_wiim_media_dropped_total", m.wiim_media_dropped)
    ∷ (codes "collector_wiim_discovery_runs_total", m.wiim_discovery_runs)
    ∷ (codes "collector_wiim_discovery_failed_total", m.wiim_discovery_failed)
    ∷ (codes "collector_wiim_descriptions_failed_total", m.wiim_descriptions_failed)
    ∷ (codes "collector_wiim_devices", m.wiim_devices)
    ∷ (codes "collector_wiim_reachable_devices", m.wiim_reachable_devices)
    ∷ (codes "collector_wiim_proxy_requests_total", m.wiim_proxy_requests)
    ∷ (codes "collector_wiim_proxy_failed_total", m.wiim_proxy_failed)
    ∷ (codes "collector_wiim_probes_total", m.wiim_probes)
    ∷ (codes "collector_wiim_media_registrations_total", m.wiim_media_registrations)
    ∷ (codes "collector_env_discovery_runs_total", m.env_discovery_runs)
    ∷ (codes "collector_env_devices", m.env_devices)
    ∷ (codes "collector_env_polls_ok_total", m.env_polls_ok)
    ∷ (codes "collector_env_polls_failed_total", m.env_polls_failed)
    ∷ (codes "collector_kasa_discovery_runs_total", m.kasa_discovery_runs)
    ∷ (codes "collector_kasa_devices", m.kasa_devices)
    ∷ (codes "collector_kasa_polls_ok_total", m.kasa_polls_ok)
    ∷ (codes "collector_kasa_polls_failed_total", m.kasa_polls_failed)
    ∷ (codes "collector_spool_lines_written_total", m.spool_lines_written)
    ∷ (codes "collector_ingest_lines_accepted_total", m.ingest_lines_accepted)
    ∷ (codes "collector_ingest_lines_rejected_total", m.ingest_lines_rejected)
    ∷ (codes "collector_api_requests_total", m.api_requests)
    ∷ (codes "collector_api_unauthorized_total", m.api_unauthorized)
    ∷ (codes "collector_batches_served_total", m.batches_served)
    ∷ (codes "collector_batches_acked_total", m.batches_acked)
    ∷ []

unfoldable pub gauges : SpoolStats → List (Text × ℕ)
gauges stats =
    (codes "collector_spool_bytes", stats.total_bytes)
    ∷ (codes "collector_spool_closed_segments", stats.closed_segments)
    ∷ (codes "collector_spool_dropped_segments_total", stats.dropped_segments)
    ∷ []

unfoldable pub render : Metrics → SpoolStats → Host → Text
unfolding counters gauges emit_all host_gauges
render m stats host = emit_all (counters m) ++ emit_all (gauges stats) ++ host_gauges host
