-- ===== src/Api/Laws.antt =====
-- Requests without credentials, of service/src/api.rs.
use ahara_collector.Prelude.{ℕ, ◌≡◌, refl, false, List, inl, inr, ◌⊎◌}
use ahara_collector.Json.Syntax.{Floats}
use ahara_collector.Http.{Request, Response, empty}
use ahara_collector.Metrics.{inc}
use ahara_collector.Api.State.{Setup, State, Handler}
use ahara_collector.Api.Auth.{authorized_bearer, authorized_basic, unauthorized, gated}
use ahara_collector.Api.Readings.{health}
use ahara_collector.Api.Ingest.{ingest}
use ahara_collector.Api.Routes.{
  Route, to_health, to_metrics, to_devices, to_next, to_ack, to_ingest, to_wiim_devices,
  to_wiim_probe, to_media_server, to_upnp, to_linkplay, not_found, not_allowed, route, dispatch,
  handle,
}

-- The answer is the one of `/health` or an error, and nothing but counters has changed.
pub record Harmless (r : Route) (s : State) (a : Response × State) : Type 0 where
  pub refused : (r ≡ to_health) ⊎ ((a.0.status ≡ 401) ⊎ ((a.0.status ≡ 404) ⊎ (a.0.status ≡ 405)))
  pub spools : a.1.spools ≡ s.spools
  pub media_server : a.1.media_server ≡ s.media_server
  pub env : a.1.env ≡ s.env
  pub kasa : a.1.kasa ≡ s.kasa
  pub wiim : a.1.wiim ≡ s.wiim

unauthorized-Harmless : (r : Route) (s : State) → Harmless r s (unauthorized s)
unfolding unauthorized empty
unauthorized-Harmless r s = record {
  refused = inr (inl refl);
  spools = refl;
  media_server = refl;
  env = refl;
  kasa = refl;
  wiim = refl;
}

gated-Harmless :
    (r : Route) (token : List ℕ) (request : Request) (h : Handler) (s : State)
    → authorized_bearer request token ≡ false
    → Harmless r s (gated token request h s)
unfolding gated
gated-Harmless r token request h s e = rw e (unauthorized-Harmless r s)

health-Harmless :
    (fl : Floats) (setup : Setup) (s : State) → Harmless to_health s (health fl setup s)
unfolding health
health-Harmless fl setup s = record {
  refused = inl refl;
  spools = refl;
  media_server = refl;
  env = refl;
  kasa = refl;
  wiim = refl;
}

ingest-Harmless :
    (fl : Floats) (setup : Setup) (request : Request) (s : State)
    → authorized_basic setup request ≡ false
    → Harmless to_ingest s (ingest fl setup request s)
unfolding ingest
ingest-Harmless fl setup request s c = rw c (unauthorized-Harmless to_ingest s)

empty-Harmless :
    (r : Route) (status : ℕ) (s : State)
    → (status ≡ 401) ⊎ ((status ≡ 404) ⊎ (status ≡ 405))
    → Harmless r s (empty status, s)
unfolding empty
empty-Harmless r status s h = record {
  refused = inr h;
  spools = refl;
  media_server = refl;
  env = refl;
  kasa = refl;
  wiim = refl;
}

dispatch-Harmless :
    (fl : Floats) (setup : Setup) (request : Request) (r : Route) (s : State)
    → authorized_bearer request setup.sensor_token ≡ false
    → authorized_bearer request setup.airwave_token ≡ false
    → authorized_basic setup request ≡ false
    → Harmless r s (dispatch fl setup request r s)
unfolding dispatch
dispatch-Harmless fl setup request to_health s b a c = health-Harmless fl setup s
dispatch-Harmless fl setup request to_metrics s b a c = gated-Harmless _ _ request _ s b
dispatch-Harmless fl setup request to_devices s b a c = gated-Harmless _ _ request _ s b
dispatch-Harmless fl setup request to_next s b a c = gated-Harmless _ _ request _ s b
dispatch-Harmless fl setup request to_ack s b a c = gated-Harmless _ _ request _ s b
dispatch-Harmless fl setup request to_ingest s b a c = ingest-Harmless fl setup request s c
dispatch-Harmless fl setup request to_wiim_devices s b a c = gated-Harmless _ _ request _ s a
dispatch-Harmless fl setup request to_wiim_probe s b a c = gated-Harmless _ _ request _ s a
dispatch-Harmless fl setup request to_media_server s b a c = gated-Harmless _ _ request _ s a
dispatch-Harmless fl setup request (to_upnp id name) s b a c = gated-Harmless _ _ request _ s a
dispatch-Harmless fl setup request (to_linkplay id) s b a c = gated-Harmless _ _ request _ s a
dispatch-Harmless fl setup request not_found s b a c = empty-Harmless _ 404 s (inr (inl refl))
dispatch-Harmless fl setup request not_allowed s b a c = empty-Harmless _ 405 s (inr (inr refl))

-- A request that presents neither token nor the device credentials gets the answer of `/health` or
-- 401, 404 or 405, and leaves the spools, the lease and the device lists as they are.
pub handle-Harmless :
    (fl : Floats) (setup : Setup) (request : Request) (s : State)
    → authorized_bearer request setup.sensor_token ≡ false
    → authorized_bearer request setup.airwave_token ≡ false
    → authorized_basic setup request ≡ false
    → Harmless (route request) s (handle fl setup request s)
unfolding handle
handle-Harmless fl setup request s b a c =
    let counted = record s {
      metrics = record s.metrics { api_requests = inc s.metrics.api_requests };
    } in
    let h = dispatch-Harmless fl setup request (route request) counted b a c in
    record {
      refused = h.refused;
      spools = h.spools;
      media_server = h.media_server;
      env = h.env;
      kasa = h.kasa;
      wiim = h.wiim;
    }
