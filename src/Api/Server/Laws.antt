-- ===== src/Api/Server/Laws.antt =====
-- Connections without credentials, of service/src/api.rs.
use ahara_collector.Prelude.{
  ℕ, ap, subst, ◌∙◌, Option, none, some, ◌≡◌, refl, false, ◌⊎◌, inl, inr, Bytes,
}
use ahara_collector.Prelude.Results.{ok, err, Result-cases}
use ahara_collector.Json.Syntax.{Floats}
use ahara_collector.Http.{Request, Response, empty, response_bytes}
use ahara_collector.Http.Lines.{HttpError}
use ahara_collector.Http.Server.{read_request}
use ahara_collector.Metrics.{inc}
use ahara_collector.Api.Readings.{health}
use ahara_collector.Api.Ingest.{ingest}
use ahara_collector.Http.Bounds.{Sized, read_request-Sized}
use ahara_collector.Api.State.{Setup, State, Handler}
use ahara_collector.Api.Auth.{authorized_bearer, authorized_basic, unauthorized, gated}
use ahara_collector.Api.Routes.{
  Route, to_health, to_metrics, to_devices, to_next, to_ack, to_ingest, to_wiim_devices,
  to_wiim_probe, to_media_server, to_upnp, to_linkplay, not_found, not_allowed, route, dispatch,
  handle,
}
use ahara_collector.Api.Laws.{Harmless, handle-Harmless}
use ahara_collector.Api.Server.{connection}

-- A request that none of the credentials authorizes.
pub record IsUnauthorized (setup : Setup) (request : Request) : Type 0 where
  pub sensor : authorized_bearer request setup.sensor_token ≡ false
  pub airwave : authorized_bearer request setup.airwave_token ≡ false
  pub basic : authorized_basic setup request ≡ false

-- The status of the refusal of each route but `/health`: a route that is there needs credentials.
unfoldable pub refusal : Route → Option ℕ
refusal to_health = none
refusal not_found = some 404
refusal not_allowed = some 405
refusal _ = some 401

-- What a request without credentials is answered.
unfoldable pub answer_without : Floats → Setup → State → Route → Response
unfolding refusal
answer_without fl setup s r = elim (refusal r) [
  | none ↦ (health fl setup s).0
  | some status ↦ empty status
]

gated-empty :
    (token : Bytes) (request : Request) (h : Handler) (s : State)
    → authorized_bearer request token ≡ false
    → (gated token request h s).0 ≡ empty 401
unfolding gated unauthorized
gated-empty token request h s e = rw e

ingest-empty :
    (fl : Floats) (setup : Setup) (request : Request) (s : State)
    → authorized_basic setup request ≡ false
    → (ingest fl setup request s).0 ≡ empty 401
unfolding ingest unauthorized
ingest-empty fl setup request s e = rw e

dispatch-answer_without :
    (fl : Floats) (setup : Setup) (request : Request) (r : Route) (s : State)
    → IsUnauthorized setup request
    → (dispatch fl setup request r s).0 ≡ answer_without fl setup s r
unfolding dispatch answer_without refusal
dispatch-answer_without fl setup request to_health s u = refl
dispatch-answer_without fl setup request to_metrics s u = gated-empty _ request _ s u.sensor
dispatch-answer_without fl setup request to_devices s u = gated-empty _ request _ s u.sensor
dispatch-answer_without fl setup request to_next s u = gated-empty _ request _ s u.sensor
dispatch-answer_without fl setup request to_ack s u = gated-empty _ request _ s u.sensor
dispatch-answer_without fl setup request to_ingest s u = ingest-empty fl setup request s u.basic
dispatch-answer_without fl setup request to_wiim_devices s u = gated-empty _ request _ s u.airwave
dispatch-answer_without fl setup request to_wiim_probe s u = gated-empty _ request _ s u.airwave
dispatch-answer_without fl setup request to_media_server s u = gated-empty _ request _ s u.airwave
dispatch-answer_without fl setup request (to_upnp id name) s u = gated-empty _ request _ s u.airwave
dispatch-answer_without fl setup request (to_linkplay id) s u = gated-empty _ request _ s u.airwave
dispatch-answer_without fl setup request not_found s u = refl
dispatch-answer_without fl setup request not_allowed s u = refl

-- A request is counted before it is dispatched.
abbrev counted : State → State
counted s = record s { metrics = record s.metrics { api_requests = inc s.metrics.api_requests } }

uncounted :
    (fl : Floats) (setup : Setup) (s : State) (r : Route)
    → answer_without fl setup (counted s) r ≡ answer_without fl setup s r
unfolding answer_without health
uncounted fl setup s r = refl

handle-answer_without :
    (fl : Floats) (setup : Setup) (request : Request) (s : State)
    → IsUnauthorized setup request
    → (handle fl setup request s).0 ≡ answer_without fl setup s (route request)
unfolding handle
handle-answer_without fl setup request s u =
    dispatch-answer_without fl setup request (route request) (counted s) u
    ∙ uncounted fl setup s (route request)

-- A request was read and answered, by its route, without a change that matters.
pub record Answered (fl : Floats) (setup : Setup) (s : State) (stream : Bytes) (r : Bytes × State)
    : Type 0 where
  pub request : Request
  pub read : read_request stream ≡ ok request
  pub sized : Sized request
  pub written : r.0 ≡ response_bytes (answer_without fl setup s (route request))
  pub harmless : Harmless (route request) s (answer_without fl setup s (route request), r.1)

-- The bytes are no request, and are answered with the status 400.
pub record Refused (s : State) (stream : Bytes) (r : Bytes × State) : Type 0 where
  pub error : HttpError
  pub unread : read_request stream ≡ err error
  pub answered : r ≡ (response_bytes (empty 400), s)

-- Every stream without valid credentials has a known answer. If its bytes are no request, it is the
-- status 400, and nothing changes at all. If they are one, which is within the bounds of a request, it
-- is the answer of `/health` on that route, 404 or 405 where there is no route, and 401 on each other
-- route, and nothing changes but counters.
pub connection-Answered :
    (fl : Floats) (setup : Setup) (stream : Bytes) (s : State)
    → ((request : Request) → read_request stream ≡ ok request → IsUnauthorized setup request)
    → Refused s stream (connection fl setup stream s)
      ⊎ Answered fl setup s stream (connection fl setup stream s)
unfolding connection
connection-Answered fl setup stream s h = elim (Result-cases (read_request stream)) [
  | inr (e, p) ↦ inl (record { error = e; unread = p; answered = rw (p, connection) refl })
  | inl (request, p) ↦
      let u = h request p in
      let answer = handle-answer_without fl setup request s u in
      let harmless = handle-Harmless fl setup request s u.sensor u.airwave u.basic in
      inr (
        rw (p, connection)
          (record {
            request = request;
            read = p;
            sized = read_request-Sized stream request p;
            written = ap response_bytes answer;
            harmless =
                subst (λ a. Harmless (route request) s (a, (handle fl setup request s).1)) answer
                  harmless;
          }))
]
