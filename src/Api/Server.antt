-- ===== src/Api/Server.antt =====
-- One connection of the accept loop of service/src/api.rs, from its bytes to the bytes of the answer.
pub mod Laws
use ahara_collector.Prelude.{Bytes}
use ahara_collector.Prelude.Results.{ok, err}
use ahara_collector.Json.Syntax.{Floats}
use ahara_collector.Http.{Response, Request, empty, response_bytes}
use ahara_collector.Http.Server.{read_request}
use ahara_collector.Api.State.{Setup, State}
use ahara_collector.Api.Routes.{handle}

-- The answer to what was read.
unfoldable pub connection : Floats → Setup → Bytes → State → Bytes × State
unfolding read_request handle response_bytes empty
connection fl setup stream s = elim (read_request stream) [
  | err e ↦ (response_bytes (empty 400), s)
  | ok request ↦ let (response, s') = handle fl setup request s in (response_bytes response, s')
]
