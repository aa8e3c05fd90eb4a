-- ===== src/Api/Auth.antt =====
-- The authorization of requests in service/src/api.rs.
pub mod Laws
use ahara_collector.Prelude.{
  Bool, false, Option, none, some, ◌∷◌, ◌++◌, Text, Bytes, codes, strip_prefix, if◌then◌else◌,
}
use ahara_collector.Prelude.Results.{ok, err}
use ahara_collector.Prelude.Utf8.{as_bytes}
use ahara_collector.Prelude.Parsing.{trim}
use ahara_collector.Crypto.Compare.{eq_constant_time}
use ahara_collector.Crypto.Base64.{base64_decode}
use ahara_collector.Config.{BasicCredentials}
use ahara_collector.Maps.{lookup}
use ahara_collector.Http.{Request, empty}
use ahara_collector.Metrics.{inc}
use ahara_collector.Api.State.{Setup, Handler}

-- What follows the scheme in the header.
unfoldable pub presented : Text → Request → Option Text
unfolding lookup strip_prefix
presented scheme request = elim (lookup (codes "authorization") request.headers) [
  | none ↦ none
  | some header ↦ strip_prefix scheme header
]

unfoldable pub authorized_bearer : Request → Bytes → Bool
authorized_bearer request token = elim (presented (codes "Bearer ") request) [
  | none ↦ false
  | some s ↦ eq_constant_time (as_bytes (trim s)) token
]

unfoldable pub expected : BasicCredentials → Text
expected creds = creds.username ++ 58 ∷ creds.password

unfoldable pub basic_matches : BasicCredentials → Text → Bool
basic_matches creds encoded = elim (base64_decode (as_bytes (trim encoded))) [
  | err e ↦ false
  | ok decoded ↦ eq_constant_time decoded (as_bytes (expected creds))
]

unfoldable pub authorized_basic : Setup → Request → Bool
authorized_basic setup request = elim setup.ingest_creds [
  | none ↦ false
  | some creds ↦ elim (presented (codes "Basic ") request) [
    | none ↦ false
    | some encoded ↦ basic_matches creds encoded
  ]
]

unfoldable pub unauthorized : Handler
unauthorized s = (
  empty 401,
  record s { metrics = record s.metrics { api_unauthorized = inc s.metrics.api_unauthorized } },
)

-- `gated` and `gated_airwave`, by the token that they ask for.
unfoldable pub gated : Bytes → Request → Handler → Handler
gated token request handler s =
    if authorized_bearer request token then handler s else unauthorized s
