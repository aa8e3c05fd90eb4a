-- ===== src/Http.antt =====
-- Requests and responses of service/src/http.rs, as the API sees them, and the bytes of a response.
pub mod Lines
pub mod Server
pub mod Client
pub mod Bounds
use ahara_collector.Prelude.{ℕ, List, [], ◌++◌, Text, Bytes, codes, length, ◌==◌, if◌then◌else◌}
use ahara_collector.Prelude.Decimal.{decimal}
use ahara_collector.Prelude.Utf8.{as_bytes}

pub record Request : Type 0 where
  pub method : Text
  pub path : Text
  pub raw_query : Text
  pub query : List (Text × Text)
  pub headers : List (Text × Text)
  pub body : Bytes

pub record Response : Type 0 where
  pub status : ℕ
  pub content_type : Text
  pub body : Bytes

unfoldable pub json_response : ℕ → Text → Response
unfolding as_bytes
json_response status body = record {
  status = status;
  content_type = codes "application/json";
  body = as_bytes body;
}

unfoldable pub text_response : ℕ → Text → Response
unfolding as_bytes
text_response status body = record {
  status = status;
  content_type = codes "text/plain; charset=utf-8";
  body = as_bytes body;
}

unfoldable pub empty : ℕ → Response
empty status = record {
  status = status;
  content_type = codes "text/plain; charset=utf-8";
  body = [];
}

unfoldable pub status_phrase : ℕ → Text
status_phrase status =
    if status == 200
    then codes "OK"
    else if status == 204
    then codes "No Content"
    else if status == 400
    then codes "Bad Request"
    else if status == 401
    then codes "Unauthorized"
    else if status == 403
    then codes "Forbidden"
    else if status == 404
    then codes "Not Found"
    else if status == 405
    then codes "Method Not Allowed"
    else if status == 413
    then codes "Payload Too Large"
    else if status == 502
    then codes "Bad Gateway"
    else codes "Internal Server Error"

-- What `write_response` writes.
unfoldable pub response_bytes : Response → Bytes
unfolding status_phrase decimal as_bytes
response_bytes r =
    as_bytes (
      codes "HTTP/1.1 "
      ++ decimal r.status
      ++ codes " "
      ++ status_phrase r.status
      ++ codes "\r\ncontent-type: "
      ++ r.content_type
      ++ codes "\r\ncontent-length: "
      ++ decimal (length r.body)
      ++ codes
          "\r\nx-content-type-options: nosniff\r\ncache-control: no-store\r\nconnection: close\r\n\r\n")
    ++ r.body
