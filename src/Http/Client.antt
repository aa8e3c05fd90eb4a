-- ===== src/Http/Client.antt =====
-- The HTTP client of service/src/http.rs. The network is a function from the bytes that are sent to
-- an address to the bytes that come back, if any do.
use ahara_collector.Prelude.{
  ℕ, ◌^◌, Bool, ◌&&◌, Option, none, some, List, [], ◌∷◌, ◌++◌, Text, Bytes, codes, ltb,
  if◌then◌else◌, length, text_eq,
}
use ahara_collector.Prelude.Results.{Result, ok, err, ◌>>=◌, ok_or}
use ahara_collector.Prelude.Decimal.{decimal}
use ahara_collector.Prelude.Utf8.{as_bytes, from_utf8}
use ahara_collector.Prelude.Parsing.{words, parse_unsigned, to_ascii_lowercase, contains_text}
use ahara_collector.Net.{show_ipv4}
use ahara_collector.Crypto.Base64.{base64_encode}
use ahara_collector.Http.Lines.{
  HttpError, io, not_text, too_many_headers, too_large, bad_status, chunked, max_body, split_line,
  read_head,
}
use ahara_collector.Http.Server.{read_exact}

pub record ClientResponse : Type 0 where
  pub status : ℕ
  pub headers : List (Text × Text)
  pub body : Bytes

unfoldable pub same_name : Text → Text → Bool
unfolding to_ascii_lowercase text_eq
same_name a b = text_eq (to_ascii_lowercase a) (to_ascii_lowercase b)

unfoldable pub header_all : Text → List (Text × Text) → List Text
unfolding same_name
header_all name [] = []
header_all name ((key, value) ∷ headers) =
    let rest = header_all name headers in if same_name key name then value ∷ rest else rest

unfoldable pub header_lines : List (Text × Text) → Text
header_lines [] = []
header_lines ((key, value) ∷ headers) =
    key ++ codes ": " ++ value ++ codes "\r\n" ++ header_lines headers

-- What `request` sends.
unfoldable pub request_bytes : ℕ → Text → Text → List (Text × Text) → Bytes → Bytes
unfolding as_bytes show_ipv4 decimal header_lines
request_bytes ip method path extra body =
    as_bytes (
      method
      ++ codes " "
      ++ path
      ++ codes " HTTP/1.1\r\nhost: "
      ++ show_ipv4 ip
      ++ codes "\r\nconnection: close\r\ncontent-length: "
      ++ decimal (length body)
      ++ codes "\r\n"
      ++ header_lines extra
      ++ codes "\r\n")
    ++ body

-- The status is the second word of the first line.
unfoldable pub status_of : Text → Result HttpError ℕ
unfolding words parse_unsigned
status_of line = elim (words line) [
  | _ ∷ code ∷ _ ↦ ok_or (parse_unsigned (2 ^ 16) code) bad_status
  | _ ↦ err bad_status
]

-- The headers that have been read, and the length that the last `content-length` gave.
pub record Head : Type 0 where
  pub fields : List (Text × Text)
  pub content_length : Option ℕ

unfoldable pub check_count : Head → Result HttpError Head
check_count head = if ltb 64 (length head.fields) then err too_many_headers else ok head

unfoldable pub add_field : Option (Text × Text) → Head → Result HttpError Head
unfolding check_count same_name parse_unsigned contains_text to_ascii_lowercase
add_field none head = check_count head
add_field (some (key, value)) head =
    if same_name key (codes "transfer-encoding")
      && contains_text (codes "chunked") (to_ascii_lowercase value)
    then err chunked
    else check_count (record {
      fields = head.fields ++ (key, value) ∷ [];
      content_length =
          if same_name key (codes "content-length")
          then parse_unsigned (2 ^ 64) value
          else head.content_length;
    })

-- Without a length the body goes to the end of the stream.
unfoldable pub response_body : Option ℕ → Bytes → Result HttpError Bytes
unfolding read_exact
response_body none stream = if ltb max_body (length stream) then err too_large else ok stream
response_body (some n) stream = if ltb max_body n then err too_large else read_exact n stream

unfoldable pub first_line : Bytes → Result HttpError Text
unfolding from_utf8
first_line bytes = ok_or (from_utf8 bytes) not_text

unfoldable pub parse_response : Bytes → Result HttpError ClientResponse
unfolding split_line first_line status_of read_head add_field response_body
parse_response stream = do
  line ← first_line (split_line stream).0
  status ← status_of line
  (head, rest) ←
      read_head add_field [] (record { fields = []; content_length = none }) (split_line stream).1
  body ← response_body head.content_length rest
  ok (record { status = status; headers = head.fields; body = body })

abbrev pub Network : Type 0
Network = ℕ → ℕ → Bytes → Option Bytes

unfoldable pub request :
    Network → ℕ → ℕ → Text → Text → List (Text × Text) → Bytes → Result HttpError ClientResponse
unfolding request_bytes parse_response
request net ip port method path extra body =
    ok_or (net ip port (request_bytes ip method path extra body)) io >>= parse_response

unfoldable pub basic_auth_header : Text → Text → Text × Text
unfolding base64_encode as_bytes
basic_auth_header username password =
    (codes "authorization", codes "Basic " ++ base64_encode (as_bytes (username ++ 58 ∷ password)))
