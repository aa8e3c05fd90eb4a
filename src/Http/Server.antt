-- ===== src/Http/Server.antt =====
-- `read_request` of service/src/http.rs, from the bytes that the connection sends.
use ahara_collector.Prelude.{
  ℕ, ◌^◌, Option, none, some, List, [], ◌∷◌, Text, Bytes, codes, ltb, if◌then◌else◌, length, take,
  split_once,
}
use ahara_collector.Prelude.Results.{Result, ok, err, ◌>>=◌, ok_or}
use ahara_collector.Prelude.Utf8.{from_utf8}
use ahara_collector.Prelude.Parsing.{words, split, filled, parse_unsigned, to_ascii_lowercase}
use ahara_collector.Maps.{insert_key, lookup}
use ahara_collector.Http.{Request}
use ahara_collector.Http.Lines.{
  HttpError, io, not_text, empty_line, no_target, too_many_headers, bad_content_length, too_large,
  max_body, split_line, read_head,
}

abbrev pub Headers : Type 0
Headers = List (Text × Text)

-- A header's key is put in lower case; a later one of the same key replaces it.
unfoldable pub add_header : Option (Text × Text) → Headers → Result HttpError Headers
unfolding insert_key to_ascii_lowercase
add_header none headers = if ltb 64 (length headers) then err too_many_headers else ok headers
add_header (some (key, value)) headers =
    let headers' = insert_key (to_ascii_lowercase key) value headers in
    if ltb 64 (length headers') then err too_many_headers else ok headers'

-- The path and the query text of a target.
unfoldable pub split_target : Text → Text × Text
unfolding split_once
split_target target = elim (split_once 63 target) [ none ↦ (target, []) | some pq ↦ pq ]

unfoldable pub split_pair : Text → Text × Text
unfolding split_once
split_pair pair = elim (split_once 61 pair) [ none ↦ (pair, []) | some kv ↦ kv ]

unfoldable pub insert_pairs : List Text → List (Text × Text) → List (Text × Text)
unfolding split_pair insert_key
insert_pairs [] query = query
insert_pairs (pair ∷ pairs) query =
    let (key, value) = split_pair pair in insert_pairs pairs (insert_key key value query)

unfoldable pub parse_query : Text → List (Text × Text)
unfolding insert_pairs filled split
parse_query text = insert_pairs (filled (split 38 text)) []

unfoldable pub content_length : Headers → Result HttpError ℕ
unfolding lookup parse_unsigned
content_length headers = elim (lookup (codes "content-length") headers) [
  | none ↦ ok 0
  | some v ↦ ok_or (parse_unsigned (2 ^ 64) v) bad_content_length
]

-- `read_exact`
unfoldable pub read_exact : ℕ → Bytes → Result HttpError Bytes
read_exact n stream = if ltb (length stream) n then err io else ok (take n stream)

-- The method and the target of the request line.
unfoldable pub request_line : Bytes → Result HttpError (Text × Text)
unfolding from_utf8 words
request_line bytes = elim (from_utf8 bytes) [
  | none ↦ err not_text
  | some line ↦ elim (words line) [
    | [] ↦ err empty_line
    | method ∷ [] ↦ err no_target
    | method ∷ target ∷ _ ↦ ok (method, target)
  ]
]

unfoldable pub read_body : ℕ → Bytes → Result HttpError Bytes
unfolding read_exact
read_body n stream = if ltb max_body n then err too_large else read_exact n stream

unfoldable pub read_request : Bytes → Result HttpError Request
unfolding split_line request_line split_target read_head add_header content_length read_body
    parse_query
read_request stream = do
  (method, target) ← request_line (split_line stream).0
  (headers, rest) ← read_head add_header [] [] (split_line stream).1
  n ← content_length headers
  body ← read_body n rest
  ok (record {
    method = method;
    path = (split_target target).0;
    raw_query = (split_target target).1;
    query = parse_query (split_target target).1;
    headers = headers;
    body = body;
  })
