-- ===== src/Http/Lines.antt =====
-- What the reader of requests and the reader of responses of service/src/http.rs share: lines of a
-- stream, each of which may be a header.
use ahara_collector.Prelude.{
  ℕ, true, false, Option, none, some, [], ◌∷◌, ◌++◌, Text, Bytes, ◌==◌, if◌then◌else◌, is_empty,
  split_once,
}
use ahara_collector.Prelude.Results.{Result, ok, err}
use ahara_collector.Prelude.Utf8.{from_utf8}
use ahara_collector.Prelude.Parsing.{trim, trim_end}

pub data HttpError : Type 0 where
  io not_text empty_line no_target too_many_headers bad_content_length too_large bad_status
        chunked :
      HttpError

abbrev pub max_body : ℕ
max_body = 1048576

-- `read_line`: up to and with the next line feed, or to the end of the stream.
unfoldable pub split_line : Bytes → Bytes × Bytes
split_line [] = ([], [])
split_line (c ∷ s) =
    let (line, rest) = split_line s in if c == 10 then (c ∷ [], s) else (c ∷ line, rest)

-- The key and the value of a header line, if it has a colon.
unfoldable pub header_of : Text → Option (Text × Text)
unfolding split_once trim
header_of line = elim (split_once 58 line) [
  | none ↦ none
  | some (key, value) ↦ some (trim key, trim value)
]

-- What one line of the head does to what has been read: it ends the head, goes on, or fails.
pub data Line (S : Type 0) : Type 0 where
  last : Line S
  more : S → Line S
  failed : HttpError → Line S

module _ {S : Type 0} (add : Option (Text × Text) → S → Result HttpError S) where
  unfoldable pub read_header : Bytes → S → Line S
  unfolding from_utf8 trim_end header_of
  read_header bytes s = elim (from_utf8 bytes) [
    | none ↦ failed not_text
    | some line ↦
        if is_empty (trim_end line)
        then last
        else elim (add (header_of (trim_end line)) s) [ ok s' ↦ more s' | err e ↦ failed e ]
  ]

  -- The loop over the lines: `line` is what has been read of the one at hand. The end of the stream
  -- ends the last line, and the empty line that is read behind it ends the head.
  unfoldable pub read_head : Bytes → S → Bytes → Result HttpError (S × Bytes)
  unfolding read_header
  read_head line s [] = elim (read_header line s) [
    | last ↦ ok (s, [])
    | more s' ↦ ok (s', [])
    | failed e ↦ err e
  ]
  read_head line s (c ∷ rest) = elim (c == 10) [
    | false ↦ read_head (line ++ c ∷ []) s rest
    | true ↦ elim (read_header (line ++ c ∷ []) s) [
      | last ↦ ok (s, rest)
      | more s' ↦ read_head [] s' rest
      | failed e ↦ err e
    ]
  ]
