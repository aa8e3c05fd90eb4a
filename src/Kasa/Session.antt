-- ===== src/Kasa/Session.antt =====
-- The KLAP session of service/src/kasa.rs. A sequence number, an `i32`, is given by its 32 bits.
use ahara_collector.Prelude.{
  ℕ, ◌+◌, ◌^◌, ◌%◌, ◌==◌, Option, none, some, List, [], ◌∷◌, ◌++◌, Text, Bytes, codes, length, ltb,
  take, drop, get_or, if◌then◌else◌,
}
use ahara_collector.Prelude.Int.{ℤ, pos, negsuc, sub_ℕ}
use ahara_collector.Prelude.Results.{Result, ok, err, ◌>>=◌, ok_or, map_err}
use ahara_collector.Prelude.Utf8.{as_bytes, from_utf8}
use ahara_collector.Prelude.Parsing.{split, trim, starts_with}
use ahara_collector.Json.Syntax.{Floats, Json, get, as_i64}
use ahara_collector.Json.Printer.{print_int}
use ahara_collector.Config.{BasicCredentials}
use ahara_collector.Crypto.Words.{from_be_bytes, word_bytes}
use ahara_collector.Crypto.Hash.{sha1, sha256}
use ahara_collector.Crypto.Cbc.{CipherError, aes128_cbc_encrypt, aes128_cbc_decrypt}
use ahara_collector.Crypto.Compare.{eq_constant_time}
use ahara_collector.Http.Lines.{HttpError}
use ahara_collector.Http.Client.{Network, ClientResponse, header_all, request}
use ahara_collector.Sensors.{document_of}

unfoldable pub auth_hash : BasicCredentials → Bytes
unfolding sha1 sha256 as_bytes
auth_hash creds = sha256 (sha1 (as_bytes creds.username) ++ sha1 (as_bytes creds.password))

pub record KlapKeys : Type 0 where
  pub key : Bytes
  pub iv : Bytes
  pub sig : Bytes
  pub seq : ℕ

unfoldable pub material : Text → Bytes → Bytes → Bytes → Bytes
unfolding sha256
material label local_seed remote_seed auth = sha256 (label ++ local_seed ++ remote_seed ++ auth)

-- The word in the last four of 32 bytes.
unfoldable pub last_word : Bytes → ℕ
unfolding from_be_bytes
last_word b = from_be_bytes (get_or b 28 0) (get_or b 29 0) (get_or b 30 0) (get_or b 31 0)

unfoldable pub derive_keys : Bytes → Bytes → Bytes → KlapKeys
unfolding material last_word
derive_keys local_seed remote_seed auth =
    let iv_full = material (codes "iv") local_seed remote_seed auth in
    record {
      key = take 16 (material (codes "lsk") local_seed remote_seed auth);
      iv = take 12 iv_full;
      sig = take 28 (material (codes "ldk") local_seed remote_seed auth);
      seq = last_word iv_full;
    }

unfoldable pub session_iv : KlapKeys → ℕ → Bytes
unfolding word_bytes
session_iv keys seq = keys.iv ++ word_bytes seq

unfoldable pub encrypt_payload : KlapKeys → ℕ → Bytes → Bytes
unfolding session_iv aes128_cbc_encrypt sha256 word_bytes
encrypt_payload keys seq plaintext =
    let cipher = aes128_cbc_encrypt keys.key (session_iv keys seq) plaintext in
    sha256 (keys.sig ++ word_bytes seq ++ cipher) ++ cipher

pub data KlapError : Type 0 where
  too_short hash_mismatch no_cookie not_text bad_json no_fields : KlapError
  network : HttpError → KlapError
  cipher : CipherError → KlapError
  bad_answer : ℕ → KlapError
  device_error : ℤ → KlapError

unfoldable pub decrypt_payload : KlapKeys → ℕ → Bytes → Result KlapError Bytes
unfolding session_iv aes128_cbc_decrypt
decrypt_payload keys seq payload =
    if ltb (length payload) 32
    then err too_short
    else map_err cipher (aes128_cbc_decrypt keys.key (session_iv keys seq) (drop 32 payload))

pub record KlapSession : Type 0 where
  pub ip : ℕ
  pub port : ℕ
  pub cookie : Text
  pub keys : KlapKeys

-- The first part of a cookie header that is the session's.
unfoldable pub session_part : List Text → Option Text
unfolding trim starts_with
session_part [] = none
session_part (part ∷ parts) =
    let rest = session_part parts in
    if starts_with (codes "TP_SESSIONID=") (trim part) then some (trim part) else rest

unfoldable pub session_cookie : List Text → Option Text
unfolding session_part split
session_cookie [] = none
session_cookie (c ∷ cs) = elim (session_part (split 59 c)) [
  | some cookie ↦ some cookie
  | none ↦ session_cookie cs
]

-- A response with the status 200.
unfoldable pub fine : Result HttpError ClientResponse → Result KlapError ClientResponse
fine (err e) = err (network e)
fine (ok r) = if r.status == 200 then ok r else err (bad_answer r.status)

-- The seed of the device, if its hash shows that it knows the credentials.
unfoldable pub check_handshake : Bytes → Bytes → Bytes → Result KlapError Bytes
unfolding sha256 eq_constant_time
check_handshake local_seed auth body =
    if ltb (length body) 48
    then err too_short
    else if eq_constant_time (sha256 (local_seed ++ take 16 body ++ auth)) (take 32 (drop 16 body))
    then ok (take 16 body)
    else err hash_mismatch

unfoldable pub establish : Network → ℕ → ℕ → BasicCredentials → Bytes → Result KlapError KlapSession
unfolding auth_hash fine check_handshake session_cookie header_all sha256 derive_keys request
establish net ip port creds local_seed = do
  h1 ← fine (request net ip port (codes "POST") (codes "/app/handshake1") [] local_seed)
  remote_seed ← check_handshake local_seed (auth_hash creds) h1.body
  cookie ← ok_or (session_cookie (header_all (codes "set-cookie") h1.headers)) no_cookie
  h2 ← fine (
      request net ip port (codes "POST") (codes "/app/handshake2") ((codes "cookie", cookie) ∷ [])
        (sha256 (remote_seed ++ local_seed ++ auth_hash creds)))
  ok (record {
    ip = ip;
    port = port;
    cookie = cookie;
    keys = derive_keys local_seed remote_seed (auth_hash creds);
  })

-- The `i32` of 32 bits, as it is printed.
unfoldable pub show_i32 : ℕ → Text
unfolding print_int
show_i32 n = print_int (if ltb n (2 ^ 31) then pos n else sub_ℕ n (2 ^ 32))

unfoldable pub next_seq : KlapSession → KlapSession
next_seq s = record s { keys = record s.keys { seq = (s.keys.seq + 1) % 2 ^ 32 } }

module _ (fl : Floats) where
  -- An error code that is there and is not zero is an error.
  unfoldable pub check_code : Json fl.F64 → Result KlapError (Json fl.F64)
  unfolding get as_i64
  check_code doc = elim (get doc (codes "error_code")) [
    | none ↦ ok doc
    | some v ↦ elim (as_i64 v) [
      | none ↦ ok doc
      | some (pos n) ↦ if n == 0 then ok doc else err (device_error (pos n))
      | some (negsuc n) ↦ err (device_error (negsuc n))
    ]
  ]

  unfoldable pub read_answer : KlapKeys → Bytes → Result KlapError (Json fl.F64)
  unfolding decrypt_payload from_utf8 document_of check_code
  read_answer keys body = do
    plain ← decrypt_payload keys keys.seq body
    text ← ok_or (from_utf8 plain) not_text
    doc ← ok_or (document_of fl text) bad_json
    check_code doc

  unfoldable pub exchange : Network → KlapSession → Text → Result KlapError (Json fl.F64)
  unfolding request encrypt_payload show_i32 as_bytes fine read_answer
  exchange net s body = do
    r ← fine (
        request net s.ip s.port (codes "POST") (codes "/app/request?seq=" ++ show_i32 s.keys.seq)
          ((codes "cookie", s.cookie) ∷ []) (encrypt_payload s.keys s.keys.seq (as_bytes body)))
    read_answer s.keys r.body

  -- The sequence number goes up first, and stays so also where the exchange fails.
  unfoldable pub execute :
      Network → Text → KlapSession → Result KlapError (Json fl.F64) × KlapSession
  unfolding next_seq exchange
  execute net body s = (exchange net (next_seq s) body, next_seq s)
