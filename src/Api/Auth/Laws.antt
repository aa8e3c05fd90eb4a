-- ===== src/Api/Auth/Laws.antt =====
-- The header of `basic_auth_header` of service/src/http.rs before `authorized_basic` of
-- service/src/api.rs.
use ahara_collector.Prelude.{
  ℕ, ◌%◌, ◌<◌, ◌≡◌, ◌↔◌, refl, ap, ◌∙◌, Bool, true, ◌&&◌, [], ◌∷◌, ◌++◌, some, Text, Bytes, All,
  codes, all, leb, ltb, get_or, arith, holds_up_to, Bool-cases, inl, inr, holds_up_to_lem,
  strip_prefix-append,
}
use ahara_collector.Prelude.Utf8.{encode_char, as_bytes}
use ahara_collector.Prelude.Parsing.{is_whitespace, trim_start, trim_end, trim}
use ahara_collector.Crypto.Base64.{b64, sextet, base64_encode}
use ahara_collector.Crypto.Base64Laws.{base64_decode-base64_encode}
use ahara_collector.Crypto.Compare.{eq_constant_time}
use ahara_collector.Crypto.CompareLaws.{eq_constant_time_lem}
use ahara_collector.Config.{BasicCredentials}
use ahara_collector.Maps.{lookup}
use ahara_collector.Http.{Request}
use ahara_collector.Http.Client.{basic_auth_header}
use ahara_collector.Api.State.{Setup}
use ahara_collector.Api.Auth.{presented, expected, basic_matches, authorized_basic}

is_plain : ℕ → Bool
is_plain c = leb 33 c && ltb c 127

plain_table : holds_up_to (λ v. is_plain (get_or b64 v 0)) 64 ≡ true
unfolding holds_up_to is_plain
plain_table = refl

sextet_plain : (n : ℕ) → is_plain (sextet n) ≡ true
unfolding sextet
sextet_plain n = holds_up_to_lem _ 64 (n % 64) (omega arith) plain_table

padding_plain : is_plain 61 ≡ true
unfolding is_plain
padding_plain = refl

base64_encode-plain : (d : Bytes) → all is_plain (base64_encode d) ≡ true
unfolding all base64_encode
base64_encode-plain [] = refl
base64_encode-plain (a ∷ []) = simp (sextet_plain, padding_plain)
base64_encode-plain (a ∷ b ∷ []) = simp (sextet_plain, padding_plain)
base64_encode-plain (a ∷ b ∷ c ∷ rest) = simp (sextet_plain, base64_encode-plain rest)

plain-whitespace : (c : ℕ) → is_plain c ≡ true → is_whitespace c ≡ Bool.false
unfolding is_plain is_whitespace
plain-whitespace c h = ground (arith, h)

trim_start-plain : (s : Text) → all is_plain s ≡ true → trim_start s ≡ s
unfolding all trim_start
trim_start-plain [] h = refl
trim_start-plain (c ∷ s) h = rw (plain-whitespace c (ground (arith, h))) refl

trim_end-plain : (s : Text) → all is_plain s ≡ true → trim_end s ≡ s
unfolding all trim_end
trim_end-plain [] h = refl
trim_end-plain (c ∷ []) h = rw (plain-whitespace c (ground (arith, h))) refl
trim_end-plain (c ∷ d ∷ s) h = rw (trim_end-plain (d ∷ s) (ground (arith, h)), trim_end) refl

trim-plain : (s : Text) → all is_plain s ≡ true → trim s ≡ s
unfolding trim
trim-plain s h = ap trim_end (trim_start-plain s h) ∙ trim_end-plain s h

as_bytes-plain : (s : Text) → all is_plain s ≡ true → as_bytes s ≡ s
unfolding all as_bytes encode_char is_plain
as_bytes-plain [] h = refl
as_bytes-plain (c ∷ s) h = ground (arith, h, as_bytes-plain s)

-- The characters of a Rust text are scalar values, so that its bytes are bytes.
abbrev pub IsText : Text → Type 0
IsText s = All (λ c. c < 0x110000) s

encode_char-bytes :
    (c : ℕ) (s : Bytes)
    → c < 0x110000
    → All (λ b. b < 256) s
    → All (λ b. b < 256) (encode_char c ++ s)
unfolding encode_char
encode_char-bytes c s h t = elim (Bool-cases (ltb c 0x80)) [
  | inl e ↦ rw e (ground arith, t)
  | inr e ↦ elim (Bool-cases (ltb c 0x800)) [
    | inl f ↦ rw (e, f) (ground arith, (ground arith, t))
    | inr f ↦ elim (Bool-cases (ltb c 0x10000)) [
      | inl g ↦ rw (e, f, g) (ground arith, (ground arith, (ground arith, t)))
      | inr g ↦ rw (e, f, g) (ground arith, (ground arith, (ground arith, (ground arith, t))))
    ]
  ]
]

as_bytes-bytes : (s : Text) → IsText s → All (λ b. b < 256) (as_bytes s)
unfolding as_bytes
as_bytes-bytes [] h = tt
as_bytes-bytes (c ∷ s) (hc, hs) = encode_char-bytes c (as_bytes s) hc (as_bytes-bytes s hs)

basic_matches-encoded :
    (creds : BasicCredentials) (bytes : Bytes)
    → All (λ b. b < 256) bytes
    → basic_matches creds (base64_encode bytes) ≡ eq_constant_time bytes (as_bytes (expected creds))
unfolding basic_matches
basic_matches-encoded creds bytes h =
    let plain = base64_encode-plain bytes in
    rw
      (
        trim-plain (base64_encode bytes) plain,
        as_bytes-plain (base64_encode bytes) plain,
        base64_decode-base64_encode bytes h,
        basic_matches,
      )
      refl

presented-basic_auth_header :
    (request : Request) (username password : Text)
    → lookup (codes "authorization") request.headers ≡ some (basic_auth_header username password).1
    → presented (codes "Basic ") request
      ≡ some (base64_encode (as_bytes (username ++ 58 ∷ password)))
unfolding presented basic_auth_header
presented-basic_auth_header request username password h =
    rw (h, presented)
      (strip_prefix-append (codes "Basic ") (base64_encode (as_bytes (username ++ 58 ∷ password))))

-- A request whose authorization header is the one that the program's own client writes for a name
-- and a password is authorized exactly when these, joined by a colon, are the configured ones; the
-- name and the password consist of Unicode scalar values.
pub authorized_basic-basic_auth_header :
    (setup : Setup) (request : Request) (creds : BasicCredentials) (username password : Text)
    → setup.ingest_creds ≡ some creds
    → IsText (username ++ 58 ∷ password)
    → lookup (codes "authorization") request.headers ≡ some (basic_auth_header username password).1
    → (authorized_basic setup request ≡ true)
      ↔ (as_bytes (username ++ 58 ∷ password) ≡ as_bytes (creds.username ++ 58 ∷ creds.password))
unfolding authorized_basic expected
authorized_basic-basic_auth_header setup request creds username password c t h =
    let bytes = as_bytes (username ++ 58 ∷ password) in
    rw
      (
        c,
        presented-basic_auth_header request username password h,
        basic_matches-encoded creds bytes (as_bytes-bytes (username ++ 58 ∷ password) t),
        authorized_basic,
      )
      (eq_constant_time_lem bytes (as_bytes (creds.username ++ 58 ∷ creds.password)))
