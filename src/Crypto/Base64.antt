-- ===== src/Crypto/Base64.antt =====
-- base64 of service/src/crypto.rs. A text that is decoded is given by its UTF-8 bytes.
use ahara_collector.Prelude.{
  ℕ, ◌+◌, ◌-◌, ◌*◌, ◌/◌, ◌%◌, ◌^◌, Bool, not, ◌&&◌, ◌||◌, [], ◌∷◌, ◌++◌, Bytes, Text, codes, ltb,
  leb, ◌==◌, if◌then◌else◌, length, get_or, keep,
}
use ahara_collector.Prelude.Results.{Result, ok, err, ◌>>=◌}

abbrev pub b64 : Bytes
b64 = codes "ABCDEFGHIJKLMNOPQRSTUVWXYZabcdefghijklmnopqrstuvwxyz0123456789+/"

-- The character of a sextet, which `& 63` cuts out.
unfoldable pub sextet : ℕ → ℕ
sextet n = get_or b64 (n % 64) 0

-- One chunk, as the number of its bytes; the shifted bytes do not overlap.
unfoldable pub base64_encode : Bytes → Text
unfolding sextet
base64_encode [] = []
base64_encode (a ∷ []) =
    let n = a * 2 ^ 16 in sextet (n / 2 ^ 18) ∷ sextet (n / 2 ^ 12) ∷ 61 ∷ 61 ∷ []
base64_encode (a ∷ b ∷ []) =
    let n = a * 2 ^ 16 + b * 2 ^ 8 in
    sextet (n / 2 ^ 18) ∷ sextet (n / 2 ^ 12) ∷ sextet (n / 2 ^ 6) ∷ 61 ∷ []
base64_encode (a ∷ b ∷ c ∷ rest) =
    let n = a * 2 ^ 16 + b * 2 ^ 8 + c in
    sextet (n / 2 ^ 18) ∷ sextet (n / 2 ^ 12) ∷ sextet (n / 2 ^ 6) ∷ sextet n ∷ base64_encode rest

pub data Base64Error : Type 0 where
  bad_length : Base64Error
  invalid_byte : ℕ → Base64Error

-- The value of a character at the place `i` of its chunk, and what it adds to the padding.
unfoldable pub char_value : ℕ → ℕ → Result Base64Error (ℕ × ℕ)
char_value i c =
    if leb 65 c && leb c 90
    then ok (c - 65, 0)
    else if leb 97 c && leb c 122
    then ok (c - 97 + 26, 0)
    else if leb 48 c && leb c 57
    then ok (c - 48 + 52, 0)
    else if c == 43
    then ok (62, 0)
    else if c == 47
    then ok (63, 0)
    else if c == 61 && leb 2 i
    then ok (0, 1)
    else err (invalid_byte c)

unfoldable pub chunk_bytes : ℕ → ℕ → Bytes
chunk_bytes n pad =
    n / 2 ^ 16 % 256 ∷ (if ltb pad 2 then n / 2 ^ 8 % 256 ∷ [] else [])
    ++ (if ltb pad 1 then n % 256 ∷ [] else [])

unfoldable pub decode_chunk : ℕ → ℕ → ℕ → ℕ → Result Base64Error Bytes
unfolding char_value chunk_bytes
decode_chunk a b c d = do
  (v0, p0) ← char_value 0 a
  (v1, p1) ← char_value 1 b
  (v2, p2) ← char_value 2 c
  (v3, p3) ← char_value 3 d
  ok (chunk_bytes (v0 * 2 ^ 18 + v1 * 2 ^ 12 + v2 * 2 ^ 6 + v3) (p0 + p1 + p2 + p3))

unfoldable pub decode_chunks : Bytes → Result Base64Error Bytes
unfolding decode_chunk
decode_chunks (a ∷ b ∷ c ∷ d ∷ rest) = do
  chunk ← decode_chunk a b c d
  out ← decode_chunks rest
  ok (chunk ++ out)
decode_chunks _ = ok []

-- Space, tab, line feed, form feed and carriage return.
unfoldable pub is_ascii_whitespace : ℕ → Bool
is_ascii_whitespace c = c == 32 || c == 9 || c == 10 || c == 12 || c == 13

unfoldable pub base64_decode : Bytes → Result Base64Error Bytes
unfolding decode_chunks is_ascii_whitespace keep
base64_decode text =
    let cleaned = keep (λ c. not (is_ascii_whitespace c)) text in
    if length cleaned % 4 == 0 then decode_chunks cleaned else err bad_length
