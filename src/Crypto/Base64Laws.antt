-- ===== src/Crypto/Base64Laws.antt =====
-- `base64_decode` after `base64_encode`, of service/src/crypto.rs.
use ahara_collector.Prelude.{
  ℕ, ◌+◌, ◌*◌, ◌/◌, ◌%◌, ◌^◌, ◌≡◌, ◌<◌, refl, ap, Bool, true, false, not, ◌&&◌, [], ◌∷◌, ◌++◌,
  Bytes, All, ◌==◌, length, get_or, keep, arith, holds_up_to, holds_up_to_lem,
}
use ahara_collector.Prelude.Results.{Result, ok, err}
use ahara_collector.Crypto.Base64.{
  b64, sextet, base64_encode, Base64Error, char_value, chunk_bytes, decode_chunk, decode_chunks,
  is_ascii_whitespace, base64_decode,
}

is_value : ℕ → Result Base64Error (ℕ × ℕ) → Bool
is_value v (ok (w, p)) = w == v && p == 0
is_value v (err e) = false

is_value→eq : (v : ℕ) (r : Result Base64Error (ℕ × ℕ)) → is_value v r ≡ true → r ≡ ok (v, 0)
unfolding is_value
is_value→eq v (ok (w, p)) h = ground (arith, h)
is_value→eq v (err e) h = ground (arith, h)

value_table : (i : ℕ) → holds_up_to (λ v. is_value v (char_value i (get_or b64 v 0))) 64 ≡ true
unfolding holds_up_to is_value char_value
value_table i = refl

char_value-sextet : (i n : ℕ) → char_value i (sextet n) ≡ ok (n % 64, 0)
unfolding sextet
char_value-sextet i n =
    is_value→eq (n % 64) (char_value i (get_or b64 (n % 64) 0))
      (holds_up_to_lem _ 64 (n % 64) (omega arith) (value_table i))

visible_table : holds_up_to (λ v. not (is_ascii_whitespace (get_or b64 v 0))) 64 ≡ true
unfolding holds_up_to is_ascii_whitespace
visible_table = refl

sextet_visible : (n : ℕ) → not (is_ascii_whitespace (sextet n)) ≡ true
unfolding sextet
sextet_visible n = holds_up_to_lem _ 64 (n % 64) (omega arith) visible_table

abbrev joined : ℕ → ℕ
joined n = n / 2 ^ 18 % 64 * 2 ^ 18 + n / 2 ^ 12 % 64 * 2 ^ 12 + n / 2 ^ 6 % 64 * 2 ^ 6 + n % 64

joined_lem : (n : ℕ) → n < 2 ^ 24 → joined n ≡ n
joined_lem n h = omega (arith, h)

decode_chunk-3 :
    (n : ℕ)
    → n < 2 ^ 24
    → decode_chunk (sextet (n / 2 ^ 18)) (sextet (n / 2 ^ 12)) (sextet (n / 2 ^ 6)) (sextet n)
      ≡ ok (n / 2 ^ 16 % 256 ∷ n / 2 ^ 8 % 256 ∷ n % 256 ∷ [])
unfolding decode_chunk chunk_bytes
decode_chunk-3 n h =
    rw
      (
        char_value-sextet 0 (n / 2 ^ 18),
        char_value-sextet 1 (n / 2 ^ 12),
        char_value-sextet 2 (n / 2 ^ 6),
        char_value-sextet 3 n,
      )
      (ap (λ m. ok (m / 2 ^ 16 % 256 ∷ m / 2 ^ 8 % 256 ∷ m % 256 ∷ [])) (joined_lem n h))

decode_chunk-2 :
    (n : ℕ)
    → n < 2 ^ 24
    → n % 2 ^ 6 ≡ 0
    → decode_chunk (sextet (n / 2 ^ 18)) (sextet (n / 2 ^ 12)) (sextet (n / 2 ^ 6)) 61
      ≡ ok (n / 2 ^ 16 % 256 ∷ n / 2 ^ 8 % 256 ∷ [])
unfolding decode_chunk chunk_bytes
decode_chunk-2 n h z =
    rw
      (
        char_value-sextet 0 (n / 2 ^ 18),
        char_value-sextet 1 (n / 2 ^ 12),
        char_value-sextet 2 (n / 2 ^ 6),
      )
      (ap (λ m. ok (m / 2 ^ 16 % 256 ∷ m / 2 ^ 8 % 256 ∷ [])) (omega (arith, h, z)))

decode_chunk-1 :
    (n : ℕ)
    → n < 2 ^ 24
    → n % 2 ^ 12 ≡ 0
    → decode_chunk (sextet (n / 2 ^ 18)) (sextet (n / 2 ^ 12)) 61 61 ≡ ok (n / 2 ^ 16 % 256 ∷ [])
unfolding decode_chunk chunk_bytes
decode_chunk-1 n h z =
    rw (char_value-sextet 0 (n / 2 ^ 18), char_value-sextet 1 (n / 2 ^ 12))
      (ap (λ m. ok (m / 2 ^ 16 % 256 ∷ [])) (omega (arith, h, z)))

bytes_2 :
    (a b : ℕ)
    → a < 256
    → b < 256
    → (a * 2 ^ 16 + b * 2 ^ 8) / 2 ^ 16 % 256 ∷ (a * 2 ^ 16 + b * 2 ^ 8) / 2 ^ 8 % 256 ∷ []
      ≡ a ∷ b ∷ []
bytes_2 a b ha hb = rw (high, low) refl
  where
    high : (a * 2 ^ 16 + b * 2 ^ 8) / 2 ^ 16 % 256 ≡ a
    high = omega (arith, ha, hb)

    low : (a * 2 ^ 16 + b * 2 ^ 8) / 2 ^ 8 % 256 ≡ b
    low = omega (arith, ha, hb)

bytes_3 :
    (a b c : ℕ)
    → a < 256
    → b < 256
    → c < 256
    → (a * 2 ^ 16 + b * 2 ^ 8 + c) / 2 ^ 16 % 256
        ∷ (a * 2 ^ 16 + b * 2 ^ 8 + c) / 2 ^ 8 % 256
        ∷ (a * 2 ^ 16 + b * 2 ^ 8 + c) % 256
        ∷ []
      ≡ a ∷ b ∷ c ∷ []
bytes_3 a b c ha hb hc = rw (high, middle, low) refl
  where
    high : (a * 2 ^ 16 + b * 2 ^ 8 + c) / 2 ^ 16 % 256 ≡ a
    high = omega (arith, ha, hb, hc)

    middle : (a * 2 ^ 16 + b * 2 ^ 8 + c) / 2 ^ 8 % 256 ≡ b
    middle = omega (arith, ha, hb, hc)

    low : (a * 2 ^ 16 + b * 2 ^ 8 + c) % 256 ≡ c
    low = omega (arith, ha, hb, hc)

decode_chunks-base64_encode :
    (d : Bytes) → All (λ b. b < 256) d → decode_chunks (base64_encode d) ≡ ok d
unfolding decode_chunks base64_encode
decode_chunks-base64_encode [] h = refl
decode_chunks-base64_encode (a ∷ []) (ha, _) =
    rw (decode_chunk-1 (a * 2 ^ 16) (omega (arith, ha)) (omega arith))
      (ap (λ x. ok (x ∷ [])) (omega (arith, ha)))
decode_chunks-base64_encode (a ∷ b ∷ []) (ha, (hb, _)) =
    rw (decode_chunk-2 (a * 2 ^ 16 + b * 2 ^ 8) (omega (arith, ha, hb)) (omega arith))
      (ap (λ l. ok l) (bytes_2 a b ha hb))
decode_chunks-base64_encode (a ∷ b ∷ c ∷ rest) (ha, (hb, (hc, h))) =
    rw
      (
        decode_chunk-3 (a * 2 ^ 16 + b * 2 ^ 8 + c) (omega (arith, ha, hb, hc)),
        decode_chunks-base64_encode rest h,
      )
      (ap (λ l. ok (l ++ rest)) (bytes_3 a b c ha hb hc))

padding_visible : not (is_ascii_whitespace 61) ≡ true
unfolding is_ascii_whitespace
padding_visible = refl

keep-base64_encode :
    (d : Bytes) → keep (λ c. not (is_ascii_whitespace c)) (base64_encode d) ≡ base64_encode d
unfolding keep base64_encode
keep-base64_encode [] = refl
keep-base64_encode (a ∷ []) =
    rw (sextet_visible (a * 2 ^ 16 / 2 ^ 18), sextet_visible (a * 2 ^ 16 / 2 ^ 12), padding_visible)
      refl
keep-base64_encode (a ∷ b ∷ []) =
    let n = a * 2 ^ 16 + b * 2 ^ 8 in
    rw
      (
        sextet_visible (n / 2 ^ 18),
        sextet_visible (n / 2 ^ 12),
        sextet_visible (n / 2 ^ 6),
        padding_visible,
      )
      refl
keep-base64_encode (a ∷ b ∷ c ∷ rest) =
    let n = a * 2 ^ 16 + b * 2 ^ 8 + c in
    rw
      (
        sextet_visible (n / 2 ^ 18),
        sextet_visible (n / 2 ^ 12),
        sextet_visible (n / 2 ^ 6),
        sextet_visible n,
        keep-base64_encode rest,
      )
      refl

length-base64_encode : (d : Bytes) → length (base64_encode d) % 4 ≡ 0
unfolding base64_encode
length-base64_encode [] = refl
length-base64_encode (a ∷ []) = refl
length-base64_encode (a ∷ b ∷ []) = refl
length-base64_encode (a ∷ b ∷ c ∷ rest) = omega (arith, length-base64_encode rest)

-- Decoding what `base64_encode` wrote gives the bytes back.
pub base64_decode-base64_encode :
    (d : Bytes) → All (λ b. b < 256) d → base64_decode (base64_encode d) ≡ ok d
unfolding base64_decode
base64_decode-base64_encode d h =
    rw (keep-base64_encode d, length-base64_encode d) (decode_chunks-base64_encode d h)
