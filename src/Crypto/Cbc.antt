-- ===== src/Crypto/Cbc.antt =====
-- AES-128-CBC with PKCS#7 padding of service/src/crypto.rs.
use ahara_collector.Prelude.{
  ◌-◌, ◌%◌, not, ◌||◌, List, [], ◌∷◌, ◌++◌, Bytes, ltb, ◌==◌, if◌then◌else◌, length, take, drop,
  replicate, get_or, all, is_empty,
}
use ahara_collector.Prelude.Results.{Result, ok, err}
use ahara_collector.Crypto.Words.{xor_bytes}
use ahara_collector.Crypto.Hash.{chunks_exact}
use ahara_collector.Crypto.Aes.{expand_key, encrypt_block, decrypt_block}

unfoldable pub encrypt_chunks : List Bytes → Bytes → List Bytes → Bytes
unfolding xor_bytes encrypt_block
encrypt_chunks keys prev [] = []
encrypt_chunks keys prev (chunk ∷ chunks) =
    let block = encrypt_block (xor_bytes chunk prev) keys in
    block ++ encrypt_chunks keys block chunks

unfoldable pub decrypt_chunks : List Bytes → Bytes → List Bytes → Bytes
unfolding xor_bytes decrypt_block
decrypt_chunks keys prev [] = []
decrypt_chunks keys prev (chunk ∷ chunks) =
    xor_bytes (decrypt_block chunk keys) prev ++ decrypt_chunks keys chunk chunks

unfoldable pub pad : Bytes → Bytes
pad plaintext = let n = 16 - length plaintext % 16 in plaintext ++ replicate n n

unfoldable pub aes128_cbc_encrypt : Bytes → Bytes → Bytes → Bytes
unfolding encrypt_chunks chunks_exact pad expand_key
aes128_cbc_encrypt key iv plaintext =
    let padded = pad plaintext in
    encrypt_chunks (expand_key key) iv (chunks_exact (length padded) 16 padded)

pub data CipherError : Type 0 where
  bad_length bad_padding : CipherError

unfoldable pub unpad : Bytes → Result CipherError Bytes
unpad out =
    let n = get_or out (length out - 1) 0 in
    if n == 0 || ltb 16 n || ltb (length out) n
    then err bad_padding
    else if all (λ b. b == n) (drop (length out - n) out)
    then ok (take (length out - n) out)
    else err bad_padding

unfoldable pub aes128_cbc_decrypt : Bytes → Bytes → Bytes → Result CipherError Bytes
unfolding decrypt_chunks chunks_exact unpad expand_key all
aes128_cbc_decrypt key iv ciphertext =
    if is_empty ciphertext || not (length ciphertext % 16 == 0)
    then err bad_length
    else unpad (decrypt_chunks (expand_key key) iv (chunks_exact (length ciphertext) 16 ciphertext))
