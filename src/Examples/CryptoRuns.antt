-- ===== src/Examples/CryptoRuns.antt =====
-- The primitives of service/src/crypto.rs at the published vectors of its tests.
use ahara_collector.Prelude.{◌≡◌, refl, codes}
use ahara_collector.Prelude.Results.{ok}
use ahara_collector.Crypto.Hash.{sha1, sha256}
use ahara_collector.Crypto.Cbc.{aes128_cbc_encrypt, aes128_cbc_decrypt}
use ahara_collector.Crypto.Base64.{base64_encode}
use ahara_collector.Crypto.Compare.{hex_encode}

sha256_abc :
    hex_encode (sha256 (codes "abc"))
    ≡ codes "ba7816bf8f01cfea414140de5dae2223b00361a396177a9cb410ff61f20015ad"
unfolding hex_encode sha256
sha256_abc = refl

sha1_abc : hex_encode (sha1 (codes "abc")) ≡ codes "a9993e364706816aba3e25717850c26c9cd0d89d"
unfolding hex_encode sha1
sha1_abc = refl

base64_foobar : base64_encode (codes "foobar") ≡ codes "Zm9vYmFy"
unfolding base64_encode
base64_foobar = refl

cbc_round :
    aes128_cbc_decrypt
      (codes "0123456789abcdef")
      (codes "fedcba9876543210")
      (aes128_cbc_encrypt (codes "0123456789abcdef") (codes "fedcba9876543210") (codes "hello"))
    ≡ ok (codes "hello")
unfolding aes128_cbc_decrypt aes128_cbc_encrypt
cbc_round = refl
