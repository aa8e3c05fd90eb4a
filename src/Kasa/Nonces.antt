-- ===== src/Kasa/Nonces.antt =====
-- The sequence numbers of a KLAP session of service/src/kasa.rs, and the initialization vectors.
use ahara_collector.Prelude.{
  ℕ, ◌+◌, ◌*◌, ◌%◌, ◌^◌, ◌≡◌, ◌≢◌, List, [], ◌∷◌, ◌++◌, Text, Bytes, codes,
}
use ahara_collector.Prelude.Results.{Result, ◌>>=◌}
use ahara_collector.Prelude.Utf8.{as_bytes}
use ahara_collector.Json.Syntax.{Floats, Json}
use ahara_collector.Crypto.Words.{word_bytes}
use ahara_collector.Crypto.Hash.{sha256}
use ahara_collector.Crypto.Cbc.{aes128_cbc_encrypt}
use ahara_collector.Http.Client.{Network, request}
use ahara_collector.Kasa.Session.{
  KlapKeys, KlapSession, KlapError, fine, show_i32, read_answer, next_seq, execute,
}

-- A session after a run of requests, whatever became of each.
unfoldable pub execute_all : Floats → Network → List Text → KlapSession → KlapSession
unfolding execute
execute_all fl net [] s = s
execute_all fl net (body ∷ bodies) s = execute_all fl net bodies (execute fl net body s).1

-- The session is the same but for its sequence number, which has gone up by `n`.
pub record Advanced (n : ℕ) (s t : KlapSession) : Type 0 where
  pub seq : t.keys.seq ≡ (s.keys.seq + n) % 2 ^ 32
  pub iv : t.keys.iv ≡ s.keys.iv
  pub key : t.keys.key ≡ s.keys.key
  pub sig : t.keys.sig ≡ s.keys.sig
  pub cookie : t.cookie ≡ s.cookie

bytes_word : Bytes → ℕ
bytes_word (a ∷ b ∷ c ∷ d ∷ rest) = a * 2 ^ 24 + b * 2 ^ 16 + c * 2 ^ 8 + d
bytes_word _ = 0

-- A plaintext encrypted under `iv`, with its signature before it.
unfoldable pub sealed : KlapKeys → Bytes → Bytes → Bytes
unfolding aes128_cbc_encrypt sha256 word_bytes
sealed keys iv plaintext =
    let cipher = aes128_cbc_encrypt keys.key iv plaintext in
    sha256 (keys.sig ++ word_bytes keys.seq ++ cipher) ++ cipher

-- A request of the session `s` with a given payload.
unfoldable pub sent : (fl : Floats) → Network → Bytes → KlapSession → Result KlapError (Json fl.F64)
sent fl net payload s = do
  r ← fine (
      request net s.ip s.port (codes "POST") (codes "/app/request?seq=" ++ show_i32 s.keys.seq)
        ((codes "cookie", s.cookie) ∷ []) payload)
  read_answer fl s.keys r.body

-- The requests `b` from `s` and `c` from `t` are sent under different initialization vectors.
pub record IsFresh (fl : Floats) (net : Network) (b : Text) (s : KlapSession) (c : Text)
    (t : KlapSession) : Type 0 where
  pub iv : Bytes
  pub iv' : Bytes
  pub first_sent :
      (execute fl net b s).0 ≡ sent fl net (sealed (next_seq s).keys iv (as_bytes b)) (next_seq s)
  pub second_sent :
      (execute fl net c t).0 ≡ sent fl net (sealed (next_seq t).keys iv' (as_bytes c)) (next_seq t)
  pub distinct : iv ≢ iv'
