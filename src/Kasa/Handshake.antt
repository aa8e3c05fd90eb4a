-- ===== src/Kasa/Handshake.antt =====
-- The handshake of `KlapSession::establish` of service/src/kasa.rs.
use ahara_collector.Prelude.{
  ℕ, ◌≤◌, ◌≡◌, refl, sym, some, [], ◌∷◌, ◌++◌, Text, Bytes, codes, take, drop, length, ltb, ◌==◌,
  ==→eq, Bool-cases, inl, inr, arith,
}
use ahara_collector.Prelude.Results.{
  Result, ok, err, ok_or, Holds, holds, fails, Holds→, Holds-bind, Holds-ok_or,
}
use ahara_collector.Config.{BasicCredentials}
use ahara_collector.Crypto.Hash.{sha256}
use ahara_collector.Crypto.Compare.{eq_constant_time}
use ahara_collector.Crypto.CompareLaws.{eq_constant_time_lem}
use ahara_collector.Http.Lines.{HttpError}
use ahara_collector.Http.Client.{Network, ClientResponse, header_all, request}
use ahara_collector.Kasa.Session.{
  no_cookie, KlapSession, auth_hash, derive_keys, session_cookie, fine, check_handshake, establish,
}

-- A device's answer to the first request of a handshake, and the session that it leads to.
pub record Shaken (net : Network) (ip port : ℕ) (creds : BasicCredentials) (seed : Bytes)
    (s : KlapSession) : Type 0 where
  pub answer : ClientResponse
  pub answered : request net ip port (codes "POST") (codes "/app/handshake1") [] seed ≡ ok answer
  pub status : answer.status ≡ 200
  pub size : 48 ≤ length answer.body
  pub proof :
      take 32 (drop 16 answer.body) ≡ sha256 (seed ++ take 16 answer.body ++ auth_hash creds)
  pub cookie : session_cookie (header_all (codes "set-cookie") answer.headers) ≡ some s.cookie
  pub keys : s.keys ≡ derive_keys seed (take 16 answer.body) (auth_hash creds)
  pub confirmed :
      (r : ClientResponse) × (request net ip port
          (codes "POST")
          (codes "/app/handshake2")
          ((codes "cookie", s.cookie) ∷ [])
          (sha256 (take 16 answer.body ++ seed ++ auth_hash creds))
        ≡ ok r)
      × (r.status ≡ 200)

fine-Holds :
    (r : Result HttpError ClientResponse)
    → Holds (λ (a : ClientResponse). (r ≡ ok a) × (a.status ≡ 200)) (fine r)
unfolding fine
fine-Holds (err e) = fails
fine-Holds (ok a) = elim (Bool-cases (a.status == 200)) [
  | inl e ↦ rw e (holds (refl, ==→eq a.status 200 e))
  | inr e ↦ rw e fails
]

-- The seed that a checked answer gives is its start, and its hash is the right one.
record Checked (seed auth body remote : Bytes) : Type 0 where
  start : remote ≡ take 16 body
  size : 48 ≤ length body
  proof : take 32 (drop 16 body) ≡ sha256 (seed ++ take 16 body ++ auth)

check_handshake-Checked :
    (seed auth body : Bytes) → Holds (Checked seed auth body) (check_handshake seed auth body)
unfolding check_handshake
check_handshake-Checked seed auth body = elim (Bool-cases (ltb (length body) 48)) [
  | inl e ↦ rw (e, check_handshake) fails
  | inr e ↦
      let hash = sha256 (seed ++ take 16 body ++ auth) in
      elim (Bool-cases (eq_constant_time hash (take 32 (drop 16 body)))) [
        | inr f ↦ rw (e, f, check_handshake) fails
        | inl f ↦
            rw (e, f, check_handshake)
              (holds (record {
                start = refl;
                size = ground arith;
                proof = sym ((eq_constant_time_lem hash (take 32 (drop 16 body))).0 f);
              }))
      ]
]

module _ (net : Network) (ip port : ℕ) (creds : BasicCredentials) (seed : Bytes) where
  first : Result HttpError ClientResponse
  first = request net ip port (codes "POST") (codes "/app/handshake1") [] seed

  second : Text → Bytes → Result HttpError ClientResponse
  second cookie remote =
      request net ip port (codes "POST") (codes "/app/handshake2") ((codes "cookie", cookie) ∷ [])
        (sha256 (remote ++ seed ++ auth_hash creds))

  shaken :
      (answer : ClientResponse) (remote : Bytes) (cookie : Text) (r : ClientResponse)
      → (first ≡ ok answer) × (answer.status ≡ 200)
      → Checked seed (auth_hash creds) answer.body remote
      → session_cookie (header_all (codes "set-cookie") answer.headers) ≡ some cookie
      → (second cookie remote ≡ ok r) × (r.status ≡ 200)
      → Shaken net ip port creds seed (record {
        ip = ip;
        port = port;
        cookie = cookie;
        keys = derive_keys seed remote (auth_hash creds);
      })
  unfolding first second
  shaken answer remote cookie r (a, b) c d (e, f) = record {
    answer = answer;
    answered = a;
    status = b;
    size = c.size;
    proof = c.proof;
    cookie = d;
    keys = rw c.start refl;
    confirmed = (r, rw (sym c.start) e, f);
  }

  establish-Holds : Holds (Shaken net ip port creds seed) (establish net ip port creds seed)
  unfolding establish first second
  establish-Holds = Holds-bind (fine first) _ (fine-Holds first) λ answer a.
      Holds-bind (check_handshake seed (auth_hash creds) answer.body) _
        (check_handshake-Checked seed (auth_hash creds) answer.body)
        λ remote c.
          Holds-bind
            (ok_or (session_cookie (header_all (codes "set-cookie") answer.headers)) no_cookie) _
            (Holds-ok_or (session_cookie (header_all (codes "set-cookie") answer.headers))
              no_cookie)
            λ cookie d.
              Holds-bind (fine (second cookie remote)) _ (fine-Holds (second cookie remote))
                λ r e. holds (shaken answer remote cookie r a c d e)

-- A session is established only with a device that has answered the seed with the hash that the
-- credentials give, has set a session cookie, and has accepted the hash that is sent back; the keys
-- are derived from both seeds and the credentials.
pub establish-Shaken :
    (net : Network) (ip port : ℕ) (creds : BasicCredentials) (seed : Bytes) (s : KlapSession)
    → establish net ip port creds seed ≡ ok s
    → Shaken net ip port creds seed s
establish-Shaken net ip port creds seed s e =
    Holds→ (establish net ip port creds seed) s e (establish-Holds net ip port creds seed)
