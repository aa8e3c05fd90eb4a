-- ===== src/Ssdp/Laws.antt =====
-- The responder and the lifetime of a lease, of service/src/ssdp.rs.
use ahara_collector.Prelude.{
  ℕ, ◌+◌, ◌≤◌, ◌≡◌, refl, ap, true, false, not, ◌||◌, ◌==◌, ltb, ◌⊎◌, inl, inr, Option, none, some,
  [], Text, Bytes, arith, length, map, Bool-cases,
}
use ahara_collector.Config.{contains}
use ahara_collector.Metrics.{Metrics}
use ahara_collector.Ssdp.{
  max_datagram, MediaServerLease, active, cache_seconds, responses, replies_of, Responder,
  SocketAddr, v4, v6, is_media_server_search, process,
}

-- An advertised lifetime is from 1 to 1800 seconds, and that of an active lease does not reach
-- past the end of the lease.
pub cache_seconds-bounds :
    (lease : MediaServerLease) (now : ℕ)
    → (1 ≤ cache_seconds lease now)
      × (cache_seconds lease now ≤ 1800)
      × ((active lease now ≡ false) ⊎ (now + cache_seconds lease now ≤ lease.expires_at_seconds))
unfolding cache_seconds active
cache_seconds-bounds lease now = (
  omega arith,
  omega arith,
  elim (Bool-cases (ltb now lease.expires_at_seconds)) [
    | inl a ↦ inr (ground (arith, a))
    | inr a ↦ inl a
  ],
)

-- A sender that is answered, and why.
pub record Answered (r : Responder) (lease : Option MediaServerLease) (src : SocketAddr)
    (payload : Bytes) (now : ℕ) : Type 0 where
  pub ip : ℕ
  pub port : ℕ
  pub offer : MediaServerLease
  pub sender : src ≡ v4 ip port
  pub inside : contains r.home_cidr ip ≡ true
  pub foreign : (ip == r.bind_address) ≡ false
  pub small : length payload ≤ max_datagram
  pub search : is_media_server_search payload ≡ true
  pub offered : lease ≡ some offer
  pub running : active offer now ≡ true

not_above : (n k : ℕ) → ltb n k ≡ false → k ≤ n
not_above n k h = ground (arith, h)

expired :
    (offer : MediaServerLease) (payload : Bytes) (date : Text) (now : ℕ)
    → active offer now ≡ false
    → replies_of (some offer) payload date now ≡ []
unfolding replies_of responses
expired offer payload date now f = rw f refl

silent :
    (r : Responder) (ip port : ℕ) (payload : Bytes) (date : Text) (now : ℕ) (m : Metrics)
    → (process r none (v4 ip port) payload date now m).0 ≡ []
unfolding process replies_of
silent r ip port payload date now m = elim (Bool-cases (ltb max_datagram (length payload))) [
  | inl b ↦ rw b refl
  | inr b ↦ elim (Bool-cases (ip == r.bind_address)) [
    | inl c ↦ rw (b, c) refl
    | inr c ↦
        elim (Bool-cases (not (contains r.home_cidr ip) || not (is_media_server_search payload))) [
          | inl d ↦ rw (b, c, d) refl
          | inr d ↦ rw (b, c, d) refl
        ]
  ]
]

-- The responder sends nothing, or the sender is an IPv4 host of the home network other than itself,
-- the datagram is a search for a media server of at most 2048 bytes, and there is an active lease.
pub process-Answered :
    (r : Responder) (lease : Option MediaServerLease) (src : SocketAddr) (payload : Bytes)
    (date : Text) (now : ℕ) (m : Metrics)
    → ((process r lease src payload date now m).0 ≡ []) ⊎ Answered r lease src payload now
unfolding process
process-Answered r lease v6 payload date now m = inl refl
process-Answered r none (v4 ip port) payload date now m = inl (silent r ip port payload date now m)
process-Answered r (some offer) (v4 ip port) payload date now m =
    elim (Bool-cases (ltb max_datagram (length payload))) [
      | inl b ↦ inl (rw b refl)
      | inr b ↦ elim (Bool-cases (ip == r.bind_address)) [
        | inl c ↦ inl (rw (b, c) refl)
        | inr c ↦ elim (Bool-cases (contains r.home_cidr ip)) [
          | inr d ↦ inl (rw (b, c, d) refl)
          | inl d ↦ elim (Bool-cases (is_media_server_search payload)) [
            | inr e ↦ inl (rw (b, c, d, e) refl)
            | inl e ↦ elim (Bool-cases (active offer now)) [
              | inr f ↦ inl (rw (b, c, d, e) (ap (map _) (expired offer payload date now f)))
              | inl f ↦ inr (record {
                ip = ip;
                port = port;
                offer = offer;
                sender = refl;
                inside = d;
                foreign = c;
                small = not_above max_datagram (length payload) b;
                search = e;
                offered = refl;
                running = f;
              })
            ]
          ]
        ]
      ]
    ]
