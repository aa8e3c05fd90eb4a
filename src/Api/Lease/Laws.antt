-- ===== src/Api/Lease/Laws.antt =====
-- The registration of a lease, of service/src/api.rs.
use ahara_collector.Prelude.{
  ℕ, ◌+◌, ◌≤◌, ◌≡◌, refl, min, ◌^◌, ◌-◌, true, ◌&&◌, ◌⊎◌, inl, inr, Option, some, Text, codes,
  arith, Bool-cases, Option-cases,
}
use ahara_collector.Prelude.Int.{ℤ}
use ahara_collector.Json.Syntax.{Floats, Json}
use ahara_collector.Ssdp.{MediaServerLease}
use ahara_collector.Http.{Request, Response}
use ahara_collector.Api.State.{Setup, State}
use ahara_collector.Api.Readings.{text_field, document}
use ahara_collector.Api.Lease.{
  valid_uuid, valid_server, allowed_location, lease_seconds_of, seconds_field, saturating_add,
  register, register_document, media_server_register,
}

-- A lease that the endpoint may set.
pub record Allowed (setup : Setup) (lease : MediaServerLease) : Type 0 where
  pub uuid : valid_uuid lease.uuid ≡ true
  pub server : valid_server lease.server ≡ true
  pub location : allowed_location setup lease.location ≡ true
  pub latest : lease.expires_at_seconds ≤ setup.now_seconds + 1800
  pub earliest : min (setup.now_seconds + 60) (2 ^ 64 - 1) ≤ lease.expires_at_seconds

-- The lease is as before, or an allowed one; the spools stay as they are.
pub record Leased (setup : Setup) (s : State) (a : Response × State) : Type 0 where
  pub lease :
      (a.1.media_server ≡ s.media_server)
      ⊎ ((l : MediaServerLease) × (a.1.media_server ≡ some l) × Allowed setup l)
  pub spools : a.1.spools ≡ s.spools

kept : (setup : Setup) (s : State) (r : Response) → Leased setup s (r, s)
kept setup s r = record { lease = inl refl; spools = refl }

latest_end : (now : ℕ) (i : Option ℤ) → saturating_add now (lease_seconds_of i) ≤ now + 1800
unfolding saturating_add lease_seconds_of
latest_end now i = omega arith

earliest_end :
    (now : ℕ) (i : Option ℤ) → min (now + 60) (2 ^ 64 - 1) ≤ saturating_add now (lease_seconds_of i)
unfolding saturating_add lease_seconds_of
earliest_end now i = omega arith

register_document-Leased :
    (fl : Floats) (setup : Setup) (doc : Json fl.F64) (s : State)
    → Leased setup s (register_document fl setup doc s)
unfolding register_document register
register_document-Leased fl setup doc s = elim (Option-cases (text_field fl doc (codes "uuid"))) [
  | inl a ↦ rw (a, register_document) (kept setup s _)
  | inr (uuid, a) ↦ elim (Option-cases (text_field fl doc (codes "location"))) [
    | inl b ↦ rw (a, b, register_document) (kept setup s _)
    | inr (location, b) ↦ elim (Option-cases (text_field fl doc (codes "server"))) [
      | inl c ↦ rw (a, b, c, register_document) (kept setup s _)
      | inr (server, c) ↦
          elim (Bool-cases
            (valid_uuid uuid && valid_server server && allowed_location setup location)) [
              | inr d ↦ rw (a, b, c, d, register_document) (kept setup s _)
              | inl d ↦
                  rw (a, b, c, d, register_document)
                    (record {
                      lease = inr (_, refl, allowed uuid location server d);
                      spools = refl;
                    })
            ]
    ]
  ]
]
  where
    until : ℕ
    until = saturating_add setup.now_seconds (lease_seconds_of (seconds_field fl doc))

    allowed :
        (uuid location server : Text)
        → (valid_uuid uuid && valid_server server && allowed_location setup location) ≡ true
        → Allowed setup (record {
          uuid = uuid;
          location = location;
          server = server;
          expires_at_seconds = until;
        })
    allowed uuid location server d = record {
      uuid = ground (arith, d);
      server = ground (arith, d);
      location = ground (arith, d);
      latest = latest_end setup.now_seconds (seconds_field fl doc);
      earliest = earliest_end setup.now_seconds (seconds_field fl doc);
    }

-- Registering leaves the lease as it was, or sets one whose identifier, server and location are
-- valid, and that ends between 60 and 1800 seconds from now (or, at least, at the end of the clock's
-- range); it never touches the spools.
pub media_server_register-Leased :
    (fl : Floats) (setup : Setup) (request : Request) (s : State)
    → Leased setup s (media_server_register fl setup request s)
unfolding media_server_register
media_server_register-Leased fl setup request s = elim (Option-cases (document fl request)) [
  | inl a ↦ rw (a, media_server_register) (kept setup s _)
  | inr (doc, a) ↦ rw (a, media_server_register) (register_document-Leased fl setup doc s)
]
