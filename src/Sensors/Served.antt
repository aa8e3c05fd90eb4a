-- ===== src/Sensors/Served.antt =====
-- The devices that `discover` of service/src/sensors.rs keeps.
use ahara_collector.Prelude.{
  ℕ, ◌≡◌, true, false, some, List, [], ◌∷◌, Text, Bytes, keep, All, Bool-cases, Option-cases, inl,
  inr, arith,
}
use ahara_collector.Json.Syntax.{Floats}
use ahara_collector.Config.{BasicCredentials}
use ahara_collector.Http.Client.{Network}
use ahara_collector.Sensors.{
  EnvDevice, is_sensor_payload, static_devices, collect_replies, fetch_sensors, serves, discover,
}

-- A device whose `/sensors` has a sensor's fields.
pub record IsServing (net : Network) (port : ℕ) (creds : BasicCredentials) (fl : Floats)
    (d : EnvDevice) : Type 0 where
  pub body : Text
  pub fetched : fetch_sensors net port creds d ≡ some body
  pub payload : is_sensor_payload fl body ≡ true

module _ (net : Network) (port : ℕ) (creds : BasicCredentials) (fl : Floats) where
  serves-IsServing :
      (d : EnvDevice) → serves net port creds fl d ≡ true → IsServing net port creds fl d
  unfolding serves
  serves-IsServing d e = elim (Option-cases (fetch_sensors net port creds d)) [
    | inl p ↦ absurd (false-ne-true (rw (p, serves) at e))
    | inr (body, p) ↦ record { body = body; fetched = p; payload = rw (p, serves) at e }
  ]
    where
      false-ne-true : false ≡ true → ⊥
      false-ne-true h = ground (arith, h)

  keep-IsServing :
      (ds : List EnvDevice) → All (IsServing net port creds fl) (keep (serves net port creds fl) ds)
  unfolding keep
  keep-IsServing [] = tt
  keep-IsServing (d ∷ ds) = elim (Bool-cases (serves net port creds fl d)) [
    | inl e ↦ rw e (serves-IsServing d e, keep-IsServing ds)
    | inr e ↦ rw e (keep-IsServing ds)
  ]

  -- Every device that a discovery on an open socket gives has just answered `/sensors` with a document
  -- that has a sensor's fields: the configured ones too, and whatever the datagrams say.
  pub discover-IsServing :
      (ips : List ℕ) (datagrams : List (Bytes × ℕ))
      → All (IsServing net port creds fl) (discover net port creds fl ips (some datagrams))
  unfolding discover
  discover-IsServing ips datagrams =
      keep-IsServing (collect_replies fl datagrams (static_devices ips))
