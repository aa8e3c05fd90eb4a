-- ===== src/Kasa/Poll.antt =====
-- The polls of service/src/kasa.rs, each with the session that its device has.
use ahara_collector.Prelude.{
  ℕ, suc, ◌%◌, ◌^◌, Option, none, some, List, [], ◌∷◌, Text, Bytes, codes, length,
}
use ahara_collector.Prelude.Int.{ℤ}
use ahara_collector.Prelude.Results.{Result, ok, err, ok_or}
use ahara_collector.Json.Syntax.{Floats, Json}
use ahara_collector.Config.{BasicCredentials}
use ahara_collector.Metrics.{Metrics, inc}
use ahara_collector.Spool.Model.{Spool}
use ahara_collector.Http.Client.{Network}
use ahara_collector.Sensors.{store_lines}
use ahara_collector.Kasa.{KasaDevice, decode_nickname, build_power_reading}
use ahara_collector.Kasa.Session.{KlapSession, KlapError, no_fields, establish, execute}

-- A device with its session slot.
abbrev pub Slot : Type 0
Slot = KasaDevice × Option KlapSession

-- A failed poll closes the session; what was learned of the device stays.
unfoldable pub settle : Result KlapError Text → Slot → Slot
settle (ok line) slot = slot
settle (err e) (d, s) = (d, none)

unfoldable pub count_poll : Result KlapError Text → Metrics → Metrics
unfolding inc
count_poll (ok line) m = record m { kasa_polls_ok = inc m.kasa_polls_ok }
count_poll (err e) m = record m { kasa_polls_failed = inc m.kasa_polls_failed }

unfoldable pub add_line : Result KlapError Text → List Text → List Text
add_line (ok line) lines = line ∷ lines
add_line (err e) lines = lines

module _ (fl : Floats) (net : Network) where
  unfoldable pub nickname_of : Result KlapError (Json fl.F64) → Option Text
  unfolding decode_nickname
  nickname_of (ok info) = decode_nickname info
  nickname_of (err e) = none

  -- A new session first asks for the name of a device that has none.
  unfoldable pub learn_name : KasaDevice → KlapSession → Slot
  unfolding execute nickname_of
  learn_name d s = elim d.name [
    | some name ↦ (d, some s)
    | none ↦
        let (r, s') = execute fl net (codes "{\"method\": \"get_device_info\"}") s in
        (record d { name = nickname_of r }, some s')
  ]

  module _ (creds : BasicCredentials) (now_ns : ℤ) where
    unfoldable pub read_energy : KasaDevice → Result KlapError (Json fl.F64) → Result KlapError Text
    unfolding build_power_reading
    read_energy d (err e) = err e
    read_energy d (ok energy) = ok_or (build_power_reading fl energy d now_ns) no_fields

    unfoldable pub poll_session : KasaDevice → KlapSession → Result KlapError Text × Slot
    unfolding execute read_energy
    poll_session d s =
        let (r, s') = execute fl net (codes "{\"method\": \"get_energy_usage\"}") s in
        (read_energy d r, (d, some s'))

    unfoldable pub poll_learned : Slot → Result KlapError Text × Slot
    unfolding poll_session
    poll_learned (d, none) = (err no_fields, (d, none))
    poll_learned (d, some s) = poll_session d s

    -- `poll`; the seed of a new session comes from the random source.
    unfoldable pub poll : Bytes → Slot → Result KlapError Text × Slot
    unfolding poll_session establish learn_name poll_learned
    poll seed (d, some s) = poll_session d s
    poll seed (d, none) = elim (establish net d.ip d.http_port creds seed) [
      | err e ↦ (err e, (d, none))
      | ok s ↦ poll_learned (learn_name d s)
    ]

    -- The polls of a round, the n-th with the n-th seed.
    unfoldable pub poll_all :
        (ℕ → Bytes) → ℕ → List Slot → Metrics → List Text × List Slot × Metrics
    unfolding poll settle count_poll add_line
    poll_all seeds n [] m = ([], [], m)
    poll_all seeds n (slot ∷ slots) m =
        let (r, slot') = poll (seeds n) slot in
        let (lines, slots', m') = poll_all seeds (suc n) slots (count_poll r m) in
        (add_line r lines, settle r slot' ∷ slots', m')

    unfoldable pub round : (ℕ → Bytes) → List Slot → Spool → Metrics → List Slot × Spool × Metrics
    unfolding poll_all store_lines
    round seeds slots spool m =
        let (lines, slots', m') = poll_all seeds 0 slots m in
        let (spool', m'') = store_lines lines spool m' in (slots', spool', m'')

-- What the loop does with a discovery: no device has a session, and the counters.
unfoldable pub new_slots : List KasaDevice → List Slot
new_slots [] = []
new_slots (d ∷ ds) = (d, none) ∷ new_slots ds

unfoldable pub discovered : List KasaDevice → Metrics → Metrics
unfolding inc
discovered devices m = record m {
  kasa_devices = length devices % 2 ^ 64;
  kasa_discovery_runs = inc m.kasa_discovery_runs;
}
