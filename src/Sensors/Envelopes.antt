-- ===== src/Sensors/Envelopes.antt =====
-- The line of a reading of service/src/sensors.rs, read again.
use ahara_collector.Prelude.{
  ℕ, ◌+◌, ◌-◌, ◌%◌, ◌^◌, ◌<◌, ◌≡◌, refl, sym, ap, subst, ◌∙◌, false, Option, none, some, Text,
  codes, ltb, leb, Bool-cases, inl, inr, arith,
}
use ahara_collector.Prelude.Int.{ℤ, FitsI64, as_i64_cast, to_bits, wrapping_sub, sub_ℕ}
use ahara_collector.Prelude.Options.{none-ne-some, unwrap_or}
use ahara_collector.Prelude.Results.{ok}
use ahara_collector.Json.Syntax.{
  Floats, Json, int, str, obj, Fields, end, insert, get_field, get, has_fields,
}
use ahara_collector.Json.Parser.{parse}
use ahara_collector.Json.Canonical.{Canonical, CanonicalFields, insert-Canonical}
use ahara_collector.Json.NumberRoundTrip.{PrintsBack}
use ahara_collector.Json.RoundTrip.{parse-to_string}
use ahara_collector.Envelope.{key_module, key_device, key_timestamp, key_values, device, reading}
use ahara_collector.Envelope.Ordered.{device-Canonical}
use ahara_collector.Net.{show_ipv4}
use ahara_collector.Sensors.{
  EnvDevice, module_env_sensors, document_of, reading_of, timestamp_of, number_at, has_number,
  reading_keys, build_environment_reading,
}

as_i64_cast-FitsI64 : (n : ℕ) → FitsI64 (as_i64_cast n)
unfolding as_i64_cast
as_i64_cast-FitsI64 n = elim (Bool-cases (ltb (n % 2 ^ 64) (2 ^ 63))) [
  | inl e ↦ rw e (ground arith)
  | inr e ↦ rw e (negative (n % 2 ^ 64) (ground arith) e)
]
  where
    negative : (m : ℕ) → m < 2 ^ 64 → ltb m (2 ^ 63) ≡ false → FitsI64 (sub_ℕ m (2 ^ 64))
    negative m h k = elim (Bool-cases (leb (2 ^ 64) m)) [
      | inl e ↦ absurd (ground arith)
      | inr e ↦ rw e (ground arith)
    ]

-- What `as i64` of a float, and the clock, stay within.
pub record ClockFits (fl : Floats) (now_ns : ℤ) : Type 0 where
  pub now : FitsI64 now_ns
  pub cast : (f : fl.F64) → FitsI64 (fl.mul_1e6 f)

timestamp_of-FitsI64 :
    (fl : Floats) (age stamp : Option fl.F64) (now_ns : ℤ)
    → ClockFits fl now_ns
    → FitsI64 (timestamp_of fl age stamp now_ns)
unfolding timestamp_of wrapping_sub
timestamp_of-FitsI64 fl (some age) stamp now_ns h =
    as_i64_cast-FitsI64 (to_bits now_ns + 2 ^ 64 - to_bits (fl.mul_1e6 age))
timestamp_of-FitsI64 fl none (some ts) now_ns h = h.cast ts
timestamp_of-FitsI64 fl none none now_ns h = h.now

-- A line that holds a document of the device under the module's name.
pub record Carries (fl : Floats) (doc : Json fl.F64) (d : EnvDevice) (line : Text) : Type 0 where
  pub out : Json fl.F64
  pub parsed : parse fl line ≡ ok out
  pub name : get out key_module ≡ some (str module_env_sensors)
  pub values : get out key_values ≡ some doc
  pub device :
      get out key_device ≡ some (device (show_ipv4 d.ip) (some d.name) d.model d.device_id d.tags)

module _ (fl : Floats) (d : EnvDevice) (block : Json fl.F64) (timestamp : ℤ) where
  envelope : Fields fl.F64 → Fields fl.F64
  envelope values = insert key_values (obj values) (
      insert key_timestamp (int timestamp)
        (insert key_device block (insert key_module (str module_env_sensors) end)))

  envelope-Canonical :
      (values : Fields fl.F64)
      → FitsI64 timestamp
      → Canonical (PrintsBack fl) block
      → CanonicalFields (PrintsBack fl) none values
      → CanonicalFields (PrintsBack fl) none (envelope values)
  unfolding envelope
  envelope-Canonical values t b h =
      insert-Canonical (PrintsBack fl) none key_values (obj values) _
        (insert-Canonical (PrintsBack fl) none key_timestamp (int timestamp) _
          (insert-Canonical (PrintsBack fl) none key_device block _
            (insert-Canonical (PrintsBack fl) none key_module _ end tt tt tt) tt b)
          tt t)
        tt h

  reading-parse :
      (doc : Json fl.F64) (line : Text)
      → FitsI64 timestamp
      → Canonical (PrintsBack fl) block
      → Canonical (PrintsBack fl) doc
      → reading fl module_env_sensors block timestamp doc ≡ some line
      → (values : Fields fl.F64) × (doc ≡ obj values) × (parse fl line ≡ ok (obj (envelope values)))
  unfolding reading envelope
  reading-parse (obj values) line t b h e = elim (Bool-cases (has_fields values)) [
    | inr f ↦ absurd (none-ne-some line (rw (f, reading) at e))
    | inl f ↦
        let printed = ap (λ o. unwrap_or o line) (rw (f, reading) at e) in
        (
          values,
          refl,
          subst (λ l. parse fl l ≡ ok (obj (envelope values))) printed
              (parse-to_string fl (obj (envelope values)) (envelope-Canonical values t b h)),
        )
  ]
  reading-parse v line t b h e = absurd (none-ne-some line e)

  envelope-keys :
      (values : Fields fl.F64)
      → (get (obj (envelope values)) key_module ≡ some (str module_env_sensors))
        × (get (obj (envelope values)) key_values ≡ some (obj values))
        × (get (obj (envelope values)) key_device ≡ some block)
  unfolding envelope get get_field insert
  envelope-keys values = (refl, refl, refl)

reading-Carries :
    (fl : Floats) (d : EnvDevice) (doc : Json fl.F64) (timestamp : ℤ) (line : Text)
    → FitsI64 timestamp
    → Canonical (PrintsBack fl) doc
    → reading fl module_env_sensors
        (device (show_ipv4 d.ip) (some d.name) d.model d.device_id d.tags)
        timestamp
        doc
      ≡ some line
    → Carries fl doc d line
reading-Carries fl d doc timestamp line t h e =
    let block = device (show_ipv4 d.ip) (some d.name) d.model d.device_id d.tags in
    let ordered =
      device-Canonical (PrintsBack fl) (show_ipv4 d.ip) (some d.name) d.model d.device_id d.tags in
    let (values, same, parsed) = reading-parse fl d block timestamp doc line t ordered h e in
    let keys = envelope-keys fl d block timestamp values in
    record {
      out = obj (envelope fl d block timestamp values);
      parsed = parsed;
      name = keys.0;
      values = keys.1 ∙ ap some (sym same);
      device = keys.2;
    }

-- A line that a poll of a sensor makes is a JSON document again, which names the module, describes the
-- device, and has what the sensor sent as its values, unchanged; the sensor's floats are such that
-- their print is read back, and the clock and the cast of a float are in the range of an `i64`.
pub build_environment_reading-Carries :
    (fl : Floats) (body : Text) (d : EnvDevice) (now_ns : ℤ) (line : Text) (doc : Json fl.F64)
    → ClockFits fl now_ns
    → document_of fl body ≡ some doc
    → Canonical (PrintsBack fl) doc
    → build_environment_reading fl body d now_ns ≡ some line
    → Carries fl doc d line
unfolding build_environment_reading reading_of
build_environment_reading-Carries fl body d now_ns line doc c p h e =
    let e' = rw (p, build_environment_reading) at e in
    elim (Bool-cases (has_number fl reading_keys doc)) [
      | inr f ↦ absurd (none-ne-some line (rw (f, reading_of) at e'))
      | inl f ↦
          reading-Carries fl d doc _ line
            (timestamp_of-FitsI64 fl (number_at fl doc (codes "sample_age_ms"))
              (number_at fl doc (codes "timestamp_ms")) now_ns c)
            h (rw (f, reading_of) at e')
    ]
