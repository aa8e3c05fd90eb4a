-- ===== src/Start/Laws.antt =====
-- What a process that has started runs with, of service/src/main.rs.
use ahara_collector.Prelude.{
  ◌≤◌, ◌≡◌, false, ◌||◌, Option, none, some, List, [], Text, Bytes, codes, length, ltb, is_empty,
  Bool-cases, Option-cases, inl, inr, arith,
}
use ahara_collector.Prelude.Options.{unwrap_or}
use ahara_collector.Prelude.Results.{
  Result, ok, err, ok_or, map_err, ◌>>=◌, Holds, holds, fails, Holds→, Holds-map, Holds-bind,
  Holds-then, Holds-self, Result-cases,
}
use ahara_collector.Prelude.Utf8.{as_bytes}
use ahara_collector.Prelude.Parsing.{trim}
use ahara_collector.Json.Syntax.{Floats, Json, get, null}
use ahara_collector.Json.Parser.{parse}
use ahara_collector.Config.{
  Config, BasicCredentials, Credentials, text_at, credentials_of, section_credentials, read_section,
  credentials_from_json, config_from_json,
}
use ahara_collector.Config.Bounds.{Bounded, config_from_json-Bounded}
use ahara_collector.SpoolSet.{SpoolSet, open_set}
use ahara_collector.Sensors.{module_env_sensors}
use ahara_collector.Kasa.{module_kasa}
use ahara_collector.Start.{
  Files, StartError, config_unreadable, config_invalid, token_unreadable, token_too_short,
  airwave_token_unreadable, airwave_token_too_short, credentials_invalid, is_run, required,
  token_of, module_spool, Started, start,
}

-- A name and a password that are not empty, if there are credentials at all.
pub data AreFilled : Option BasicCredentials → Type 0 where
  absent : AreFilled none
  filled :
      {c : BasicCredentials}
      → is_empty c.username ≡ false
      → is_empty c.password ≡ false
      → AreFilled (some c)

pub record Secure (s : Started) : Type 0 where
  pub sensor_token : 16 ≤ length s.sensor_token
  pub airwave_token : 16 ≤ length s.airwave_token
  pub config : Bounded s.config
  pub env_sensors : AreFilled s.credentials.env_sensors
  pub kasa : AreFilled s.credentials.kasa

token_of-Holds :
    (unreadable too_short : StartError) (o : Option Text)
    → Holds (λ (b : Bytes). 16 ≤ length b) (token_of unreadable too_short o)
unfolding token_of
token_of-Holds unreadable too_short none = fails
token_of-Holds unreadable too_short (some text) =
    elim (Bool-cases (ltb (length (as_bytes (trim text))) 16)) [
      | inl e ↦ rw e fails
      | inr e ↦ rw e (holds (ground arith))
    ]

module _ {F : Type 0} where
  credentials_of-AreFilled : (node : Json F) → Holds AreFilled (credentials_of node)
  unfolding credentials_of
  credentials_of-AreFilled node = Holds-then (text_at node (codes "username")) _ λ u.
      Holds-then (text_at node (codes "password")) _ λ p.
        elim (Bool-cases (is_empty u || is_empty p)) [
          | inl e ↦ rw e fails
          | inr e ↦ rw e (holds (filled (ground (arith, e)) (ground (arith, e))))
        ]

  section_credentials-AreFilled : (node : Json F) → Holds AreFilled (section_credentials node)
  unfolding section_credentials
  section_credentials-AreFilled null = holds absent
  section_credentials-AreFilled node = credentials_of-AreFilled node

  read_section-AreFilled :
      (doc : Json F) (section : Text) → Holds AreFilled (read_section doc section)
  unfolding read_section
  read_section-AreFilled doc section = elim (Option-cases (get doc section)) [
    | inl e ↦ rw (e, read_section) (holds absent)
    | inr (node, e) ↦ rw (e, read_section) (section_credentials-AreFilled node)
  ]

-- Both pollers' credentials.
Filled : Credentials → Type 0
Filled c = AreFilled c.env_sensors × AreFilled c.kasa

credentials_from_json-Filled :
    (fl : Floats) (text : Text) → Holds Filled (credentials_from_json fl text)
unfolding credentials_from_json Filled
credentials_from_json-Filled fl text = elim (Bool-cases (is_empty (trim text))) [
  | inl e ↦ rw (e, credentials_from_json) (holds (absent, absent))
  | inr e ↦ elim (Result-cases (parse fl (trim text))) [
    | inr (x, p) ↦ rw (e, p, credentials_from_json) fails
    | inl (doc, p) ↦
        rw (e, p, credentials_from_json)
          (Holds-bind (read_section doc (codes "envSensors")) _
            (read_section-AreFilled doc (codes "envSensors"))
            λ a f.
              Holds-bind (read_section doc (codes "kasa")) _
                (read_section-AreFilled doc (codes "kasa")) λ b g. holds (f, g))
  ]
]

map_err-Holds :
    {E A : Type 0} {P : A → Type 0} (f : E → StartError) (m : Result E A)
    → Holds P m
    → Holds P (map_err f m)
map_err-Holds f (ok a) (holds p) = holds p
map_err-Holds f (err e) fails = fails

config-Holds : (fl : Floats) (text : Text) → Holds Bounded (config_from_json fl text)
config-Holds fl text =
    Holds-map (config_from_json fl text) (Holds-self (config_from_json fl text))
      (config_from_json-Bounded fl text)

module _ (fl : Floats) (files : Files) (args : List Text) where
  modules : Config → Result StartError SpoolSet
  modules config = module_spool config.env_sensors.enable module_env_sensors (
      open_set (files.subdirectories config.spool.dir) config.spool.segment_bytes
        config.spool.max_bytes)

  start-Holds : Holds Secure (start fl files args)
  unfolding start modules Filled
  start-Holds = elim (Bool-cases (is_run args)) [
    | inr e ↦ rw (e, start) fails
    | inl e ↦
        rw (e, start)
          (Holds-then (required args (codes "--config")) _ λ config_path.
            Holds-then (required args (codes "--token-file")) _ λ token_path.
              Holds-then (required args (codes "--airwave-token-file")) _ λ airwave_path.
                Holds-then (required args (codes "--credentials")) _ λ credentials_path.
                  Holds-then (ok_or (files.read_to_string config_path) config_unreadable) _ λ text.
                    Holds-bind (map_err (λ e. config_invalid) (config_from_json fl text)) _
                      (map_err-Holds (λ e. config_invalid) (config_from_json fl text)
                        (config-Holds fl text))
                      λ config b.
                        rest config b (files.read_to_string token_path)
                          (files.read_to_string airwave_path)
                          (unwrap_or (files.read_to_string credentials_path) []))
  ]
    where
      rest :
          (config : Config)
          → Bounded config
          → (token airwave : Option Text) (credentials : Text)
          → Holds Secure (do
            sensor_token ← token_of token_unreadable token_too_short token
            airwave_token ← token_of airwave_token_unreadable airwave_token_too_short airwave
            found ← map_err (λ e. credentials_invalid) (credentials_from_json fl credentials)
            with_sensors ← modules config
            spools ← module_spool config.kasa.enable module_kasa with_sensors
            ok (record {
              config = config;
              credentials = found;
              sensor_token = sensor_token;
              airwave_token = airwave_token;
              spools = spools;
            }))
      rest config b token airwave credentials =
          Holds-bind (token_of token_unreadable token_too_short token) _
            (token_of-Holds token_unreadable token_too_short token)
            λ sensor_token t.
              Holds-bind (token_of airwave_token_unreadable airwave_token_too_short airwave) _
                (token_of-Holds airwave_token_unreadable airwave_token_too_short airwave)
                λ airwave_token u.
                  Holds-bind
                    (map_err (λ e. credentials_invalid) (credentials_from_json fl credentials)) _
                    (map_err-Holds (λ e. credentials_invalid) (credentials_from_json fl credentials)
                      (credentials_from_json-Filled fl credentials))
                    λ found f. Holds-then (modules config) _ λ with_sensors.
                      Holds-then (module_spool config.kasa.enable module_kasa with_sensors) _
                        λ spools. holds (record {
                          sensor_token = t;
                          airwave_token = u;
                          config = b;
                          env_sensors = f.0;
                          kasa = f.1;
                        })

-- A process that starts has two tokens of 16 bytes at least, a configuration within its bounds, and
-- for each poller no credentials, or a name and a password that are not empty.
pub start-Secure :
    (fl : Floats) (files : Files) (args : List Text) (s : Started)
    → start fl files args ≡ ok s
    → Secure s
start-Secure fl files args s e = Holds→ (start fl files args) s e (start-Holds fl files args)
