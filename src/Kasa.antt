-- ===== src/Kasa.antt =====
-- The Kasa plugs of service/src/kasa.rs: discovery, the KLAP session, and power readings.
pub mod Session
pub mod Poll
pub mod Nonces
pub mod Handshake
pub mod Rounds
use ahara_collector.Prelude.{
  ℕ, ◌+◌, ◌==◌, Bool, true, false, not, ◌&&◌, Option, none, some, List, [], ◌∷◌, ◌++◌, Text, Bytes,
  codes, length, ltb, drop, is_empty, text_eq, any, if◌then◌else◌,
}
use ahara_collector.Prelude.Int.{ℤ, to_u16}
use ahara_collector.Prelude.Results.{Result, ok, err}
use ahara_collector.Prelude.Utf8.{as_bytes, from_utf8}
use ahara_collector.Json.Syntax.{Floats, Json, get, as_i64}
use ahara_collector.Crypto.Base64.{base64_decode}
use ahara_collector.Envelope.{device, reading}
use ahara_collector.Net.{show_ipv4}
use ahara_collector.Sensors.{text_of, document_in, has_number}

pub record KasaDevice : Type 0 where
  pub ip : ℕ
  pub http_port : ℕ
  pub device_id : Option Text
  pub model : Option Text
  pub name : Option Text

abbrev pub module_kasa : Text
module_kasa = codes "kasa"

abbrev pub discovery_probe : Bytes
discovery_probe =
    0x02 ∷ 0x00 ∷ 0x00 ∷ 0x01 ∷ 0x00 ∷ 0x00 ∷ 0x00 ∷ 0x00 ∷ 0x00 ∷ 0x00 ∷ 0x00 ∷ 0x00 ∷ 0x46 ∷ 0x3c
    ∷ 0xb5 ∷ 0xd3 ∷ []

unfoldable pub decoded_name : Text → Option Text
unfolding base64_decode as_bytes from_utf8
decoded_name encoded = elim (base64_decode (as_bytes encoded)) [
  | err e ↦ none
  | ok bytes ↦ elim (from_utf8 bytes) [
    | none ↦ none
    | some name ↦ if is_empty name then none else some name
  ]
]

module _ {F : Type 0} where
  unfoldable pub is_klap : Json F → Bool
  unfolding text_of text_eq
  is_klap schm = elim (text_of schm (codes "encrypt_type")) [
    | none ↦ false
    | some t ↦ text_eq t (codes "KLAP")
  ]

  -- The port that is named, or 80.
  unfoldable pub http_port_of : Json F → ℕ
  unfolding get as_i64
  http_port_of schm = elim (get schm (codes "http_port")) [
    | none ↦ 80
    | some v ↦ elim (as_i64 v) [ none ↦ 80 | some i ↦ elim (to_u16 i) [ none ↦ 80 | some p ↦ p ] ]
  ]

  unfoldable pub klap_device : Json F → Json F → ℕ → Option KasaDevice
  unfolding is_klap http_port_of text_of
  klap_device result schm src =
      if is_klap schm
      then some (record {
        ip = src;
        http_port = http_port_of schm;
        device_id = text_of result (codes "device_id");
        model = text_of result (codes "device_model");
        name = none;
      })
      else none

  unfoldable pub response_device : Json F → ℕ → Option KasaDevice
  unfolding get klap_device
  response_device doc src = elim (get doc (codes "result")) [
    | none ↦ none
    | some result ↦ elim (get result (codes "mgt_encrypt_schm")) [
      | none ↦ none
      | some schm ↦ klap_device result schm src
    ]
  ]

  -- `doc.get("result").unwrap_or(doc)`
  unfoldable pub result_of : Json F → Json F
  unfolding get
  result_of doc = elim (get doc (codes "result")) [ none ↦ doc | some result ↦ result ]

  unfoldable pub decode_nickname : Json F → Option Text
  unfolding result_of text_of decoded_name
  decode_nickname info = elim (text_of (result_of info) (codes "nickname")) [
    | none ↦ none
    | some encoded ↦ decoded_name encoded
  ]

-- A header of 16 bytes, and then the document.
unfoldable pub parse_discovery_response : Floats → Bytes → ℕ → Option KasaDevice
unfolding document_in response_device
parse_discovery_response fl payload src =
    if ltb (length payload) 16 then none else elim (document_in fl (drop 16 payload)) [
      | none ↦ none
      | some doc ↦ response_device doc src
    ]

abbrev pub energy_keys : List Text
energy_keys =
    codes "current_power" ∷ codes "today_energy" ∷ codes "voltage_mv" ∷ codes "current_ma" ∷ []

unfoldable pub build_power_reading : (fl : Floats) → Json fl.F64 → KasaDevice → ℤ → Option Text
unfolding result_of has_number device reading show_ipv4
build_power_reading fl energy d now_ns =
    if has_number fl energy_keys (result_of energy)
    then reading fl module_kasa (device (show_ipv4 d.ip) d.name d.model d.device_id []) now_ns
        (result_of energy)
    else none

unfoldable pub static_plugs : ℕ → List ℕ → List KasaDevice
static_plugs port [] = []
static_plugs port (ip ∷ ips) =
    record { ip = ip; http_port = port; device_id = none; model = none; name = none }
    ∷ static_plugs port ips

unfoldable pub add_plug : Option KasaDevice → List KasaDevice → List KasaDevice
unfolding any
add_plug none found = found
add_plug (some d) found =
    if any (λ (e : KasaDevice). e.ip == d.ip) found then found else found ++ d ∷ []

-- The loop over the datagrams that arrive before the deadline, each with its sender.
unfoldable pub collect_plugs : Floats → List (Bytes × ℕ) → List KasaDevice → List KasaDevice
unfolding parse_discovery_response add_plug
collect_plugs fl [] found = found
collect_plugs fl ((payload, src) ∷ datagrams) found =
    collect_plugs fl datagrams (add_plug (parse_discovery_response fl payload src) found)

-- `discover`: what its socket receives, or nothing where it cannot be opened or sent from.
unfoldable pub discover : Floats → ℕ → List ℕ → Option (List (Bytes × ℕ)) → List KasaDevice
unfolding static_plugs collect_plugs
discover fl port ips none = static_plugs port ips
discover fl port ips (some datagrams) = collect_plugs fl datagrams (static_plugs port ips)
