-- ===== src/Api/Readings.antt =====
-- `/health`, `/devices`, `/readings/next` and `/readings/ack` of service/src/api.rs.
use ahara_collector.Prelude.{
  Bool, true, false, Option, none, some, List, [], ◌∷◌, Text, codes, if◌then◌else◌,
}
use ahara_collector.Prelude.Results.{Result, ok, err}
use ahara_collector.Prelude.Int.{as_i64_cast}
use ahara_collector.Prelude.Utf8.{from_utf8}
use ahara_collector.Json.Syntax.{
  Floats, Json, bool, int, str, arr, obj, Items, nil, item, end, insert, get, as_str,
}
use ahara_collector.Json.Printer.{to_string}
use ahara_collector.Json.Parser.{parse}
use ahara_collector.Envelope.{valid_module, insert_text}
use ahara_collector.Spool.Model.{IoError, next_batch, ack}
use ahara_collector.SpoolSet.{get_spool, put_spool, set_stats}
use ahara_collector.Maps.{lookup}
use ahara_collector.Http.{Request, json_response, empty}
use ahara_collector.Metrics.{inc}
use ahara_collector.Net.{show_ipv4}
use ahara_collector.Sensors.{EnvDevice}
use ahara_collector.Kasa.{KasaDevice}
use ahara_collector.Api.State.{Setup, State, Handler}

module _ (fl : Floats) where
  unfoldable pub health : Setup → Handler
  health setup s =
      let modules = insert (codes "kasa") (bool setup.kasa_enabled) (
        insert (codes "envSensors") (bool setup.env_sensors_enabled)
          (insert (codes "wiim") (bool setup.wiim_enabled) end)) in
      let body =
        insert (codes "spoolBytes") (int (as_i64_cast (set_stats s.spools).total_bytes)) (
          insert (codes "modules") (obj modules)
            (insert (codes "status") (str (codes "ok")) end)) in
      (json_response 200 (to_string fl (obj body)), s)

  unfoldable pub env_items : List EnvDevice → Items fl.F64
  env_items [] = nil
  env_items (d ∷ ds) =
      item
        (obj (
          insert_text (codes "model") d.model
            (insert (codes "name") (str d.name) (insert (codes "ip") (str (show_ipv4 d.ip)) end))))
        (env_items ds)

  unfoldable pub kasa_items : List KasaDevice → Items fl.F64
  kasa_items [] = nil
  kasa_items (d ∷ ds) =
      item
        (obj (
          insert_text (codes "model") d.model
            (insert_text (codes "name") d.name (insert (codes "ip") (str (show_ipv4 d.ip)) end))))
        (kasa_items ds)

  unfoldable pub devices : Handler
  devices s =
      let body =
        insert (codes "kasa") (arr (kasa_items s.kasa))
          (insert (codes "envSensors") (arr (env_items s.env)) end) in
      (json_response 200 (to_string fl (obj body)), s)

  unfoldable pub batch_body : Text → Text → Text → Text
  batch_body name batch_id lines = to_string fl (
      obj (
        insert (codes "lines") (str lines)
          (insert (codes "module") (str name) (insert (codes "batchId") (str batch_id) end))))

  -- The answer and the counter for what the spool said.
  unfoldable pub served : Text → Result IoError (Option (Text × Text)) → Handler
  served name (ok (some (batch_id, lines))) s = (
    json_response 200 (batch_body name batch_id lines),
    record s { metrics = record s.metrics { batches_served = inc s.metrics.batches_served } },
  )
  served name (ok none) s = (empty 204, s)
  served name (err e) s = (empty 500, s)

  unfoldable pub next_of : Text → Handler
  next_of name s = elim (get_spool name s.spools) [
    | none ↦ (empty 204, s)
    | some spool ↦
        let (r, spool') = next_batch spool in
        served name r (record s { spools = put_spool name spool' s.spools })
  ]

  unfoldable pub readings_next : Request → Handler
  readings_next request s = elim (lookup (codes "module") request.query) [
    | none ↦ (empty 400, s)
    | some name ↦ if valid_module name then next_of name s else (empty 400, s)
  ]

  unfoldable pub acked_body : Bool → Text
  acked_body b = to_string fl (obj (insert (codes "acked") (bool b) end))

  unfoldable pub count_ack : Bool → State → State
  count_ack true s = record s {
    metrics = record s.metrics { batches_acked = inc s.metrics.batches_acked };
  }
  count_ack false s = s

  unfoldable pub acknowledged : Result IoError Bool → Handler
  acknowledged (ok b) s = (json_response 200 (acked_body b), count_ack b s)
  acknowledged (err e) s = (empty 500, s)

  unfoldable pub ack_of : Text → Text → Handler
  ack_of name batch_id s = elim (get_spool name s.spools) [
    | none ↦ (json_response 200 (acked_body false), s)
    | some spool ↦
        let (r, spool') = ack batch_id spool in
        acknowledged r (record s { spools = put_spool name spool' s.spools })
  ]

  -- The text at a key of the document.
  unfoldable pub text_field : Json fl.F64 → Text → Option Text
  text_field doc key = elim (get doc key) [ none ↦ none | some v ↦ as_str v ]

  unfoldable pub document : Request → Option (Json fl.F64)
  document request = elim (from_utf8 request.body) [
    | none ↦ none
    | some text ↦ elim (parse fl text) [ err e ↦ none | ok doc ↦ some doc ]
  ]

  unfoldable pub ack_document : Json fl.F64 → Handler
  ack_document doc s = elim (text_field doc (codes "module")) [
    | none ↦ (empty 400, s)
    | some name ↦ elim (text_field doc (codes "batchId")) [
      | none ↦ (empty 400, s)
      | some batch_id ↦ ack_of name batch_id s
    ]
  ]

  unfoldable pub readings_ack : Request → Handler
  readings_ack request s = elim (document request) [
    | none ↦ (empty 400, s)
    | some doc ↦ ack_document doc s
  ]
