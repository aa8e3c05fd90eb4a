-- ===== src/Api/Ingest.antt =====
-- `/ingest` of service/src/api.rs.
use ahara_collector.Prelude.{
  ℕ, ◌+◌, Bool, true, false, Option, none, some, List, [], ◌∷◌, ◌++◌, Text, codes, is_empty,
  if◌then◌else◌,
}
use ahara_collector.Prelude.Int.{ℤ, pos}
use ahara_collector.Prelude.Results.{ok, err}
use ahara_collector.Prelude.Utf8.{from_utf8}
use ahara_collector.Prelude.Parsing.{split, trim}
use ahara_collector.Json.Syntax.{Floats, int, obj, end, insert}
use ahara_collector.Json.Printer.{to_string}
use ahara_collector.Envelope.{normalize_pushed}
use ahara_collector.Spool.Model.{append}
use ahara_collector.SpoolSet.{SpoolSet, for_module, put_spool}
use ahara_collector.Maps.{lookup, insert_key}
use ahara_collector.Http.{Request, json_response, empty}
use ahara_collector.Metrics.{inc_by}
use ahara_collector.Api.State.{Setup, State, Handler}
use ahara_collector.Api.Auth.{authorized_basic, unauthorized}

-- The lines by their module, with how many were accepted and rejected.
pub record Sorted : Type 0 where
  pub by_module : List (Text × List Text)
  pub accepted : ℕ
  pub rejected : ℕ

unfoldable pub lines_of : Option (List Text) → List Text
lines_of none = []
lines_of (some lines) = lines

-- `by_module.entry(module).or_default().push(line)`
unfoldable pub push_line : Text → Text → List (Text × List Text) → List (Text × List Text)
push_line name line m = insert_key name (lines_of (lookup name m) ++ line ∷ []) m

unfoldable pub count_line : Option (Text × Text) → Sorted → Sorted
count_line none t = record t { rejected = t.rejected + 1 }
count_line (some (name, line)) t = record t {
  by_module = push_line name line t.by_module;
  accepted = t.accepted + 1;
}

-- `text.lines()` are trimmed and empty ones passed over, so what ends a line and the empty part after
-- the last one make no difference.
unfoldable pub sort_lines : (fl : Floats) → ℤ → List Text → Sorted → Sorted
sort_lines fl now_ns [] t = t
sort_lines fl now_ns (line ∷ lines) t =
    sort_lines fl now_ns lines
      (if is_empty (trim line) then t else count_line (normalize_pushed fl (trim line) now_ns) t)

-- The appends, module by module, up to the first that fails.
unfoldable pub append_all : List (Text × List Text) → SpoolSet → Bool × SpoolSet
append_all [] set = (true, set)
append_all ((name, lines) ∷ rest) set =
    let (opened, set') = for_module name set in
    elim opened [
      | err e ↦ (false, set')
      | ok spool ↦
          let (r, spool') = append lines spool in
          elim r [
            | err e ↦ (false, put_spool name spool' set')
            | ok n ↦ append_all rest (put_spool name spool' set')
          ]
    ]

unfoldable pub count_lines : Sorted → State → State
count_lines t s = record s {
  metrics = record s.metrics {
    ingest_lines_accepted = inc_by t.accepted s.metrics.ingest_lines_accepted;
    ingest_lines_rejected = inc_by t.rejected s.metrics.ingest_lines_rejected;
  };
}

unfoldable pub ingested : Floats → Sorted → Handler
ingested fl t s =
    let (fine, spools) = append_all t.by_module s.spools in
    let body =
      insert (codes "rejected") (int (pos t.rejected))
        (insert (codes "accepted") (int (pos t.accepted)) end) in
    (
      if fine then json_response 200 (to_string fl (obj body)) else empty 500,
      record s { spools = spools },
    )

unfoldable pub ingest_text : Floats → Setup → Text → Handler
ingest_text fl setup text s =
    let t =
      sort_lines fl setup.now_ns (split 10 text)
        (record { by_module = []; accepted = 0; rejected = 0 }) in
    ingested fl t (count_lines t s)

unfoldable pub ingest : Floats → Setup → Request → Handler
ingest fl setup request s =
    if authorized_basic setup request
    then elim (from_utf8 request.body) [
      | none ↦ (empty 400, s)
      | some text ↦ ingest_text fl setup text s
    ]
    else unauthorized s
