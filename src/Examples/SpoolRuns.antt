-- ===== src/Examples/SpoolRuns.antt =====
-- The spool at the inputs of the tests in service/src/spool.rs.
use ahara_collector.Prelude.{
  ℕ, ◌≡◌, refl, some, none, [], ◌∷◌, Text, codes, strip_prefix, text_eq, all,
}
use ahara_collector.Prelude.Decimal.{is_digit, number_from, decimal}
use ahara_collector.Prelude.Utf8.{as_bytes, from_utf8_lossy}
use ahara_collector.Prelude.Results.{ok}
use ahara_collector.Spool.Names.{strip_suffix, padded, parse_segment_name, segment_name}
use ahara_collector.Spool.Disk.{Disk, read_file, remove_file, append_file, create_file}
use ahara_collector.Spool.Model.{
  Spool, open_spool, append, write_lines, rotate_if_full, enforce_cap, cap_loop, total,
  drop_segment, sort_by_seq, next_batch, rotate_if_idle, rotate, oldest_segment, oldest_from,
  segments, serve, complete_lines, ack, stats,
}

-- Opens all that a run of the spool calls.
runs : Disk → ℕ → ℕ → Spool
unfolding open_spool append write_lines rotate_if_full enforce_cap cap_loop total drop_segment
    sort_by_seq next_batch rotate_if_idle rotate oldest_segment oldest_from segments serve
    complete_lines ack stats strip_suffix parse_segment_name segment_name padded decimal read_file
    remove_file append_file create_file is_digit number_from as_bytes from_utf8_lossy strip_prefix
    text_eq all
runs = open_spool

abbrev first : Text
first = codes "seg-0000000000000001.jsonl"

-- `appends_and_drains_in_order`
filled : Spool
unfolding runs
filled = (append (codes "m v=1i 1" ∷ codes "m v=2i 2" ∷ []) (runs [] 64 4096)).1

drains : (next_batch filled).0 ≡ ok (some (first, codes "m v=1i 1\nm v=2i 2\n"))
unfolding filled
drains = refl

drained : (next_batch (ack first (next_batch filled).1).1).0 ≡ ok none
unfolding filled
drained = refl

-- `drops_oldest_when_over_cap`
over_cap : Spool
unfolding runs
over_cap =
    (append (codes "cccc" ∷ [])
      (append (codes "bbbb" ∷ []) (append (codes "aaaa" ∷ []) (runs [] 1 10)).1).1).1

drops : ((stats over_cap).dropped_segments ≡ 1) × ((stats over_cap).total_bytes ≡ 10)
unfolding over_cap
drops = (refl, refl)

-- A line appended behind a torn one is glued to it, and both are lost to the reader.
torn : Disk
torn = (codes "current.jsonl", codes "{\"a\":1}\n{\"b\"") ∷ []

glued :
    (next_batch (append (codes "{\"c\":3}" ∷ []) (runs torn 64 4096)).1).0
    ≡ ok (some (first, codes "{\"a\":1}\n{\"b\"{\"c\":3}\n"))
unfolding runs torn
glued = refl

-- With every segment acknowledged, a reopened spool gives the same name to other lines.
reopened : Spool
unfolding filled
reopened = (append (codes "new" ∷ []) (runs (ack first (next_batch filled).1).1.disk 64 4096)).1

reused : (next_batch reopened).0 ≡ ok (some (first, codes "new\n"))
unfolding reopened
reused = refl
