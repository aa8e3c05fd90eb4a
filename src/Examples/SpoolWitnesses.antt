-- ===== src/Examples/SpoolWitnesses.antt =====
-- The properties of the spool at a directory with two closed segments and an open one.
use ahara_collector.Prelude.{
  ◌+◌, length, ◌^◌, ◌<◌, ◌≡◌, refl, some, [], ◌∷◌, codes, arith, strip_prefix, text_eq, all,
}
use ahara_collector.Prelude.Decimal.{is_digit, number_from}
use ahara_collector.Prelude.Utf8.{from_utf8_lossy}
use ahara_collector.Prelude.Results.{ok}
use ahara_collector.Spool.Names.{strip_suffix, parse_segment_name, segment_name}
use ahara_collector.Spool.Names.Laws.{parse_segment_name-segment_name}
use ahara_collector.Spool.Disk.{Disk, read_file}
use ahara_collector.Spool.Model.{
  Spool, open_spool, next_batch, ack, enforce_cap, rotate_if_idle, oldest_segment, serve,
}
use ahara_collector.Spool.Drain.{drain, IsDrained, drain-IsDrained}
use ahara_collector.Spool.WellFormed.{WellFormed, open_spool-WellFormed}
use ahara_collector.Spool.Cap.{IsWithinCap, IsCapped}
use ahara_collector.Spool.Cap.Trim.{IsTrimmed, enforce_cap_lem}
use ahara_collector.Spool.Delivery.{Batched, next_batch_lem}
use ahara_collector.Spool.Acknowledge.{Acked, ack_lem, Redelivered, next_batch-ack, ack-WellFormed}

abbrev disk : Disk
disk =
    (codes "seg-0000000000000002.jsonl", codes "b\n")
    ∷ (codes "seg-0000000000000001.jsonl", codes "a\nto")
    ∷ (codes "current.jsonl", codes "c\n")
    ∷ []

spool : Spool
unfolding open_spool
spool = open_spool disk 8 100

spool-WellFormed : WellFormed spool
unfolding spool
spool-WellFormed = open_spool-WellFormed disk 8 100

few_segments : spool.next_seq < 10 ^ 16
unfolding spool open_spool parse_segment_name is_digit number_from all strip_prefix strip_suffix
few_segments = omega arith

next_batch_lem_example : Batched spool (next_batch spool)
next_batch_lem_example = next_batch_lem spool few_segments spool-WellFormed

served_first : (next_batch spool).0 ≡ ok (some (codes "seg-0000000000000001.jsonl", codes "a\n"))
unfolding next_batch spool open_spool rotate_if_idle oldest_segment serve parse_segment_name
    is_digit number_from all strip_prefix strip_suffix read_file from_utf8_lossy text_eq
served_first = refl

next_batch-ack_example : Redelivered (codes "seg-0000000000000001.jsonl") (next_batch spool)
next_batch-ack_example =
    next_batch-ack spool (codes "seg-0000000000000001.jsonl") (codes "a\n") few_segments
      spool-WellFormed served_first

enforce_cap_lem_example :
    IsWithinCap (enforce_cap spool)
    × IsCapped spool (enforce_cap spool)
    × IsTrimmed spool (enforce_cap spool)
enforce_cap_lem_example = enforce_cap_lem spool

ack_lem_example :
    Acked
      (codes "seg-0000000000000002.jsonl")
      spool
      (ack (codes "seg-0000000000000002.jsonl") spool)
ack_lem_example = ack_lem (codes "seg-0000000000000002.jsonl") spool

ack-WellFormed_example : WellFormed (ack (codes "seg-0000000000000002.jsonl") spool).1
ack-WellFormed_example = ack-WellFormed (codes "seg-0000000000000002.jsonl") spool spool-WellFormed

open_spool-WellFormed_example : WellFormed (open_spool disk 8 100)
open_spool-WellFormed_example = open_spool-WellFormed disk 8 100

parse_segment_name-segment_name_example : parse_segment_name (segment_name 42) ≡ some 42
parse_segment_name-segment_name_example = parse_segment_name-segment_name 42 (omega arith)

few_files : spool.next_seq + length spool.disk < 10 ^ 16
unfolding spool open_spool parse_segment_name is_digit number_from all strip_prefix strip_suffix
few_files = omega arith

few_rounds : length spool.disk < 4
unfolding spool open_spool
few_rounds = omega arith

drain-IsDrained_example : IsDrained (drain 4 spool)
drain-IsDrained_example = drain-IsDrained 4 spool few_rounds few_files spool-WellFormed
