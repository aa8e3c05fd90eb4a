-- ===== src/Examples/QueueWitnesses.antt =====
-- The queue of a spool at a directory without closed segments, of which the open one is closed.
use ahara_collector.Prelude.{◌^◌, ◌<◌, [], ◌∷◌, codes, arith, strip_prefix, all}
use ahara_collector.Prelude.Decimal.{is_digit, number_from, decimal}
use ahara_collector.Spool.Names.{strip_suffix, parse_segment_name, current, segment_name, padded}
use ahara_collector.Spool.Disk.{Disk}
use ahara_collector.Spool.Model.{Spool, open_spool, next_batch}
use ahara_collector.Spool.WellFormed.{open_spool-WellFormed}
use ahara_collector.Spool.Queue.{IsTidy}
use ahara_collector.Spool.Queue.Rotated.{
  IsTidy-cons, segment_name-IsTidy, current-IsTidy, IsTidy-nil,
}
use ahara_collector.Spool.Queue.Refinement.{IsPoll, next_batch-IsPoll}

abbrev disk : Disk
disk = (segment_name 2, codes "b\n") ∷ (segment_name 1, codes "a\nto") ∷ (current, codes "c\n") ∷ []

spool : Spool
unfolding open_spool
spool = open_spool disk 8 100

disk-IsTidy : IsTidy spool.disk
unfolding spool open_spool
disk-IsTidy =
    IsTidy-cons (segment_name 2) (codes "b\n")
      ((segment_name 1, codes "a\nto") ∷ (current, codes "c\n") ∷ [])
      (segment_name-IsTidy 2 (omega arith))
      (IsTidy-cons (segment_name 1) (codes "a\nto") ((current, codes "c\n") ∷ [])
        (segment_name-IsTidy 1 (omega arith))
        (IsTidy-cons current (codes "c\n") [] current-IsTidy IsTidy-nil))

few_segments : spool.next_seq < 10 ^ 16
unfolding spool open_spool parse_segment_name is_digit number_from all strip_prefix strip_suffix
    segment_name padded decimal
few_segments = omega arith

next_batch-IsPoll_example : IsPoll spool (next_batch spool)
unfolding spool
next_batch-IsPoll_example =
    next_batch-IsPoll spool few_segments disk-IsTidy (open_spool-WellFormed disk 8 100)
