-- ===== src/Spool/Drain.antt =====
-- A client that polls `next_batch` and acknowledges what it gets, until there is nothing left, of
-- service/src/spool.rs.
use ahara_collector.Prelude.{
  ℕ, zero, suc, ◌+◌, ◌^◌, ◌≤◌, ◌<◌, ◌≡◌, refl, ap, not, ◌&&◌, Option, none, some, [], Text, arith,
  length, ltb, Bool-cases, inl, inr,
}
use ahara_collector.Prelude.Results.{Result, ok}
use ahara_collector.Prelude.Options.{is_some}
use ahara_collector.Spool.Names.{current, segment_name}
use ahara_collector.Spool.Disk.{remove_file, create_file}
use ahara_collector.Spool.Model.{
  Spool, IoError, segments, rotate, rotate_if_idle, oldest_segment, next_batch, ack,
}
use ahara_collector.Spool.WellFormed.{WellFormed, rotate_lem}
use ahara_collector.Spool.Cap.{length-remove_file_le, length-remove_file_lt}
use ahara_collector.Spool.Delivery.{IsOldest, next_batch_lem, next_batch_cases}
use ahara_collector.Spool.Acknowledge.{ack-WellFormed}

-- The identifier of the batch that a poll gave.
batch_id : Result IoError (Option (Text × Text)) → Option Text
batch_id (ok (some (id, text))) = some id
batch_id _ = none

pub drain : ℕ → Spool → Spool
unfolding batch_id
drain zero s = s
drain (suc f) s = elim (batch_id (next_batch s).0) [
  | none ↦ (next_batch s).1
  | some id ↦ drain f (ack id (next_batch s).1).1
]

-- A rotation gives out at most one number and makes no more files.
record Steady (s t : Spool) : Type 0 where
  next_seq : t.next_seq ≤ s.next_seq + 1
  files : length t.disk ≤ length s.disk

rotate-Steady : (s : Spool) → WellFormed s → Steady s (rotate s).1
unfolding create_file
rotate-Steady s w = elim (rotate_lem s w) [
  | inl (z, e) ↦ rw e (record { next_seq = omega arith; files = omega arith })
  | inr (b, r, q, e) ↦ rw e (record {
    next_seq = omega arith;
    files = omega (
      arith,
      length-remove_file_le (segment_name s.next_seq) (remove_file current s.disk),
      length-remove_file_lt current b s.disk r,
    );
  })
]

rotate_if_idle-Steady : (s : Spool) → WellFormed s → Steady s (rotate_if_idle s).1
unfolding rotate_if_idle
rotate_if_idle-Steady s w =
    elim (Bool-cases (not (is_some (oldest_segment s.disk)) && ltb 0 s.current_len)) [
      | inl e ↦ rw e (rotate-Steady s w)
      | inr e ↦ rw e (record { next_seq = omega arith; files = omega arith })
    ]

next_batch-Steady : (s : Spool) → s.next_seq < 10 ^ 16 → WellFormed s → Steady s (next_batch s).1
next_batch-Steady s h w =
    let state : (next_batch s).1 ≡ (rotate_if_idle s).1 = elim (next_batch_cases s h w) [
      | inl e ↦ ap (λ r. r.1) e
      | inr (name, o, again, e) ↦ ap (λ r. r.1) e
    ] in
    rw state (rotate_if_idle-Steady s w)

-- Acknowledging the oldest segment leaves fewer files.
ack-fewer :
    (name : Text) (t : Spool)
    → IsOldest t.disk name
    → ((ack name t).1.next_seq ≡ t.next_seq) × (length (ack name t).1.disk < length t.disk)
unfolding ack
ack-fewer name t o =
    rw (o.numbered, o.there) (refl, length-remove_file_lt name o.bytes t.disk o.there)

pub record IsDrained (t : Spool) : Type 0 where
  pub well : WellFormed t
  pub closed : segments t.disk ≡ []
  pub nothing_open : t.current_len ≡ 0

-- A client that acknowledges every batch it gets has emptied a well-formed spool after as many polls
-- as there are files, and one more: no closed segment is left, and nothing is in the open one. The
-- numbers of segments do not run out meanwhile.
pub drain-IsDrained :
    (f : ℕ) (s : Spool)
    → length s.disk < f
    → s.next_seq + length s.disk < 10 ^ 16
    → WellFormed s
    → IsDrained (drain f s)
unfolding drain batch_id
drain-IsDrained zero s k h w = absurd (omega arith)
drain-IsDrained (suc f) s k h w =
    let batched = next_batch_lem s (omega arith) w in
    let steady = next_batch-Steady s (omega arith) w in
    elim batched.served [
      | inl (e, left, empty) ↦
          rw (e, drain) (record { well = batched.well; closed = left; nothing_open = empty })
      | inr (name, o, e) ↦
          let fewer = ack-fewer name (next_batch s).1 o in
          rw (e, drain)
            (drain-IsDrained f (ack name (next_batch s).1).1 (omega (arith, fewer.1, steady.files))
              (omega (arith, fewer.0, fewer.1, steady.files, steady.next_seq))
              (ack-WellFormed name (next_batch s).1 batched.well))
    ]
