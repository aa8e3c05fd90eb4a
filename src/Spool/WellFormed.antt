-- ===== src/Spool/WellFormed.antt =====
-- The invariant of a spool: the recorded length of the open segment is the length of its file, and
-- no closed segment has a number that is still to be given out.
use ahara_collector.Prelude.{
  ℕ, ◌+◌, ◌^◌, ◌≤◌, ◌<◌, ◌≡◌, refl, ap, ◌⊎◌, Option, none, some, List, [], ◌∷◌, ◌++◌, Text, Bytes,
  arith, All, max, ◌==◌, if◌then◌else◌, length, length-append, text_eq, text_eq→eq, text_eq_refl,
  Bool-cases, inl, inr,
}
use ahara_collector.Prelude.Results.{ok}
use ahara_collector.Prelude.Utf8.{as_bytes}
use ahara_collector.Spool.Names.{current, segment_name, parse_segment_name}
use ahara_collector.Spool.Names.Laws.{
  parse_segment_name-current, parse_segment_name-segment_name, current-ne-segment_name,
}
use ahara_collector.Spool.Disk.{
  Disk, read_file, remove_file, append_file, create_file, contents, read_file-remove_file,
  read_file-create_file, read_file-append_file,
}
use ahara_collector.Spool.Model.{Spool, Segment, segments, max_seq, file_len, open_spool, rotate}
use ahara_collector.Spool.Listing.{listed_below}

pub record WellFormed (s : Spool) : Type 0 where
  pub measured : s.current_len ≡ file_len (read_file current s.disk)
  pub fresh :
      (name : Text) (n : ℕ) (b : Bytes)
      → read_file name s.disk ≡ some b
      → parse_segment_name name ≡ some n
      → n < s.next_seq

max_seq-le : (m : ℕ) (gs : List Segment) → m ≤ max_seq m gs
unfolding max_seq
max_seq-le m [] = omega arith
max_seq-le m (g ∷ gs) = omega (arith, max_seq-le (max m g.seq) gs)

All-max_seq : (m : ℕ) (gs : List Segment) → All (λ g. g.seq ≤ max_seq m gs) gs
unfolding max_seq
All-max_seq m [] = tt
All-max_seq m (g ∷ gs) = (omega (arith, max_seq-le (max m g.seq) gs), All-max_seq (max m g.seq) gs)

-- A directory that is opened is well formed, whatever it holds.
pub open_spool-WellFormed :
    (d : Disk) (segment_bytes max_bytes : ℕ) → WellFormed (open_spool d segment_bytes max_bytes)
unfolding open_spool
open_spool-WellFormed d segment_bytes max_bytes = record {
  measured = refl;
  fresh = λ name n b r p.
      omega
        (arith, listed_below (max_seq 0 (segments d)) d name n b (All-max_seq 0 (segments d)) r p);
}

-- The state after a rotation that has something to rotate.
abbrev pub rotated : Spool → Bytes → Spool
rotated s b = record s {
  disk = create_file (segment_name s.next_seq) b (remove_file current s.disk);
  next_seq = s.next_seq + 1;
  current_len = 0;
}

pub read_file-rotated :
    (s : Spool) (b : Bytes) (name : Text)
    → read_file name (rotated s b).disk ≡ (
        if text_eq name (segment_name s.next_seq)
        then some b
        else if text_eq name current
        then none
        else read_file name s.disk)
read_file-rotated s b name = rw (
  read_file-create_file (segment_name s.next_seq) name b (remove_file current s.disk),
  read_file-remove_file current name s.disk,
)

file_len-pos : (o : Option Bytes) → 0 < file_len o → (b : Bytes) × (o ≡ some b)
unfolding file_len
file_len-pos none h = absurd (omega arith)
file_len-pos (some b) h = (b, refl)

-- What `rotate` does: nothing to an empty open segment, and else it closes it; it does not fail.
pub rotate_lem :
    (s : Spool)
    → WellFormed s
    → ((s.current_len ≡ 0) × (rotate s ≡ (ok tt, s)))
      ⊎ ((b : Bytes) × (read_file current s.disk ≡ some b)
          × (0 < length b)
          × (rotate s ≡ (ok tt, rotated s b)))
unfolding rotate
rotate_lem s w = elim (Bool-cases (s.current_len == 0)) [
  | inl e ↦ inl (ground arith, rw e)
  | inr e ↦
      let (b, r) = file_len-pos (read_file current s.disk) (ground (arith, w.measured)) in
      inr (b, r, (unfold file_len in ground (arith, w.measured)), rw (e, r))
]

rotated-fresh :
    (s : Spool) (b : Bytes)
    → s.next_seq < 10 ^ 16
    → WellFormed s
    → (name : Text) (n : ℕ) (c : Bytes) → read_file name (rotated s b).disk ≡ some c
    → parse_segment_name name ≡ some n
    → n < s.next_seq + 1
rotated-fresh s b h w name n c r p = elim (Bool-cases (text_eq name (segment_name s.next_seq))) [
  | inl e ↦
      let same : n ≡ s.next_seq = cc (
        p,
        ap parse_segment_name (text_eq→eq name (segment_name s.next_seq) e),
        parse_segment_name-segment_name s.next_seq h,
      ) in
      omega arith
  | inr e ↦ elim (Bool-cases (text_eq name current)) [
    | inl q ↦ cc (rw (read_file-rotated s b name, e, q) at r)
    | inr q ↦
        let below = w.fresh name n c (rw (read_file-rotated s b name, e, q) at r) p in omega arith
  ]
]

pub rotated-WellFormed :
    (s : Spool) (b : Bytes) → s.next_seq < 10 ^ 16 → WellFormed s → WellFormed (rotated s b)
unfolding file_len
rotated-WellFormed s b h w = record {
  measured =
      rw (read_file-rotated s b current, current-ne-segment_name s.next_seq, text_eq_refl current);
  fresh = rotated-fresh s b h w;
}

pub rotate-WellFormed :
    (s : Spool)
    → s.next_seq < 10 ^ 16
    → WellFormed s
    → ((rotate s).0 ≡ ok tt) × WellFormed (rotate s).1 × ((rotate s).1.next_seq ≤ s.next_seq + 1)
rotate-WellFormed s h w = elim (rotate_lem s w) [
  | inl (z, e) ↦ rw e (refl, w, omega arith)
  | inr (b, r, q, e) ↦ rw e (refl, rotated-WellFormed s b h w, omega arith)
]

-- One line of `append`.
abbrev pub with_line : Text → Spool → Spool
with_line line s = record s {
  disk = append_file current (as_bytes line ++ 10 ∷ []) s.disk;
  current_len = s.current_len + (length (as_bytes line) + 1);
}

pub with_bytes-WellFormed :
    (s : Spool) (bytes : Bytes)
    → WellFormed s
    → WellFormed (record s {
      disk = append_file current bytes s.disk;
      current_len = s.current_len + length bytes;
    })
with_bytes-WellFormed s bytes w = record {
  measured =
      rw (read_file-append_file current current bytes s.disk, text_eq_refl current)
        (measured_append (read_file current s.disk) w.measured);
  fresh = λ name n b r p. elim (Bool-cases (text_eq name current)) [
    | inl e ↦ cc (p, ap parse_segment_name (text_eq→eq name current e), parse_segment_name-current)
    | inr e ↦ w.fresh name n b (rw (read_file-append_file current name bytes s.disk, e) at r) p
  ];
}
  where
    measured_append :
        (o : Option Bytes)
        → s.current_len ≡ file_len o
        → s.current_len + length bytes ≡ file_len (some (contents o ++ bytes))
    measured_append none h = unfold file_len in omega arith
    measured_append (some b) h = unfold file_len in omega (arith, length-append b bytes)
