-- ===== src/Spool/Model.antt =====
-- `Spool` of service/src/spool.rs with its operations: its directory and the fields of `Inner`.
-- Each operation holds the mutex from its first read to its last write, so each is one step. A step
-- that fails returns the state that it left behind beside the error.
use ahara_collector.Prelude.{
  ℕ, zero, suc, ◌+◌, max, Bool, true, false, not, ◌&&◌, Option, none, some, List, [], ◌∷◌, ◌++◌,
  Text, Bytes, ltb, leb, ◌==◌, if◌then◌else◌, length, is_empty, take,
}
use ahara_collector.Prelude.Options.{is_some, map_some}
use ahara_collector.Prelude.Results.{Result, ok, err}
use ahara_collector.Prelude.Utf8.{as_bytes, from_utf8_lossy}
use ahara_collector.Spool.Names.{current, segment_name, parse_segment_name}
use ahara_collector.Spool.Disk.{Disk, read_file, remove_file, append_file, create_file}

pub record Spool : Type 0 where
  pub disk : Disk
  pub segment_bytes : ℕ
  pub max_bytes : ℕ
  pub next_seq : ℕ
  pub current_len : ℕ
  pub dropped_segments : ℕ

pub data IoError : Type 0 where
  not_found invalid_input : IoError

abbrev pub Io : Type 0 → Type 0
Io A = Result IoError A × Spool

-- The file names that are names of segments, with their numbers and lengths, as `read_dir` lists
-- them.
pub record Segment : Type 0 where
  pub seq : ℕ
  pub name : Text
  pub len : ℕ

unfoldable pub segments : Disk → List Segment
segments [] = []
segments ((n, b) ∷ d) = elim (parse_segment_name n) [
  | none ↦ segments d
  | some seq ↦ record { seq = seq; name = n; len = length b } ∷ segments d
]

unfoldable pub max_seq : ℕ → List Segment → ℕ
max_seq m [] = m
max_seq m (g ∷ gs) = max_seq (max m g.seq) gs

unfoldable pub file_len : Option Bytes → ℕ
file_len none = 0
file_len (some b) = length b

-- `Spool::open`
unfoldable pub open_spool : Disk → ℕ → ℕ → Spool
unfolding file_len segments max_seq
open_spool d segment_bytes max_bytes = record {
  disk = d;
  segment_bytes = segment_bytes;
  max_bytes = max_bytes;
  next_seq = max_seq 0 (segments d) + 1;
  current_len = file_len (read_file current d);
  dropped_segments = 0;
}

unfoldable pub rotate : Spool → Io (Unit {0})
unfolding create_file
rotate s = if s.current_len == 0 then (ok tt, s) else elim (read_file current s.disk) [
  | none ↦ (err not_found, s)
  | some b ↦ (
    ok tt,
    record s {
      disk = create_file (segment_name s.next_seq) b (remove_file current s.disk);
      next_seq = s.next_seq + 1;
      current_len = 0;
    },
  )
]

-- The first of the smallest number.
unfoldable pub oldest_from : Option Segment → List Segment → Option Segment
oldest_from best [] = best
oldest_from none (g ∷ gs) = oldest_from (some g) gs
oldest_from (some b) (g ∷ gs) = oldest_from (some (if ltb g.seq b.seq then g else b)) gs

unfoldable pub oldest_segment : Disk → Option Text
unfolding segments oldest_from
oldest_segment d = map_some (λ (g : Segment). g.name) (oldest_from none (segments d))

unfoldable pub sum_len : List Segment → ℕ
sum_len [] = 0
sum_len (g ∷ gs) = g.len + sum_len gs

-- `sort_by_key(seq)`, which is stable.
unfoldable pub insert_by_seq : Segment → List Segment → List Segment
insert_by_seq g [] = g ∷ []
insert_by_seq g (h ∷ hs) = if leb g.seq h.seq then g ∷ h ∷ hs else h ∷ insert_by_seq g hs

unfoldable pub sort_by_seq : List Segment → List Segment
unfolding insert_by_seq
sort_by_seq [] = []
sort_by_seq (g ∷ gs) = insert_by_seq g (sort_by_seq gs)

unfoldable pub total : Spool → ℕ
unfolding segments sum_len
total s = s.current_len + sum_len (segments s.disk)

unfoldable pub drop_segment : Segment → Spool → Spool
drop_segment g s = record s {
  disk = remove_file g.name s.disk;
  dropped_segments = s.dropped_segments + 1;
}

-- The loop of `enforce_cap`; each round removes a file, so the number of files is enough fuel.
unfoldable pub cap_loop : ℕ → Spool → Spool
cap_loop zero s = s
cap_loop (suc f) s =
    if leb (total s) s.max_bytes
    then s
    else elim (sort_by_seq (segments s.disk)) [ [] ↦ s | g ∷ _ ↦ cap_loop f (drop_segment g s) ]

unfoldable pub enforce_cap : Spool → Spool
enforce_cap s = cap_loop (length s.disk) s

-- The loop of `append` over the lines.
unfoldable pub write_lines : List Text → Spool → ℕ × Spool
unfolding as_bytes append_file
write_lines [] s = (0, s)
write_lines (line ∷ lines) s =
    let bytes = as_bytes line in
    let s' = if is_empty line then s else record s {
      disk = append_file current (bytes ++ 10 ∷ []) s.disk;
      current_len = s.current_len + (length bytes + 1);
    } in
    let (written, s'') = write_lines lines s' in
    (if is_empty line then written else suc written, s'')

unfoldable pub rotate_if_full : Spool → Io (Unit {0})
rotate_if_full s = if leb s.segment_bytes s.current_len then rotate s else (ok tt, s)

unfoldable pub append : List Text → Spool → Io ℕ
append [] s = (ok 0, s)
append (line ∷ lines) s =
    let opened = record s { disk = append_file current [] s.disk } in
    let (written, s₁) = write_lines (line ∷ lines) opened in
    let (r, s₂) = rotate_if_full s₁ in
    elim r [ ok _ ↦ (ok written, enforce_cap s₂) | err e ↦ (err e, s₂) ]

-- `rfind('\n')`
unfoldable pub rfind : ℕ → Text → Option ℕ
rfind c [] = none
rfind c (a ∷ s) = elim (rfind c s) [
  | none ↦ if a == c then some 0 else none
  | some i ↦ some (suc i)
]

unfoldable pub ends_with : ℕ → Text → Bool
ends_with c [] = false
ends_with c (a ∷ []) = a == c
ends_with c (a ∷ b ∷ s) = ends_with c (b ∷ s)

-- A torn last line is dropped.
unfoldable pub complete_lines : Text → Text
unfolding rfind ends_with
complete_lines t =
    if not (is_empty t) && not (ends_with 10 t)
    then elim (rfind 10 t) [ none ↦ [] | some i ↦ take (suc i) t ]
    else t

unfoldable pub serve : Spool → Option Text → Io (Option (Text × Text))
unfolding complete_lines
serve s none = (ok none, s)
serve s (some name) = elim (read_file name s.disk) [
  | none ↦ (err not_found, s)
  | some b ↦ (ok (some (name, complete_lines (from_utf8_lossy b))), s)
]

unfoldable pub rotate_if_idle : Spool → Io (Unit {0})
rotate_if_idle s =
    if not (is_some (oldest_segment s.disk)) && ltb 0 s.current_len then rotate s else (ok tt, s)

unfoldable pub next_batch : Spool → Io (Option (Text × Text))
next_batch s =
    let (r, s') = rotate_if_idle s in
    elim r [ ok _ ↦ serve s' (oldest_segment s'.disk) | err e ↦ (err e, s') ]

unfoldable pub ack : Text → Spool → Io Bool
ack batch_id s =
    if is_some (parse_segment_name batch_id)
    then elim (read_file batch_id s.disk) [
      | none ↦ (ok false, s)
      | some _ ↦ (ok true, record s { disk = remove_file batch_id s.disk })
    ]
    else (ok false, s)

pub record SpoolStats : Type 0 where
  pub total_bytes : ℕ
  pub closed_segments : ℕ
  pub dropped_segments : ℕ

unfoldable pub stats : Spool → SpoolStats
unfolding total
stats s = record {
  total_bytes = total s;
  closed_segments = length (segments s.disk);
  dropped_segments = s.dropped_segments;
}
