-- ===== src/Spool/Queue.antt =====
-- What a reader sees of a spool of service/src/spool.rs: numbered closed parts and an open one.
pub mod Rotated
pub mod Refinement
use ahara_collector.Prelude.{
  ℕ, suc, ◌+◌, ◌^◌, ◌≤◌, ◌<◌, ◌≡◌, refl, sym, ap, subst, ◌∙◌, ◌⊎◌, true, not, ◌&&◌, Option, none,
  some, [], ◌∷◌, Text, Bytes, arith, length, ltb, ◌==◌, if◌then◌else◌, text_eq, text_eq→eq,
  text_eq_refl, Bool-cases, Option-cases, inl, inr, false,
}
use ahara_collector.Prelude.Options.{is_some}
use ahara_collector.Prelude.Results.{Result, ok, err}
use ahara_collector.Prelude.Utf8.{from_utf8_lossy}
use ahara_collector.Spool.Names.{current, segment_name, parse_segment_name}
use ahara_collector.Spool.Names.Laws.{
  parse_segment_name-segment_name, parse_segment_name-current, current-ne-segment_name,
}
use ahara_collector.Spool.Disk.{Disk, read_file, contents}
use ahara_collector.Spool.Listing.{listed_bound}
use ahara_collector.Spool.Model.{
  Spool, IoError, segments, file_len, rotate, rotate_if_idle, oldest_segment, complete_lines,
  next_batch, serve, Io,
}
use ahara_collector.Spool.WellFormed.{
  WellFormed, rotated, rotate_lem, read_file-rotated, rotated-WellFormed,
}
use ahara_collector.Spool.Delivery.{
  IsOldest, oldest_segment_lem, next_batch-ready, next_batch-oldest, serve_lem, serve-none,
}

pub record Queue : Type 0 where
  pub closed : ℕ → Option Bytes
  pub open_part : Bytes
  pub next : ℕ

pub view : Spool → Queue
view s = record {
  closed = λ n. read_file (segment_name n) s.disk;
  open_part = contents (read_file current s.disk);
  next = s.next_seq;
}

abbrev pub NoneClosed : Queue → Type 0
NoneClosed q = (n : ℕ) → n < 10 ^ 16 → q.closed n ≡ none

-- The open part has become the next closed one.
pub record Sealed (q q' : Queue) : Type 0 where
  pub closed :
      (n : ℕ) → n < 10 ^ 16 → q'.closed n ≡ (if n == q.next then some q.open_part else q.closed n)
  pub open_part : q'.open_part ≡ []
  pub next : q'.next ≡ q.next + 1

-- A poll of a queue, with its answer and the queue that it leaves: the first closed part, or the open
-- part, which is closed for it, or nothing.
pub data Polled (q : Queue) : Option (ℕ × Bytes) → Queue → Type 0 where
  first :
      {n : ℕ} {b : Bytes}
      → q.closed n ≡ some b
      → ((m : ℕ) (c : Bytes) → m < 10 ^ 16 → q.closed m ≡ some c → n ≤ m)
      → Polled q (some (n, b)) q
  sealed :
      {q' : Queue}
      → NoneClosed q
      → 0 < length q.open_part
      → Sealed q q'
      → Polled q (some (q.next, q.open_part)) q'
  drained : NoneClosed q → q.open_part ≡ [] → Polled q none q

-- The reader's answer, by the name and the lines of the part.
pub answer : Option (ℕ × Bytes) → Result IoError (Option (Text × Text))
answer none = ok none
answer (some (n, b)) = ok (some (segment_name n, complete_lines (from_utf8_lossy b)))

-- Every closed segment has the name that the program gives to its number.
pub IsTidy : Disk → Type 0
IsTidy d =
    (name : Text) (n : ℕ) (b : Bytes)
    → read_file name d ≡ some b
    → parse_segment_name name ≡ some n
    → (name ≡ segment_name n) × (n < 10 ^ 16)

pub not_listed :
    (d : Disk) (name : Text) (n : ℕ) (b : Bytes)
    → segments d ≡ []
    → read_file name d ≡ some b
    → parse_segment_name name ≡ some n
    → ⊥
not_listed d name n b e r p = absurd (omega (arith, listed_bound (suc n) d name n b (rw e tt) r p))

pub none_closed : (s : Spool) → segments s.disk ≡ [] → NoneClosed (view s)
unfolding view
none_closed s e n h = elim (Option-cases (read_file (segment_name n) s.disk)) [
  | inl r ↦ r
  | inr (b, r) ↦
      absurd (not_listed s.disk (segment_name n) n b e r (parse_segment_name-segment_name n h))
]

-- The oldest segment of a tidy directory is the first part.
pub oldest-first :
    (s : Spool) (name : Text) (o : IsOldest s.disk name)
    → IsTidy s.disk
    → (name ≡ segment_name o.seq) × Polled (view s) (some (o.seq, o.bytes)) (view s)
unfolding view IsTidy
oldest-first s name o t =
    let (same, below) = t name o.seq o.bytes o.there o.numbered in
    (
      same,
      first (ap (λ k. read_file k s.disk) (sym same) ∙ o.there)
          λ m c h r. o.least (segment_name m) m c r (parse_segment_name-segment_name m h),
    )

pub empty_open : (o : Option Bytes) → file_len o ≡ 0 → contents o ≡ []
unfolding file_len
empty_open none h = refl
empty_open (some []) h = refl
empty_open (some (c ∷ b)) h = absurd (omega (arith, h))
