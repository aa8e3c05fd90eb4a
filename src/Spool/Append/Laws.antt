-- ===== src/Spool/Append/Laws.antt =====
-- `Spool::append` of service/src/spool.rs, its steps put together.
use ahara_collector.Prelude.{
  ℕ, ◌^◌, ◌<◌, ◌≡◌, sym, ap, false, ◌⊎◌, Option, some, List, [], ◌∷◌, ◌++◌, Text, Bytes, text_eq,
  text_eq→eq, Bool-cases, inl, inr,
}
use ahara_collector.Prelude.Results.{ok}
use ahara_collector.Spool.Names.{current, parse_segment_name, segment_name}
use ahara_collector.Spool.Names.Laws.{parse_segment_name-current, parse_segment_name-segment_name}
use ahara_collector.Spool.Disk.{read_file, append_file, contents}
use ahara_collector.Spool.Model.{Spool, Io, rotate, write_lines, rotate_if_full}
use ahara_collector.Spool.Cap.{IsCapped, IsWithinCap}
use ahara_collector.Spool.Cap.Trim.{IsTrimmed}
use ahara_collector.Spool.WellFormed.{
  WellFormed, rotate_lem, rotated, read_file-rotated, rotate-WellFormed,
}
use ahara_collector.Spool.Append.Full.{Filled}
use ahara_collector.Spool.Append.{line_bytes, count_lines}

-- The open segment after `create(true)`, before the first line.
abbrev opened : Spool → Spool
opened s = record s { disk = append_file current [] s.disk }

-- What has been written when the open segment is about to be closed.
abbrev pub pending : List Text → Spool → Bytes
pending lines s = contents (read_file current s.disk) ++ line_bytes lines

-- The closed segments of `t` are those of `s`, unchanged, and perhaps one more, with the number
-- that was next and the bytes `b`.
abbrev pub Closes : Bytes → Spool → Spool → Type 0
Closes b s t =
    (name : Text) (n : ℕ) (c : Bytes)
    → parse_segment_name name ≡ some n
    → read_file name t.disk ≡ some c
    → (read_file name s.disk ≡ some c) ⊎ ((n ≡ s.next_seq) × (c ≡ b))

not_current :
    (name : Text) (n : ℕ) → parse_segment_name name ≡ some n → text_eq name current ≡ false
not_current name n p = elim (Bool-cases (text_eq name current)) [
  | inl e ↦ cc (p, ap parse_segment_name (text_eq→eq name current e), parse_segment_name-current)
  | inr e ↦ e
]

rotated-Closes : (s : Spool) (b : Bytes) → s.next_seq < 10 ^ 16 → Closes b s (rotated s b)
rotated-Closes s b h name n c p r = elim (Bool-cases (text_eq name (segment_name s.next_seq))) [
  | inl e ↦ inr (
    cc (
      p,
      ap parse_segment_name (text_eq→eq name (segment_name s.next_seq) e),
      parse_segment_name-segment_name s.next_seq h,
    ),
    cc (rw (read_file-rotated s b name, e) at r),
  )
  | inr e ↦ inl (rw (read_file-rotated s b name, e, not_current name n p) at r)
]

contents-some : (o : Option Bytes) (b : Bytes) → o ≡ some b → b ≡ contents o
contents-some o b e = rw e

-- `rotate`, whether or not there is something to rotate.
pub rotate-Closes :
    (s : Spool)
    → s.next_seq < 10 ^ 16
    → WellFormed s
    → ((rotate s).0 ≡ ok tt)
      × WellFormed (rotate s).1
      × Closes (contents (read_file current s.disk)) s (rotate s).1
rotate-Closes s h w =
    let (done, well, _) = rotate-WellFormed s h w in
    (
      done,
      well,
      elim (rotate_lem s w) [
        | inl (z, e) ↦ rw e (λ name n c p r. inl r)
        | inr (b, r, q, e) ↦ rw (e, sym (contents-some _ b r)) (rotated-Closes s b h)
      ],
    )

-- What `append` of some lines ensures of its result, and of the spool that it leaves: `stored` is
-- the spool with the lines before the cap.
pub record Appended (lines : List Text) (s : Spool) (r : Io ℕ) : Type 0 where
  pub count : r.0 ≡ ok (count_lines lines)
  pub well : WellFormed r.1
  pub stored : Spool
  pub filled : Filled (pending lines s) s stored
  pub cap : IsWithinCap r.1
  pub capped : IsCapped stored r.1
  pub trimmed : IsTrimmed stored r.1

module _ (l : Text) (ls : List Text) (s : Spool) (h : s.next_seq < 10 ^ 16) (w : WellFormed s) where
  abbrev wrote : Spool
  wrote = (write_lines (l ∷ ls) (opened s)).1

  abbrev after : Spool
  after = (rotate_if_full wrote).1
