-- ===== src/Spool/Append/Full.antt =====
-- The end of `Spool::append` of service/src/spool.rs: the open segment is closed when it is full.
use ahara_collector.Prelude.{
  none, Bool, true, ltb, length, if◌then◌else◌, ◌&&◌, ◌+◌, ◌^◌, ◌<◌, ◌≡◌, refl, ap, ◌∙◌, false,
  Option, some, [], Text, Bytes, arith, leb, text_eq, text_eq_refl, Bool-cases, inl, inr,
}
use ahara_collector.Prelude.Results.{ok}
use ahara_collector.Spool.Names.{current, segment_name}
use ahara_collector.Spool.Names.Laws.{current-ne-segment_name}
use ahara_collector.Spool.Disk.{read_file, contents}
use ahara_collector.Spool.Model.{Spool, rotate, rotate_if_full, file_len}
use ahara_collector.Spool.WellFormed.{
  WellFormed, rotate_lem, rotated, read_file-rotated, rotated-WellFormed,
}

-- Whether the bytes of the open segment close it.
abbrev pub is_full : Bytes → Spool → Bool
is_full b s = leb s.segment_bytes (length b) && ltb 0 (length b)

-- `t` is `s` with the bytes `b` in its open segment, which is closed if it is full and not empty.
pub record Filled (b : Bytes) (s t : Spool) : Type 0 where
  pub open_part : contents (read_file current t.disk) ≡ (if is_full b s then [] else b)
  pub others :
      (name : Text)
      → text_eq name current ≡ false
      → read_file name t.disk ≡ (
          if is_full b s && text_eq name (segment_name s.next_seq)
          then some b
          else read_file name s.disk)
  pub next_seq : t.next_seq ≡ (if is_full b s then s.next_seq + 1 else s.next_seq)
  pub segment_bytes : t.segment_bytes ≡ s.segment_bytes
  pub max_bytes : t.max_bytes ≡ s.max_bytes
  pub dropped_segments : t.dropped_segments ≡ s.dropped_segments

unfilled :
    (b : Bytes) (s : Spool)
    → is_full b s ≡ false
    → contents (read_file current s.disk) ≡ b
    → Filled b s s
unfilled b s e p = record {
  open_part = rw e p;
  others = λ name q. rw e;
  next_seq = rw e;
  segment_bytes = refl;
  max_bytes = refl;
  dropped_segments = refl;
}

rotated-Filled : (b : Bytes) (s : Spool) → is_full b s ≡ true → Filled b s (rotated s b)
rotated-Filled b s e = record {
  open_part =
      rw (
        e,
        read_file-rotated s b current,
        current-ne-segment_name s.next_seq,
        text_eq_refl current,
      );
  others = λ name q. rw (e, read_file-rotated s b name, q);
  next_seq = rw e;
  segment_bytes = refl;
  max_bytes = refl;
  dropped_segments = refl;
}

file_len-contents : (o : Option Bytes) → file_len o ≡ length (contents o)
unfolding file_len
file_len-contents none = refl
file_len-contents (some b) = refl

rotate-full : (s : Spool) → leb s.segment_bytes s.current_len ≡ true → rotate_if_full s ≡ rotate s
unfolding rotate_if_full
rotate-full s e = rw e

-- `rotate_if_full`, by the bytes of the open segment.
pub rotate_if_full-Filled :
    (s : Spool)
    → s.next_seq < 10 ^ 16
    → WellFormed s
    → ((rotate_if_full s).0 ≡ ok tt)
      × WellFormed (rotate_if_full s).1
      × Filled (contents (read_file current s.disk)) s (rotate_if_full s).1
unfolding rotate_if_full
rotate_if_full-Filled s h w =
    let measured : s.current_len ≡ length (contents (read_file current s.disk)) =
      w.measured ∙ file_len-contents (read_file current s.disk) in
    elim (Bool-cases (leb s.segment_bytes s.current_len)) [
      | inl e ↦ elim (rotate_lem s w) [
        | inl (z, q) ↦
            rw (rotate-full s e, q) (refl, w, unfilled _ s (ground (arith, measured)) refl)
        | inr (b, r, pos, q) ↦
            let long : s.current_len ≡ length b = measured ∙ ap (λ o. length (contents o)) r in
            rw (rotate-full s e, q, r)
              (refl, rotated-WellFormed s b h w, rotated-Filled b s (ground (arith, long)))
      ]
      | inr e ↦ rw e (refl, w, unfilled _ s (ground (arith, measured)) refl)
    ]
