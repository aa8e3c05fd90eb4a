-- ===== src/Spool/Append.antt =====
-- The steps of `Spool::append`, of service/src/spool.rs.
pub mod Full
pub mod Laws
use ahara_collector.Prelude.{
  ℕ, zero, suc, ◌+◌, ◌^◌, ◌≤◌, ◌<◌, ◌≡◌, refl, sym, ap, ◌∙◌, Bool, true, false, ◌⊎◌, Option, none,
  some, List, [], ◌∷◌, ◌++◌, Text, Bytes, arith, leb, if◌then◌else◌, length, length-append,
  is_empty, text_eq, text_eq→eq, text_eq_refl, append_assoc, append-nil, Bool-cases, Option-cases,
  inl, inr,
}
use ahara_collector.Prelude.Results.{Result, ok, err}
use ahara_collector.Prelude.Utf8.{as_bytes}
use ahara_collector.Spool.Names.{current, parse_segment_name, segment_name}
use ahara_collector.Spool.Names.Laws.{parse_segment_name-current}
use ahara_collector.Spool.Disk.{Disk, read_file, append_file, contents, read_file-append_file}
use ahara_collector.Spool.Model.{
  Spool, file_len, rotate, write_lines, enforce_cap, rotate_if_full, append,
}
use ahara_collector.Spool.Cap.{IsCapped}
use ahara_collector.Spool.WellFormed.{
  WellFormed, rotate-WellFormed, with_line, with_bytes-WellFormed,
}

-- What reaches the file: the lines that are not empty, each with a newline.
unfoldable pub line_bytes : List Text → Bytes
line_bytes [] = []
line_bytes (l ∷ ls) =
    let rest = line_bytes ls in if is_empty l then rest else as_bytes l ++ 10 ∷ rest

unfoldable pub count_lines : List Text → ℕ
count_lines [] = 0
count_lines (l ∷ ls) = let rest = count_lines ls in if is_empty l then rest else suc rest

-- What `write_lines` does, in one statement.
pub record Wrote (lines : List Text) (s t : Spool) : Type 0 where
  pub well : WellFormed t
  pub next_seq : t.next_seq ≡ s.next_seq
  pub segment_bytes : t.segment_bytes ≡ s.segment_bytes
  pub max_bytes : t.max_bytes ≡ s.max_bytes
  pub dropped_segments : t.dropped_segments ≡ s.dropped_segments
  pub open_file :
      contents (read_file current t.disk) ≡ contents (read_file current s.disk) ++ line_bytes lines
  pub others :
      (name : Text) → text_eq name current ≡ false → read_file name t.disk ≡ read_file name s.disk

write_lines-empty :
    (l : Text) (ls : List Text) (s : Spool)
    → is_empty l ≡ true
    → write_lines (l ∷ ls) s ≡ write_lines ls s
unfolding write_lines
write_lines-empty l ls s e = rw e

write_lines-line :
    (l : Text) (ls : List Text) (s : Spool)
    → is_empty l ≡ false
    → write_lines (l ∷ ls) s
      ≡ (suc (write_lines ls (with_line l s)).0, (write_lines ls (with_line l s)).1)
unfolding write_lines
write_lines-line l ls s e = rw e

with_line-WellFormed : (l : Text) (s : Spool) → WellFormed s → WellFormed (with_line l s)
with_line-WellFormed l s w =
    let longer = with_bytes-WellFormed s (as_bytes l ++ 10 ∷ []) w in
    record {
      measured = ap (λ n. s.current_len + n) (length-line (as_bytes l)) ∙ longer.measured;
      fresh = longer.fresh;
    }
  where
    length-line : (b : Bytes) → length b + 1 ≡ length (b ++ 10 ∷ [])
    length-line b = omega (arith, length-append b (10 ∷ []))

line_bytes-line :
    (l : Text) (ls : List Text)
    → is_empty l ≡ false
    → line_bytes (l ∷ ls) ≡ as_bytes l ++ 10 ∷ line_bytes ls
unfolding line_bytes
line_bytes-line l ls e = rw e

pub write_lines-Wrote :
    (lines : List Text) (s : Spool)
    → WellFormed s
    → ((write_lines lines s).0 ≡ count_lines lines) × Wrote lines s (write_lines lines s).1
write_lines-Wrote [] s w = (
  unfold write_lines count_lines in refl,
  unfold write_lines line_bytes in
      record {
        well = w;
        next_seq = refl;
        segment_bytes = refl;
        max_bytes = refl;
        dropped_segments = refl;
        open_file = sym (append-nil _);
        others = λ name e. refl;
      },
)
write_lines-Wrote (l ∷ ls) s w = elim (Bool-cases (is_empty l)) [
  | inl e ↦
      let (n, rest) = write_lines-Wrote ls s w in
      rw (write_lines-empty l ls s e) (
        n ∙ (unfold count_lines in rw e),
        record {
          well = rest.well;
          next_seq = rest.next_seq;
          segment_bytes = rest.segment_bytes;
          max_bytes = rest.max_bytes;
          dropped_segments = rest.dropped_segments;
          open_file = rest.open_file ∙ (unfold line_bytes in rw e);
          others = rest.others;
        },
      )
  | inr e ↦
      let (n, rest) = write_lines-Wrote ls (with_line l s) (with_line-WellFormed l s w) in
      rw (write_lines-line l ls s e) (
        ap suc n ∙ (unfold count_lines in rw e),
        record {
          well = rest.well;
          next_seq = rest.next_seq;
          segment_bytes = rest.segment_bytes;
          max_bytes = rest.max_bytes;
          dropped_segments = rest.dropped_segments;
          open_file =
              rest.open_file
              ∙ rw
                  (
                    read_file-append_file current current (as_bytes l ++ 10 ∷ []) s.disk,
                    text_eq_refl current,
                    line_bytes-line l ls e,
                  )
                  (regroup (contents (read_file current s.disk)) (as_bytes l) (line_bytes ls));
          others = λ name p.
              rest.others name p
              ∙ rw (read_file-append_file current name (as_bytes l ++ 10 ∷ []) s.disk, p);
        },
      )
]
  where
    regroup : (a b c : Bytes) → (a ++ (b ++ 10 ∷ [])) ++ c ≡ a ++ (b ++ 10 ∷ c)
    regroup a b c = simp append_assoc

pub IsCapped-WellFormed : (s t : Spool) → IsCapped s t → WellFormed s → WellFormed t
IsCapped-WellFormed s t c w = record {
  measured =
      c.current_len ∙ w.measured ∙ ap file_len (sym (c.others current parse_segment_name-current));
  fresh = λ name n b r p. rw c.next_seq (w.fresh name n b (c.kept name b r) p);
}
