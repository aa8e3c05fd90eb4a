-- ===== src/Spool/Cap/Trim.antt =====
-- What `Inner::enforce_cap` of service/src/spool.rs drops: no more than the limit asks for, and each
-- file is counted.
use ahara_collector.Prelude.{
  if◌then◌else◌, ℕ, zero, suc, ◌+◌, ◌≤◌, ◌<◌, ◌≡◌, refl, sym, ap, ◌∙◌, Bool, true, false, not, ◌&&◌,
  none, some, List, [], ◌∷◌, Text, Bytes, arith, All, any, keep, leb, length, text_eq, text_eq→eq,
  text_eq_refl, Bool-cases, Option-cases, inl, inr,
}
use ahara_collector.Prelude.Options.{is_some, none-ne-some}
use ahara_collector.Spool.Names.{parse_segment_name}
use ahara_collector.Spool.Disk.{Disk, read_file, remove_file, read_file-remove_file}
use ahara_collector.Spool.Model.{
  Spool, Segment, segments, sort_by_seq, sum_len, total, drop_segment, cap_loop, enforce_cap,
}
use ahara_collector.Spool.Cap.{
  IsOldest, sorted-first, sorted-IsOldest, List-cases, IsWithinCap, IsCapped, cap_loop-IsWithinCap,
  cap_loop-IsCapped,
}

-- The bytes of the open segment and of the closed ones whose number is at least `n`.
unfoldable pub bytes_from : ℕ → Spool → ℕ
unfolding sum_len keep segments
bytes_from n s = s.current_len + sum_len (keep (λ (g : Segment). leb n g.seq) (segments s.disk))

-- No name stands twice in a list.
abbrev pub IsDistinct : List Text → Type 0
IsDistinct [] = Unit
IsDistinct (x ∷ xs) = (any (text_eq x) xs ≡ false) × IsDistinct xs

-- `t` is `s` without some files, of which each had to go and was counted once.
pub record IsTrimmed (s t : Spool) : Type 0 where
  pub needed :
      (name : Text) (n : ℕ) (b : Bytes)
      → parse_segment_name name ≡ some n
      → read_file name s.disk ≡ some b
      → read_file name t.disk ≡ none
      → s.max_bytes < bytes_from n s
  pub dropped : List Text
  pub distinct : IsDistinct dropped
  pub gone :
      (name : Text)
      → any (text_eq name) dropped
        ≡ (is_some (read_file name s.disk) && not (is_some (read_file name t.disk)))
  pub counted : t.dropped_segments ≡ s.dropped_segments + length dropped

IsTrimmed-refl : (s : Spool) → IsTrimmed s s
unfolding any
IsTrimmed-refl s = record {
  needed = λ name n b p r q. absurd (none-ne-some b (sym q ∙ r));
  dropped = [];
  distinct = tt;
  gone = λ name. ground arith;
  counted = omega arith;
}

keep-from :
    (m : ℕ) (gs : List Segment)
    → All (λ g. m ≤ g.seq) gs
    → keep (λ (g : Segment). leb m g.seq) gs ≡ gs
unfolding keep
keep-from m [] h = refl
keep-from m (g ∷ gs) h = ground (arith, h.0, keep-from m gs h.1)

kept_bytes-remove_file :
    (p : Segment → Bool) (k : Text) (d : Disk)
    → sum_len (keep p (segments (remove_file k d))) ≤ sum_len (keep p (segments d))
unfolding sum_len keep segments remove_file
kept_bytes-remove_file p k [] = omega arith
kept_bytes-remove_file p k ((n, b) ∷ d) = ground (arith, kept_bytes-remove_file p k d)

module _ (s : Spool) (g : Segment) (oldest : IsOldest s.disk g) (t : Spool)
    (capped : IsCapped (drop_segment g s) t) (trimmed : IsTrimmed (drop_segment g s) t) where
  read_file-drop :
      (name : Text)
      → read_file name (drop_segment g s).disk
        ≡ (if text_eq name g.name then none else read_file name s.disk)
  unfolding drop_segment
  read_file-drop name = read_file-remove_file g.name name s.disk

  drop-needed :
      All (λ h. g.seq ≤ h.seq) (segments s.disk)
      → s.max_bytes < total s
      → (name : Text) (n : ℕ) (b : Bytes) → parse_segment_name name ≡ some n
      → read_file name s.disk ≡ some b
      → read_file name t.disk ≡ none
      → s.max_bytes < bytes_from n s
  unfolding bytes_from drop_segment total
  drop-needed all over name n b p r q = elim (Bool-cases (text_eq name g.name)) [
    | inl e ↦
        let same : n ≡ g.seq =
          cc (p, ap parse_segment_name (text_eq→eq name g.name e), oldest.listed.0) in
        rw (same, keep-from g.seq (segments s.disk) all) over
    | inr e ↦
        let later = trimmed.needed name n b p (read_file-drop name ∙ rw e r) q in
        omega (arith, later, kept_bytes-remove_file (λ (h : Segment). leb n h.seq) g.name s.disk)
  ]

  dropped-none : (name : Text) → text_eq name g.name ≡ true → read_file name t.disk ≡ none
  dropped-none name e = elim (Option-cases (read_file name t.disk)) [
    | inl r ↦ r
    | inr (b, r) ↦ absurd (none-ne-some b (rw (read_file-drop name, e) at (capped.kept name b r)))
  ]

  drop-gone :
      (name : Text)
      → any (text_eq name) (g.name ∷ trimmed.dropped)
        ≡ (is_some (read_file name s.disk) && not (is_some (read_file name t.disk)))
  unfolding any
  drop-gone name = elim (Bool-cases (text_eq name g.name)) [
    | inl e ↦
        let (q, b, r) = oldest.listed in
        let there : read_file name s.disk ≡ some b =
          ap (λ k. read_file k s.disk) (text_eq→eq name g.name e) ∙ r in
        rw (e, there, dropped-none name e)
    | inr e ↦ rw e (trimmed.gone name ∙ rw (read_file-drop name, e))
  ]

  drop-IsTrimmed :
      All (λ h. g.seq ≤ h.seq) (segments s.disk) → s.max_bytes < total s → IsTrimmed s t
  drop-IsTrimmed all over = record {
    needed = drop-needed all over;
    dropped = g.name ∷ trimmed.dropped;
    distinct =
        (trimmed.gone g.name ∙ rw (read_file-drop g.name, text_eq_refl g.name), trimmed.distinct);
    gone = drop-gone;
    counted = (unfold drop_segment in omega (arith, trimmed.counted));
  }

cap_loop-IsTrimmed : (f : ℕ) (s : Spool) → IsTrimmed s (cap_loop f s)
unfolding cap_loop
cap_loop-IsTrimmed zero s = IsTrimmed-refl s
cap_loop-IsTrimmed (suc f) s = elim (Bool-cases (leb (total s) s.max_bytes)) [
  | inl e ↦ rw e (IsTrimmed-refl s)
  | inr e ↦ elim (List-cases (sort_by_seq (segments s.disk))) [
    | inl p ↦ rw (e, p) (IsTrimmed-refl s)
    | inr (g, gs, p) ↦
        rw (e, p)
          (drop-IsTrimmed s g (sorted-IsOldest s.disk g gs p) (cap_loop f (drop_segment g s))
            (cap_loop-IsCapped f (drop_segment g s)) (cap_loop-IsTrimmed f (drop_segment g s))
            (sorted-first s.disk g gs p) (ground arith))
  ]
]

-- The cap terminates with the bytes within the limit, or with no closed segment left. It drops
-- whole closed segments, none that is newer than one that it keeps, and none that would have fit:
-- with the newer ones and the open segment, each that is dropped exceeds the limit. Each is counted.
pub enforce_cap_lem :
    (s : Spool)
    → IsWithinCap (enforce_cap s) × IsCapped s (enforce_cap s) × IsTrimmed s (enforce_cap s)
unfolding enforce_cap
enforce_cap_lem s = (
  cap_loop-IsWithinCap (length s.disk) s (omega arith),
  cap_loop-IsCapped (length s.disk) s,
  cap_loop-IsTrimmed (length s.disk) s,
)
