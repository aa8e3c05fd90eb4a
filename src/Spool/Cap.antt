-- ===== src/Spool/Cap.antt =====
-- `Inner::enforce_cap` of service/src/spool.rs.
pub mod Trim
use ahara_collector.Prelude.{
  ℕ, zero, suc, ◌≤◌, ◌<◌, ◌≡◌, refl, ap, ◌∙◌, ◌⊎◌, none, some, List, [], ◌∷◌, Text, Bytes, arith,
  All, leb, leb→le, length, text_eq, text_eq→eq, Bool-cases, inl, inr,
}
use ahara_collector.Spool.Names.{parse_segment_name}
use ahara_collector.Spool.Disk.{Disk, read_file, remove_file, read_file-remove_file}
use ahara_collector.Spool.Model.{
  Spool, Segment, segments, sort_by_seq, total, drop_segment, cap_loop,
}
use ahara_collector.Spool.Listing.{
  Listed, segments-Listed, listed_bound, sort_by_seq-All, sort_by_seq-IsSorted,
}

-- A file that is there is removed from the listing.
pub length-remove_file_le : (name : Text) (d : Disk) → length (remove_file name d) ≤ length d
unfolding remove_file
length-remove_file_le name [] = omega arith
length-remove_file_le name ((k, c) ∷ d) = ground (arith, length-remove_file_le name d)

pub length-remove_file_lt :
    (name : Text) (b : Bytes) (d : Disk)
    → read_file name d ≡ some b
    → length (remove_file name d) < length d
unfolding remove_file read_file
length-remove_file_lt name b [] h = cc
length-remove_file_lt name b ((k, c) ∷ d) h =
    ground (arith, length-remove_file_lt name b d, length-remove_file_le name d)

-- The next segment to go is listed, and no file has a smaller number.
pub record IsOldest (d : Disk) (g : Segment) : Type 0 where
  pub listed : Listed d g
  pub least :
      (name : Text) (n : ℕ) (b : Bytes)
      → read_file name d ≡ some b
      → parse_segment_name name ≡ some n
      → g.seq ≤ n

pub sorted-first :
    (d : Disk) (g : Segment) (gs : List Segment)
    → sort_by_seq (segments d) ≡ g ∷ gs
    → All (λ h. g.seq ≤ h.seq) (segments d)
sorted-first d g gs e =
    (sort_by_seq-All (λ h. g.seq ≤ h.seq) (segments d)).0
      (rw e (omega arith, (rw e at (sort_by_seq-IsSorted (segments d))).0))

pub sorted-IsOldest :
    (d : Disk) (g : Segment) (gs : List Segment) → sort_by_seq (segments d) ≡ g ∷ gs → IsOldest d g
sorted-IsOldest d g gs e = record {
  listed = (rw e at ((sort_by_seq-All (Listed d) (segments d)).1 (segments-Listed d))).0;
  least = λ name n b r p. listed_bound g.seq d name n b (sorted-first d g gs e) r p;
}

pub List-cases {ℓ} :
    {A : Type ℓ} (xs : List A) → (xs ≡ []) ⊎ ((x : A) × (ys : List A) × (xs ≡ x ∷ ys))
List-cases [] = inl refl
List-cases (x ∷ ys) = inr (x, ys, refl)

-- Within the cap, or nothing is left to drop.
abbrev pub IsWithinCap : Spool → Type 0
IsWithinCap s = (total s ≤ s.max_bytes) ⊎ (segments s.disk ≡ [])

sort_by_seq-nil : (gs : List Segment) → sort_by_seq gs ≡ [] → gs ≡ []
sort_by_seq-nil [] h = refl
sort_by_seq-nil (g ∷ gs) h = absurd ((sort_by_seq-All (λ x. ⊥) (g ∷ gs)).0 (rw h tt)).0

segments-nil : (d : Disk) → length d ≤ 0 → segments d ≡ []
unfolding segments
segments-nil [] h = refl
segments-nil (x ∷ d) h = absurd (omega arith)

pub cap_loop-IsWithinCap : (f : ℕ) (s : Spool) → length s.disk ≤ f → IsWithinCap (cap_loop f s)
unfolding cap_loop drop_segment
cap_loop-IsWithinCap zero s h = inr (segments-nil s.disk h)
cap_loop-IsWithinCap (suc f) s h = elim (Bool-cases (leb (total s) s.max_bytes)) [
  | inl e ↦ rw e (inl (leb→le (total s) s.max_bytes e))
  | inr e ↦ elim (List-cases (sort_by_seq (segments s.disk))) [
    | inl p ↦ rw (e, p) (inr (sort_by_seq-nil (segments s.disk) p))
    | inr (g, gs, p) ↦
        let (q, b, r) = (sorted-IsOldest s.disk g gs p).listed in
        rw (e, p)
          (cap_loop-IsWithinCap f (drop_segment g s)
            (omega (arith, length-remove_file_lt g.name b s.disk r)))
  ]
]

-- `t` is what the cap leaves of `s`: files are dropped whole or kept whole, only closed segments
-- are dropped, and none that is newer than a segment that is kept.
pub record IsCapped (s t : Spool) : Type 0 where
  pub next_seq : t.next_seq ≡ s.next_seq
  pub current_len : t.current_len ≡ s.current_len
  pub segment_bytes : t.segment_bytes ≡ s.segment_bytes
  pub max_bytes : t.max_bytes ≡ s.max_bytes
  pub kept :
      (name : Text) (b : Bytes) → read_file name t.disk ≡ some b → read_file name s.disk ≡ some b
  pub others :
      (name : Text) → parse_segment_name name ≡ none → read_file name t.disk ≡ read_file name s.disk
  pub older :
      (name name' : Text) (n n' : ℕ) (b b' : Bytes)
      → read_file name s.disk ≡ some b
      → parse_segment_name name ≡ some n
      → read_file name t.disk ≡ none
      → read_file name' t.disk ≡ some b'
      → parse_segment_name name' ≡ some n'
      → n ≤ n'

IsCapped-refl : (s : Spool) → IsCapped s s
IsCapped-refl s = record {
  next_seq = refl;
  current_len = refl;
  segment_bytes = refl;
  max_bytes = refl;
  kept = λ name b r. r;
  others = λ name p. refl;
  older = λ name name' n n' b b' r p q r' p'. cc;
}

module _ (s : Spool) (g : Segment) (oldest : IsOldest s.disk g) where
  drop-kept :
      (name : Text) (b : Bytes)
      → read_file name (drop_segment g s).disk ≡ some b
      → read_file name s.disk ≡ some b
  unfolding drop_segment
  drop-kept name b r = ground (arith, read_file-remove_file g.name name s.disk)

  drop-others :
      (name : Text)
      → parse_segment_name name ≡ none
      → read_file name (drop_segment g s).disk ≡ read_file name s.disk
  unfolding drop_segment
  drop-others name p = elim (Bool-cases (text_eq name g.name)) [
    | inl e ↦ cc (p, ap parse_segment_name (text_eq→eq name g.name e), oldest.listed.0)
    | inr e ↦ rw (read_file-remove_file g.name name s.disk, e)
  ]

  -- What the drop takes away is the oldest; what it leaves the rest of the loop takes away.
  drop-older :
      (t : Spool)
      → IsCapped (drop_segment g s) t
      → (name name' : Text) (n n' : ℕ) (b b' : Bytes) → read_file name s.disk ≡ some b
      → parse_segment_name name ≡ some n
      → read_file name t.disk ≡ none
      → read_file name' t.disk ≡ some b'
      → parse_segment_name name' ≡ some n'
      → n ≤ n'
  drop-older t h name name' n n' b b' r p q r' p' = elim (Bool-cases (text_eq name g.name)) [
    | inl e ↦
        let same : n ≡ g.seq =
          cc (p, ap parse_segment_name (text_eq→eq name g.name e), oldest.listed.0) in
        rw same (oldest.least name' n' b' (drop-kept name' b' (h.kept name' b' r')) p')
    | inr e ↦
        h.older name name' n n' b b'
          (unfold drop_segment in rw (read_file-remove_file g.name name s.disk, e) r) p q r' p'
  ]

  drop-IsCapped : (t : Spool) → IsCapped (drop_segment g s) t → IsCapped s t
  drop-IsCapped t h = record {
    next_seq = h.next_seq ∙ (unfold drop_segment in refl);
    current_len = h.current_len ∙ (unfold drop_segment in refl);
    segment_bytes = h.segment_bytes ∙ (unfold drop_segment in refl);
    max_bytes = h.max_bytes ∙ (unfold drop_segment in refl);
    kept = λ name b r. drop-kept name b (h.kept name b r);
    others = λ name p. h.others name p ∙ drop-others name p;
    older = drop-older t h;
  }

pub cap_loop-IsCapped : (f : ℕ) (s : Spool) → IsCapped s (cap_loop f s)
unfolding cap_loop
cap_loop-IsCapped zero s = IsCapped-refl s
cap_loop-IsCapped (suc f) s = elim (Bool-cases (leb (total s) s.max_bytes)) [
  | inl e ↦ rw e (IsCapped-refl s)
  | inr e ↦ elim (List-cases (sort_by_seq (segments s.disk))) [
    | inl p ↦ rw (e, p) (IsCapped-refl s)
    | inr (g, gs, p) ↦
        rw (e, p)
          (drop-IsCapped s g (sorted-IsOldest s.disk g gs p) (cap_loop f (drop_segment g s))
            (cap_loop-IsCapped f (drop_segment g s)))
  ]
]
