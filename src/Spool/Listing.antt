-- ===== src/Spool/Listing.antt =====
-- What the listing of a spool directory holds, and the choice of the oldest segment.
use ahara_collector.Prelude.{
  ℕ, ◌≤◌, ◌≡◌, refl, none, some, List, [], ◌∷◌, Text, Bytes, arith, All, ltb, leb, leb→le, length,
  text_eq, text_eq→eq, text_eq_refl, Bool-cases, Option-cases, inl, inr,
}
use native.Mathlib.Nat.{le_trans}
use ahara_collector.Spool.Names.{parse_segment_name}
use ahara_collector.Spool.Disk.{Disk, read_file}
use ahara_collector.Spool.Model.{Segment, segments, oldest_from, insert_by_seq, sort_by_seq}

-- What is listed is there, and has the number of its name.
abbrev pub Listed : Disk → Segment → Type 0
Listed d g = (parse_segment_name g.name ≡ some g.seq) × (b : Bytes) × (read_file g.name d ≡ some b)

All-map :
    (P Q : Segment → Type 0) (gs : List Segment) → ((g : Segment) → P g → Q g) → All P gs → All Q gs
All-map P Q [] f h = tt
All-map P Q (g ∷ gs) f h = (f g h.0, All-map P Q gs f h.1)

Listed-cons : (n : Text) (b : Bytes) (d : Disk) (g : Segment) → Listed d g → Listed ((n, b) ∷ d) g
unfolding read_file
Listed-cons n b d g (p, c, r) = elim (Bool-cases (text_eq g.name n)) [
  | inl e ↦ (p, b, rw e)
  | inr e ↦ (p, c, rw e r)
]

module _ (n : Text) (b : Bytes) (d : Disk) where
  segments-skip : parse_segment_name n ≡ none → segments ((n, b) ∷ d) ≡ segments d
  unfolding segments
  segments-skip e = rw (e, segments)

  segments-keep :
      (seq : ℕ)
      → parse_segment_name n ≡ some seq
      → segments ((n, b) ∷ d) ≡ record { seq = seq; name = n; len = length b } ∷ segments d
  unfolding segments
  segments-keep seq e = rw (e, segments)

pub segments-Listed : (d : Disk) → All (Listed d) (segments d)
segments-Listed [] = unfold segments in tt
segments-Listed ((n, b) ∷ d) = elim (Option-cases (parse_segment_name n)) [
  | inl e ↦
      rw (segments-skip n b d e)
        (All-map (Listed d) _ (segments d) (Listed-cons n b d) (segments-Listed d))
  | inr (seq, e) ↦ rw (segments-keep n b d seq e) (
    (e, b, unfold read_file in rw (text_eq_refl n)),
    All-map (Listed d) _ (segments d) (Listed-cons n b d) (segments-Listed d),
  )
]

-- What is there is listed: a bound on all listed numbers bounds the number of each file.
pub listed_bound :
    (m : ℕ) (d : Disk) (name : Text) (n : ℕ) (b : Bytes)
    → All (λ g. m ≤ g.seq) (segments d)
    → read_file name d ≡ some b
    → parse_segment_name name ≡ some n
    → m ≤ n
unfolding read_file
listed_bound m [] name n b h r p = cc
listed_bound m ((k, c) ∷ d) name n b h r p = elim (Bool-cases (text_eq name k)) [
  | inl e ↦ (rw (segments-keep k c d n (rw (text_eq→eq name k e) at p)) at h).0
  | inr e ↦ elim (Option-cases (parse_segment_name k)) [
    | inl q ↦ listed_bound m d name n b (rw (segments-skip k c d q) at h) (rw e at r) p
    | inr (seq, q) ↦
        listed_bound m d name n b ((rw (segments-keep k c d seq q) at h).1) (rw e at r) p
  ]
]

-- An upper bound in the same way.
pub listed_below :
    (m : ℕ) (d : Disk) (name : Text) (n : ℕ) (b : Bytes)
    → All (λ g. g.seq ≤ m) (segments d)
    → read_file name d ≡ some b
    → parse_segment_name name ≡ some n
    → n ≤ m
unfolding read_file
listed_below m [] name n b h r p = cc
listed_below m ((k, c) ∷ d) name n b h r p = elim (Bool-cases (text_eq name k)) [
  | inl e ↦ (rw (segments-keep k c d n (rw (text_eq→eq name k e) at p)) at h).0
  | inr e ↦ elim (Option-cases (parse_segment_name k)) [
    | inl q ↦ listed_below m d name n b (rw (segments-skip k c d q) at h) (rw e at r) p
    | inr (seq, q) ↦
        listed_below m d name n b ((rw (segments-keep k c d seq q) at h).1) (rw e at r) p
  ]
]

-- The search for the oldest finds a smallest number, and something that is listed.
pub oldest_from-least :
    (P : Segment → Type 0) (b : Segment) (gs : List Segment)
    → P b
    → All P gs
    → (g : Segment) × (oldest_from (some b) gs ≡ some g)
      × P g
      × (g.seq ≤ b.seq)
      × All (λ h. g.seq ≤ h.seq) gs
unfolding oldest_from
oldest_from-least P b [] p h = (b, refl, p, omega arith, tt)
oldest_from-least P b (x ∷ gs) p h = elim (Bool-cases (ltb x.seq b.seq)) [
  | inl e ↦ rw e (
      let (g, found, q, le, all) = oldest_from-least P x gs h.0 h.1 in
      (g, found, q, ground arith, (le, all)))
  | inr e ↦ rw e (
      let (g, found, q, le, all) = oldest_from-least P b gs p h.1 in
      (g, found, q, le, (ground arith, all)))
]

pub insert_by_seq-All :
    (P : Segment → Type 0) (g : Segment) (gs : List Segment)
    → (All P (insert_by_seq g gs) → P g × All P gs) × (P g → All P gs → All P (insert_by_seq g gs))
unfolding insert_by_seq
insert_by_seq-All P g [] = (λ h. h, λ p h. (p, h))
insert_by_seq-All P g (x ∷ gs) = elim (Bool-cases (leb g.seq x.seq)) [
  | inl e ↦ rw e (λ h. h, λ p h. (p, h))
  | inr e ↦ rw e (
      let (there, back) = insert_by_seq-All P g gs in
      (λ h. ((there h.1).0, (h.0, (there h.1).1)), λ p h. (h.0, back p h.1)))
]

pub sort_by_seq-All :
    (P : Segment → Type 0) (gs : List Segment)
    → (All P (sort_by_seq gs) → All P gs) × (All P gs → All P (sort_by_seq gs))
unfolding sort_by_seq
sort_by_seq-All P [] = (λ h. h, λ h. h)
sort_by_seq-All P (g ∷ gs) =
    let (there, back) = insert_by_seq-All P g (sort_by_seq gs) in
    let (down, up) = sort_by_seq-All P gs in
    (λ h. ((there h).0, down (there h).1), λ h. back h.0 (up h.1))

abbrev IsSorted : List Segment → Type 0
IsSorted [] = Unit
IsSorted (g ∷ gs) = All (λ h. g.seq ≤ h.seq) gs × IsSorted gs

insert_by_seq-IsSorted :
    (g : Segment) (gs : List Segment) → IsSorted gs → IsSorted (insert_by_seq g gs)
unfolding insert_by_seq
insert_by_seq-IsSorted g [] h = (tt, tt)
insert_by_seq-IsSorted g (x ∷ gs) h = elim (Bool-cases (leb g.seq x.seq)) [
  | inl e ↦ rw e (
    (
      leb→le g.seq x.seq e,
      All-map (λ y. x.seq ≤ y.seq) (λ y. g.seq ≤ y.seq) gs
          (λ y p. le_trans (leb→le g.seq x.seq e) p) h.0,
    ),
    h,
  )
  | inr e ↦ rw e (
    (insert_by_seq-All (λ y. x.seq ≤ y.seq) g gs).1 (ground arith) h.0,
    insert_by_seq-IsSorted g gs h.1,
  )
]

pub sort_by_seq-IsSorted : (gs : List Segment) → IsSorted (sort_by_seq gs)
unfolding sort_by_seq
sort_by_seq-IsSorted [] = tt
sort_by_seq-IsSorted (g ∷ gs) = insert_by_seq-IsSorted g (sort_by_seq gs) (sort_by_seq-IsSorted gs)
