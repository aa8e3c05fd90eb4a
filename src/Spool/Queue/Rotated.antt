-- ===== src/Spool/Queue/Rotated.antt =====
-- The queue of a spool of service/src/spool.rs over a rotation, and directories that are tidy.
use ahara_collector.Prelude.{
  ℕ, ◌^◌, ◌<◌, ◌≡◌, refl, sym, ap, ◌∙◌, true, some, [], ◌∷◌, Text, Bytes, arith, ◌==◌, text_eq,
  text_eq→eq, text_eq_refl, Bool-cases, inl, inr, false,
}
use ahara_collector.Spool.Names.{current, segment_name, parse_segment_name}
use ahara_collector.Spool.Names.Laws.{
  parse_segment_name-segment_name, parse_segment_name-current, current-ne-segment_name,
}
use ahara_collector.Spool.Disk.{Disk, read_file}
use ahara_collector.Spool.Model.{Spool, segments}
use ahara_collector.Spool.WellFormed.{rotated, read_file-rotated}
use ahara_collector.Spool.Delivery.{IsOldest}
use ahara_collector.Spool.Queue.{view, Sealed, IsTidy, not_listed}

same_number :
    (m n : ℕ) → m < 10 ^ 16 → n < 10 ^ 16 → text_eq (segment_name m) (segment_name n) ≡ true → m ≡ n
same_number m n h k e =
    let parsed : some m ≡ some n = cc (
      parse_segment_name-segment_name m h,
      parse_segment_name-segment_name n k,
      text_eq→eq (segment_name m) (segment_name n) e,
    ) in
    cc parsed

segment_name-ne-current : (n : ℕ) → text_eq (segment_name n) current ≡ false
unfolding segment_name text_eq
segment_name-ne-current n = refl

pub rotated-Sealed :
    (s : Spool) (b : Bytes)
    → s.next_seq < 10 ^ 16
    → read_file current s.disk ≡ some b
    → Sealed (view s) (view (rotated s b))
unfolding view
rotated-Sealed s b h r = record {
  closed = λ n k. elim (Bool-cases (text_eq (segment_name n) (segment_name s.next_seq))) [
    | inl e ↦
        let same = same_number n s.next_seq k h e in
        rw (read_file-rotated s b (segment_name n), e, r, same) (ground arith)
    | inr e ↦ elim (Bool-cases (n == s.next_seq)) [
      | inl q ↦
          let same : n ≡ s.next_seq = ground arith in
          cc (
            ap (λ m. text_eq (segment_name m) (segment_name s.next_seq)) same,
            e,
            text_eq_refl (segment_name s.next_seq),
          )
      | inr q ↦ rw (read_file-rotated s b (segment_name n), e, segment_name-ne-current n, q)
    ]
  ];
  open_part =
      rw (read_file-rotated s b current, current-ne-segment_name s.next_seq, text_eq_refl current);
  next = refl;
}

pub rotated-IsTidy :
    (s : Spool) (b : Bytes) → s.next_seq < 10 ^ 16 → IsTidy s.disk → IsTidy (rotated s b).disk
unfolding IsTidy
rotated-IsTidy s b h t name n c r p = elim (Bool-cases (text_eq name (segment_name s.next_seq))) [
  | inl e ↦
      let named = text_eq→eq name (segment_name s.next_seq) e in
      let parsed : some n ≡ some s.next_seq =
        cc (p, parse_segment_name-segment_name s.next_seq h, named) in
      let same : n ≡ s.next_seq = cc parsed in (named ∙ ap segment_name (sym same), omega arith)
  | inr e ↦ elim (Bool-cases (text_eq name current)) [
    | inl q ↦ cc (rw (read_file-rotated s b name, e, q) at r)
    | inr q ↦ t name n c (rw (read_file-rotated s b name, e, q) at r) p
  ]
]

-- After a rotation of a directory without closed segments, the new one is the oldest.
pub rotated-only :
    (s : Spool) (b : Bytes) (name : Text)
    → segments s.disk ≡ []
    → IsOldest (rotated s b).disk name
    → name ≡ segment_name s.next_seq
rotated-only s b name z o = elim (Bool-cases (text_eq name (segment_name s.next_seq))) [
  | inl e ↦ text_eq→eq name (segment_name s.next_seq) e
  | inr e ↦ elim (Bool-cases (text_eq name current)) [
    | inl q ↦ cc (rw (read_file-rotated s b name, e, q) at o.there)
    | inr q ↦ absurd (
        not_listed s.disk name o.seq o.bytes z (rw (read_file-rotated s b name, e, q) at o.there)
          o.numbered)
  ]
]

pub rotated-new :
    (s : Spool) (b : Bytes) → read_file (segment_name s.next_seq) (rotated s b).disk ≡ some b
rotated-new s b =
    rw (read_file-rotated s b (segment_name s.next_seq), text_eq_refl (segment_name s.next_seq))

-- A directory is tidy by its files.
pub IsTidy-cons :
    (file : Text) (c : Bytes) (d : Disk)
    → ((n : ℕ) → parse_segment_name file ≡ some n → (file ≡ segment_name n) × (n < 10 ^ 16))
    → IsTidy d
    → IsTidy ((file, c) ∷ d)
unfolding IsTidy read_file
IsTidy-cons file c d h t name n b r p = elim (Bool-cases (text_eq name file)) [
  | inl e ↦
      let same = text_eq→eq name file e in
      let (named, below) = h n (ap parse_segment_name (sym same) ∙ p) in (same ∙ named, below)
  | inr e ↦ t name n b (rw e at r) p
]

pub segment_name-IsTidy :
    (m : ℕ)
    → m < 10 ^ 16
    → (n : ℕ) → parse_segment_name (segment_name m) ≡ some n
    → (segment_name m ≡ segment_name n) × (n < 10 ^ 16)
segment_name-IsTidy m h n p =
    let parsed : some m ≡ some n = sym (parse_segment_name-segment_name m h) ∙ p in
    let same : m ≡ n = cc parsed in (ap segment_name same, omega arith)

pub current-IsTidy :
    (n : ℕ) → parse_segment_name current ≡ some n → (current ≡ segment_name n) × (n < 10 ^ 16)
current-IsTidy n p = cc (p, parse_segment_name-current)

pub IsTidy-nil : IsTidy []
unfolding IsTidy read_file
IsTidy-nil name n b r p = cc r
