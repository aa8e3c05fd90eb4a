-- ===== src/Spool/Queue/Refinement.antt =====
-- `Spool::next_batch` of service/src/spool.rs polls the queue of its spool.
use ahara_collector.Prelude.{
  ℕ, ◌^◌, ◌<◌, ◌≡◌, refl, sym, ap, subst, ◌∙◌, true, Option, none, some, [], Text, Bytes, arith,
  length, ltb, inl, inr,
}
use ahara_collector.Prelude.Results.{ok}
use ahara_collector.Prelude.Utf8.{from_utf8_lossy}
use ahara_collector.Spool.Names.{current, segment_name}
use ahara_collector.Spool.Names.Laws.{parse_segment_name-segment_name}
use ahara_collector.Spool.Disk.{read_file, contents}
use ahara_collector.Spool.Model.{
  Spool, segments, file_len, rotate, rotate_if_idle, oldest_segment, complete_lines, next_batch,
  serve, Io,
}
use ahara_collector.Spool.WellFormed.{WellFormed, rotated, rotate_lem, rotated-WellFormed}
use ahara_collector.Spool.Delivery.{
  IsOldest, oldest_segment_lem, next_batch-ready, next_batch-oldest, serve_lem, serve-none,
}
use ahara_collector.Spool.Queue.{
  view, Polled, sealed, drained, answer, IsTidy, not_listed, none_closed, oldest-first, empty_open,
}
use ahara_collector.Spool.Queue.Rotated.{rotated-Sealed, rotated-IsTidy, rotated-only, rotated-new}

-- The result of a poll of the spool `s` is the answer of a poll of its queue.
pub record IsPoll (s : Spool) (r : Io (Option (Text × Text))) : Type 0 where
  pub part : Option (ℕ × Bytes)
  pub answered : r.0 ≡ answer part
  pub polled : Polled (view s) part (view r.1)
  pub tidy : IsTidy r.1.disk
  pub well : WellFormed r.1

next_batch-first :
    (s : Spool) (name : Text)
    → oldest_segment s.disk ≡ some name
    → IsOldest s.disk name
    → IsTidy s.disk
    → WellFormed s
    → IsPoll s (next_batch s)
unfolding answer
next_batch-first s name e o t w =
    let (same, polled) = oldest-first s name o t in
    let served : next_batch s ≡ (answer (some (o.seq, o.bytes)), s) =
      next_batch-oldest s name e
      ∙ serve_lem s name o.bytes o.there
      ∙ ap (λ k. (ok (some (k, complete_lines (from_utf8_lossy o.bytes))), s)) same in
    rw served (record {
      part = some (o.seq, o.bytes);
      answered = refl;
      polled = polled;
      tidy = t;
      well = w;
    })

-- Nothing is closed and something is open: `rotate_if_idle` rotates.
next_batch-idle :
    (s : Spool) (b : Bytes)
    → oldest_segment s.disk ≡ none
    → 0 < s.current_len
    → rotate s ≡ (ok tt, rotated s b)
    → next_batch s ≡ serve (rotated s b) (oldest_segment (rotated s b).disk)
next_batch-idle s b e h q =
    let some_open : ltb 0 s.current_len ≡ true = ground arith in
    let idle : rotate_if_idle s ≡ (ok tt, rotated s b) =
      (unfold rotate_if_idle in rw (e, some_open, q)) in
    next_batch-ready s (ap (λ r. r.0) idle) ∙ ap (λ r. serve r.1 (oldest_segment r.1.disk)) idle

next_batch-empty :
    (s : Spool) → oldest_segment s.disk ≡ none → s.current_len ≡ 0 → next_batch s ≡ (ok none, s)
next_batch-empty s e z =
    let idle : rotate_if_idle s ≡ (ok tt, s) = (unfold rotate_if_idle in rw (e, z)) in
    next_batch-ready s (ap (λ r. r.0) idle)
    ∙ ap (λ r. serve r.1 (oldest_segment r.1.disk)) idle
    ∙ ap (serve s) e
    ∙ serve-none s

serve-new :
    (s : Spool) (b : Bytes)
    → s.next_seq < 10 ^ 16
    → segments s.disk ≡ []
    → serve (rotated s b) (oldest_segment (rotated s b).disk)
      ≡ serve (rotated s b) (some (segment_name s.next_seq))
serve-new s b h z = elim (oldest_segment_lem (rotated s b).disk) [
  | inl (e, left) ↦ absurd (
      not_listed (rotated s b).disk (segment_name s.next_seq) s.next_seq b left (rotated-new s b)
        (parse_segment_name-segment_name s.next_seq h))
  | inr (name, e, o) ↦ ap (serve (rotated s b)) (e ∙ ap some (rotated-only s b name z o))
]

next_batch-sealed :
    (s : Spool) (b : Bytes)
    → s.next_seq < 10 ^ 16
    → (oldest_segment s.disk ≡ none) × (segments s.disk ≡ [])
    → (read_file current s.disk ≡ some b) × (0 < length b) × (rotate s ≡ (ok tt, rotated s b))
    → IsTidy s.disk
    → WellFormed s
    → IsPoll s (next_batch s)
unfolding answer view
next_batch-sealed s b h (e, z) (r, pos, q) t w =
    let measured : s.current_len ≡ length b = (unfold file_len in w.measured ∙ ap file_len r) in
    let part : contents (read_file current s.disk) ≡ b = ap contents r in
    let served : next_batch s ≡ (answer (some (s.next_seq, b)), rotated s b) =
      next_batch-idle s b e (omega arith) q
      ∙ serve-new s b h z
      ∙ serve_lem (rotated s b) (segment_name s.next_seq) b (rotated-new s b) in
    rw served (record {
      part = some (s.next_seq, b);
      answered = refl;
      polled =
          subst (λ c. Polled (view s) (some (s.next_seq, c)) (view (rotated s b))) part
            (sealed (none_closed s z) (rw part pos) (rotated-Sealed s b h r));
      tidy = rotated-IsTidy s b h t;
      well = rotated-WellFormed s b h w;
    })

-- `next_batch` implements a queue: on a well-formed spool whose closed segments have the names that
-- the program gives them, and whose numbers do not run out, it answers with the first closed part
-- and changes nothing of the queue, or, if none is closed, closes the open part and answers with it,
-- or, if nothing is open either, answers that there is nothing. The spool stays such a spool.
pub next_batch-IsPoll :
    (s : Spool) → s.next_seq < 10 ^ 16 → IsTidy s.disk → WellFormed s → IsPoll s (next_batch s)
unfolding answer view
next_batch-IsPoll s h t w = elim (oldest_segment_lem s.disk) [
  | inr (name, e, o) ↦ next_batch-first s name e o t w
  | inl empty ↦ elim (rotate_lem s w) [
    | inr (b, r, pos, q) ↦ next_batch-sealed s b h empty (r, pos, q) t w
    | inl (z, q) ↦ rw (next_batch-empty s empty.0 z) (record {
      part = none;
      answered = refl;
      polled =
          drained (none_closed s empty.1)
            (empty_open (read_file current s.disk) (sym w.measured ∙ z));
      tidy = t;
      well = w;
    })
  ]
]
