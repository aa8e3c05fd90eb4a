-- ===== src/Spool/Acknowledge.antt =====
-- `Spool::ack` of service/src/spool.rs, alone and after `next_batch`.
use ahara_collector.Prelude.{
  ◌^◌, ◌<◌, ◌≡◌, refl, sym, ap, subst, ◌∙◌, Bool, true, ◌&&◌, Option, none, some, [], Text, Bytes,
  arith, if◌then◌else◌, text_eq, text_eq→eq, text_eq_refl, Bool-cases, Option-cases, inl, inr,
}
use ahara_collector.Prelude.Results.{Result, ok}
use ahara_collector.Prelude.Options.{is_some}
use ahara_collector.Spool.Names.{current, parse_segment_name}
use ahara_collector.Spool.Names.Laws.{parse_segment_name-current}
use ahara_collector.Spool.Disk.{read_file, read_file-remove_file}
use ahara_collector.Spool.Model.{Spool, IoError, Io, file_len, rotate_if_idle, next_batch, ack}
use ahara_collector.Spool.WellFormed.{WellFormed}
use ahara_collector.Spool.Delivery.{IsOldest, next_batch_cases}

-- What `ack` ensures: it removes the file of that name if it is a closed segment, answers whether
-- it did, and leaves every other file alone.
pub record Acked (id : Text) (s : Spool) (r : Io Bool) : Type 0 where
  pub answer : r.0 ≡ ok (is_some (parse_segment_name id) && is_some (read_file id s.disk))
  pub files :
      (name : Text)
      → read_file name r.1.disk ≡ (
          if text_eq name id && is_some (parse_segment_name id)
          then none
          else read_file name s.disk)
  pub next_seq : r.1.next_seq ≡ s.next_seq
  pub current_len : r.1.current_len ≡ s.current_len

-- `ack` removes the file of the given name if that is the name of a closed segment, and answers
-- whether there was one. Every other file, the open one included, the next number and the recorded
-- length stay as they are.
pub ack_lem : (id : Text) (s : Spool) → Acked id s (ack id s)
unfolding ack
ack_lem id s = elim (Option-cases (parse_segment_name id)) [
  | inl p ↦ rw p (record {
    answer = rw p;
    files = λ name. rw p (ground arith);
    next_seq = refl;
    current_len = refl;
  })
  | inr (n, p) ↦ elim (Option-cases (read_file id s.disk)) [
    | inl r ↦
        rw (p, r)
          (record {
            answer = rw (p, r);
            files = λ name. rw p (absent name r);
            next_seq = refl;
            current_len = refl;
          })
    | inr (b, r) ↦
        rw (p, r)
          (record {
            answer = rw (p, r);
            files = λ name. rw p (ground (arith, read_file-remove_file id name s.disk));
            next_seq = refl;
            current_len = refl;
          })
  ]
]
  where
    absent :
        (name : Text)
        → read_file id s.disk ≡ none
        → read_file name s.disk ≡ (if text_eq name id && true then none else read_file name s.disk)
    absent name r = elim (Bool-cases (text_eq name id)) [
      | inl e ↦ rw e (rw (text_eq→eq name id e) r)
      | inr e ↦ rw e
    ]

-- What holds of a batch that was served: polling again serves it again and changes nothing more,
-- and acknowledging it is accepted and removes it.
pub record Redelivered (id : Text) (r : Io (Option (Text × Text))) : Type 0 where
  pub again : next_batch r.1 ≡ r
  pub accepted : (ack id r.1).0 ≡ ok true
  pub gone : read_file id (ack id r.1).1.disk ≡ none

ack-oldest :
    (id : Text) (t : Spool)
    → IsOldest t.disk id
    → ((ack id t).0 ≡ ok true) × (read_file id (ack id t).1.disk ≡ none)
ack-oldest id t o =
    let lem = ack_lem id t in
    (
      lem.answer ∙ rw (o.numbered, o.there) refl,
      lem.files id ∙ rw (text_eq_refl id, o.numbered) refl,
    )

batch_of : Result IoError (Option (Text × Text)) → Text
batch_of (ok (some (id, text))) = id
batch_of _ = []

served-Redelivered :
    (s t : Spool) (id name text text' : Text)
    → (next_batch s).0 ≡ ok (some (id, text))
    → next_batch s ≡ (ok (some (name, text')), t)
    → next_batch t ≡ next_batch s
    → IsOldest t.disk name
    → Redelivered id (next_batch s)
unfolding batch_of
served-Redelivered s t id name text text' e p again o =
    let same = ap (λ r. batch_of r.0) (sym p) ∙ ap batch_of e in
    let (accepted, gone) = ack-oldest name t o in
    subst (λ i. Redelivered i (next_batch s)) same
      (record {
        again = ap (λ r. next_batch r.1) p ∙ again;
        accepted = ap (λ r. (ack name r.1).0) p ∙ accepted;
        gone = ap (λ r. read_file name (ack name r.1).1.disk) p ∙ gone;
      })

none-ne-some :
    (id text : Text)
    → Path (Result IoError (Option (Text × Text))) (ok none) (ok (some (id, text)))
    → ⊥
none-ne-some id text q = ground (arith, q)

-- A batch that `next_batch` serves from a well-formed spool is served again by the next poll, with the
-- same text and without a further change; its acknowledgement is accepted and removes the batch's
-- file.
pub next_batch-ack :
    (s : Spool) (id text : Text)
    → s.next_seq < 10 ^ 16
    → WellFormed s
    → (next_batch s).0 ≡ ok (some (id, text))
    → Redelivered id (next_batch s)
next_batch-ack s id text h w e = elim (next_batch_cases s h w) [
  | inl p ↦ absurd (none-ne-some id text (sym (ap (λ r. r.0) p) ∙ e))
  | inr (name, o, again, p) ↦ served-Redelivered s (rotate_if_idle s).1 id name text _ e p again o
]

-- No acknowledgement touches the open segment.
ack-current :
    (id : Text) (s : Spool) → read_file current (ack id s).1.disk ≡ read_file current s.disk
ack-current id s = (ack_lem id s).files current ∙ elim (Bool-cases (text_eq current id)) [
  | inl e ↦
      rw (sym (text_eq→eq current id e), parse_segment_name-current, text_eq_refl current) refl
  | inr e ↦ rw e refl
]

-- `ack` keeps a well-formed spool well formed.
pub ack-WellFormed : (id : Text) (s : Spool) → WellFormed s → WellFormed (ack id s).1
ack-WellFormed id s w =
    let lem = ack_lem id s in
    record {
      measured = lem.current_len ∙ w.measured ∙ ap file_len (sym (ack-current id s));
      fresh = λ name n b r p. rw lem.next_seq (w.fresh name n b (before name b r) p);
    }
  where
    before :
        (name : Text) (b : Bytes)
        → read_file name (ack id s).1.disk ≡ some b
        → read_file name s.disk ≡ some b
    before name b r = ground (arith, r, (ack_lem id s).files name)
