-- ===== src/Spool/Delivery.antt =====
-- `Spool::next_batch` of service/src/spool.rs and the segment that it serves.
use ahara_collector.Prelude.{
  ℕ, suc, ◌^◌, ◌≤◌, ◌<◌, ◌≡◌, refl, sym, ap, ◌∙◌, not, ◌&&◌, ◌⊎◌, Option, none, some, List, [], ◌∷◌,
  Text, Bytes, arith, All, ltb, Bool-cases, inl, inr,
}
use ahara_collector.Prelude.Results.{ok}
use ahara_collector.Prelude.Options.{is_some}
use ahara_collector.Prelude.Utf8.{from_utf8_lossy}
use ahara_collector.Spool.Names.{current, parse_segment_name}
use ahara_collector.Spool.Disk.{Disk, read_file, contents}
use ahara_collector.Spool.Model.{
  Spool, Segment, segments, Io, oldest_segment, complete_lines, serve, rotate, rotate_if_idle,
  next_batch,
}
use ahara_collector.Spool.Listing.{Listed, segments-Listed, listed_bound, oldest_from-least}
use ahara_collector.Spool.WellFormed.{WellFormed, rotate_lem}
use ahara_collector.Spool.Append.Laws.{Closes, rotate-Closes}

-- `name` is a closed segment of the directory, with the bytes `b`, and none has a smaller number.
pub record IsOldest (d : Disk) (name : Text) : Type 0 where
  pub seq : ℕ
  pub bytes : Bytes
  pub numbered : parse_segment_name name ≡ some seq
  pub there : read_file name d ≡ some bytes
  pub least :
      (other : Text) (n : ℕ) (b : Bytes)
      → read_file other d ≡ some b
      → parse_segment_name other ≡ some n
      → seq ≤ n

-- Either the directory has no closed segment, or the oldest is found.
pub oldest_segment_lem :
    (d : Disk)
    → ((oldest_segment d ≡ none) × (segments d ≡ []))
      ⊎ ((name : Text) × (oldest_segment d ≡ some name) × IsOldest d name)
oldest_segment_lem d = choose (segments d) refl (segments-Listed d)
  where
    choose :
        (gs : List Segment)
        → segments d ≡ gs
        → All (Listed d) gs
        → ((oldest_segment d ≡ none) × (segments d ≡ []))
          ⊎ ((name : Text) × (oldest_segment d ≡ some name) × IsOldest d name)
    choose [] e h = inl (unfold oldest_segment in rw e, e)
    choose (x ∷ gs) e h =
        let (g, found, (p, b, r), le, all) = oldest_from-least (Listed d) x gs h.0 h.1 in
        inr (
          g.name,
          (unfold oldest_segment in rw (e, found)),
          record {
            seq = g.seq;
            bytes = b;
            numbered = p;
            there = r;
            least = λ other n c r' p'. listed_bound g.seq d other n c (rw e (le, all)) r' p';
          },
        )

-- A file that is listed by no name of a segment.
not-IsOldest : (d : Disk) (name : Text) → segments d ≡ [] → IsOldest d name → ⊥
not-IsOldest d name e o =
    absurd
      (omega (arith, listed_bound (suc o.seq) d name o.seq o.bytes (rw e tt) o.there o.numbered))

pub serve_lem :
    (s : Spool) (name : Text) (b : Bytes)
    → read_file name s.disk ≡ some b
    → serve s (some name) ≡ (ok (some (name, complete_lines (from_utf8_lossy b))), s)
unfolding serve
serve_lem s name b r = rw (r, serve)

pub serve-none : (s : Spool) → serve s none ≡ (ok none, s)
unfolding serve
serve-none s = refl

-- With a closed segment at hand nothing is rotated.
rotate_if_idle-oldest :
    (s : Spool) (name : Text) → oldest_segment s.disk ≡ some name → rotate_if_idle s ≡ (ok tt, s)
unfolding rotate_if_idle
rotate_if_idle-oldest s name e = rw e

-- What `rotate_if_idle` ensures of its state: it is well formed, the open segment has become the
-- next closed one or is as it was, and if nothing is closed then nothing is open either.
record IsReady (s : Spool) (r : Io (Unit {0})) : Type 0 where
  done : r.0 ≡ ok tt
  well : WellFormed r.1
  closes : Closes (contents (read_file current s.disk)) s r.1
  drained : oldest_segment r.1.disk ≡ none → r.1.current_len ≡ 0

rotate-empties : (s : Spool) → WellFormed s → (rotate s).1.current_len ≡ 0
rotate-empties s w = elim (rotate_lem s w) [ inl (z, e) ↦ rw e z | inr (b, r, q, e) ↦ rw e ]

rotate-IsReady : (s : Spool) → s.next_seq < 10 ^ 16 → WellFormed s → IsReady s (rotate s)
rotate-IsReady s h w =
    let (done, well, closes) = rotate-Closes s h w in
    record { done = done; well = well; closes = closes; drained = λ _. rotate-empties s w }

rotate_if_idle-IsReady :
    (s : Spool) → s.next_seq < 10 ^ 16 → WellFormed s → IsReady s (rotate_if_idle s)
unfolding rotate_if_idle
rotate_if_idle-IsReady s h w =
    elim (Bool-cases (not (is_some (oldest_segment s.disk)) && ltb 0 s.current_len)) [
      | inl e ↦ rw e (rotate-IsReady s h w)
      | inr e ↦ rw e (record {
        done = refl;
        well = w;
        closes = λ name n c p r. inl r;
        drained = λ q. ground (arith, q);
      })
    ]

-- What `next_batch` ensures of its result and of the spool that it leaves.
pub record Batched (s : Spool) (r : Io (Option (Text × Text))) : Type 0 where
  pub well : WellFormed r.1
  pub closes : Closes (contents (read_file current s.disk)) s r.1
  pub served :
      ((r.0 ≡ ok none) × (segments r.1.disk ≡ []) × (r.1.current_len ≡ 0))
      ⊎ ((name : Text) × (o : IsOldest r.1.disk name) × (r.0
            ≡ ok (some (name, complete_lines (from_utf8_lossy o.bytes)))))

pub next_batch-ready :
    (s : Spool)
    → (rotate_if_idle s).0 ≡ ok tt
    → next_batch s ≡ serve (rotate_if_idle s).1 (oldest_segment (rotate_if_idle s).1.disk)
unfolding next_batch
next_batch-ready s e = rw (e, next_batch)

serve-oldest :
    (s : Spool) (name : Text) (r : Io (Unit {0}))
    → oldest_segment s.disk ≡ some name
    → r ≡ (ok tt, s)
    → serve r.1 (oldest_segment r.1.disk) ≡ serve s (some name)
serve-oldest s name r e p = ap (λ t. serve t.1 (oldest_segment t.1.disk)) p ∙ ap (serve s) e

pub next_batch-oldest :
    (s : Spool) (name : Text)
    → oldest_segment s.disk ≡ some name
    → next_batch s ≡ serve s (some name)
next_batch-oldest s name e =
    let idle = rotate_if_idle-oldest s name e in
    next_batch-ready s (ap (λ r. r.0) idle) ∙ serve-oldest s name (rotate_if_idle s) e idle

-- `next_batch` does not fail on a well-formed spool and keeps it well formed. It answers with the
-- closed segment of the smallest number, by its name and its complete lines; if there is none, also
-- after the open segment was closed for it, then nothing is open either. The segments that are
-- closed afterwards were closed before with the same bytes, or are the open one.
pub next_batch_lem : (s : Spool) → s.next_seq < 10 ^ 16 → WellFormed s → Batched s (next_batch s)
next_batch_lem s h w =
    let ready = rotate_if_idle-IsReady s h w in
    let t = (rotate_if_idle s).1 in
    rw (next_batch-ready s ready.done) (elim (oldest_segment_lem t.disk) [
      | inl (e, none_left) ↦
          rw (e, serve-none t)
            (record {
              well = ready.well;
              closes = ready.closes;
              served = inl (refl, none_left, ready.drained e);
            })
      | inr (name, e, o) ↦
          rw (e, serve_lem t name o.bytes o.there)
            (record { well = ready.well; closes = ready.closes; served = inr (name, o, refl) })
    ])

-- The same with the answer and the state in one equation.
pub next_batch_cases :
    (s : Spool)
    → s.next_seq < 10 ^ 16
    → WellFormed s
    → (next_batch s ≡ (ok none, (rotate_if_idle s).1))
      ⊎ ((name : Text) × (o : IsOldest (rotate_if_idle s).1.disk name) × (next_batch
              (rotate_if_idle s).1
            ≡ next_batch s)
          × (next_batch s
              ≡ (ok (some (name, complete_lines (from_utf8_lossy o.bytes))), (rotate_if_idle s).1)))
next_batch_cases s h w =
    let t = (rotate_if_idle s).1 in
    let answer = next_batch-ready s (rotate_if_idle-IsReady s h w).done in
    elim (oldest_segment_lem t.disk) [
      | inl (e, none_left) ↦ inl (answer ∙ ap (serve t) e ∙ serve-none t)
      | inr (name, e, o) ↦
          let here = answer ∙ ap (serve t) e in
          inr (
            name,
            o,
            next_batch-oldest t name e ∙ sym here,
            here ∙ serve_lem t name o.bytes o.there,
          )
    ]
