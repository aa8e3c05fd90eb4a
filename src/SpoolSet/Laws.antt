-- ===== src/SpoolSet/Laws.antt =====
-- `SpoolSet::for_module` and `SpoolSet::get` of service/src/spool.rs.
use ahara_collector.Prelude.{
  true, false, ◌≡◌, refl, ◌⊎◌, inl, inr, none, some, Text, arith, text_eq, text_eq→eq, text_eq_refl,
  Option-cases, Bool-cases,
}
use ahara_collector.Prelude.Results.{Result, ok, err}
use ahara_collector.Spool.Model.{Spool, open_spool, IoError, invalid_input}
use ahara_collector.Envelope.{valid_module}
use ahara_collector.Maps.{lookup, insert_key, lookup-insert_key}
use ahara_collector.SpoolSet.{SpoolSet, directory, for_module, get_spool}

-- What `for_module` ensures of its answer and of the set that it leaves.
pub record Opened (name : Text) (set : SpoolSet) (r : Result IoError Spool × SpoolSet)
    : Type 0 where
  pub answer :
      ((valid_module name ≡ false) × (r.0 ≡ err invalid_input) × (r.1 ≡ set))
      ⊎ ((spool : Spool) × (valid_module name ≡ true)
          × (r.0 ≡ ok spool)
          × (get_spool name r.1 ≡ some spool))
  pub kept :
      (other : Text) (spool : Spool)
      → get_spool other set ≡ some spool
      → get_spool other r.1 ≡ some spool
  pub others :
      (other : Text) → text_eq other name ≡ false → get_spool other r.1 ≡ get_spool other set

-- `for_module` refuses a name that is not valid and then changes nothing; else it answers with the
-- spool that `get` finds from then on. Spools that were open stay as they are, and no other is
-- opened.
pub for_module_lem : (name : Text) (set : SpoolSet) → Opened name set (for_module name set)
unfolding for_module get_spool
for_module_lem name set = elim (Bool-cases (valid_module name)) [
  | inr v ↦
      rw v (record {
        answer = inl (v, refl, refl);
        kept = λ other spool e. e;
        others = λ other e. refl;
      })
  | inl v ↦ elim (Option-cases (lookup name set.spools)) [
    | inr (spool, l) ↦
        rw (v, l)
          (record {
            answer = inr (spool, v, refl, l);
            kept = λ other spool e. e;
            others = λ other e. refl;
          })
    | inl l ↦
        let spool = open_spool (directory (lookup name set.root)) set.segment_bytes set.max_bytes in
        rw (v, l)
          (record {
            answer = inr (spool, v, refl, found spool);
            kept = λ other spool' e. still other spool spool' e l;
            others = λ other e. apart other spool e;
          })
  ]
]
  where
    found : (spool : Spool) → lookup name (insert_key name spool set.spools) ≡ some spool
    found spool = ground (arith, lookup-insert_key name name spool set.spools, text_eq_refl name)

    still :
        (other : Text) (spool spool' : Spool)
        → lookup other set.spools ≡ some spool'
        → lookup name set.spools ≡ none
        → lookup other (insert_key name spool set.spools) ≡ some spool'
    still other spool spool' e l =
        ground (arith, e, l, lookup-insert_key name other spool set.spools, text_eq→eq other name)

    apart :
        (other : Text) (spool : Spool)
        → text_eq other name ≡ false
        → lookup other (insert_key name spool set.spools) ≡ lookup other set.spools
    apart other spool e = ground (arith, e, lookup-insert_key name other spool set.spools)
