-- ===== src/SpoolSet.antt =====
-- `SpoolSet` of service/src/spool.rs: one spool for each module, under a shared root.
pub mod Laws
use ahara_collector.Prelude.{
  ℕ, ◌+◌, Bool, true, false, Option, none, some, List, [], ◌∷◌, Text, if◌then◌else◌,
}
use ahara_collector.Prelude.Results.{Result, ok, err}
use ahara_collector.Spool.Disk.{Disk}
use ahara_collector.Spool.Model.{Spool, SpoolStats, IoError, invalid_input, open_spool, stats}
use ahara_collector.Envelope.{valid_module}
use ahara_collector.Maps.{insert_key, lookup}

-- `root` holds the subdirectories that were there at the start. That of an open spool is the spool's
-- own from then on.
pub record SpoolSet : Type 0 where
  pub root : List (Text × Disk)
  pub segment_bytes : ℕ
  pub max_bytes : ℕ
  pub spools : List (Text × Spool)

-- The spools of the subdirectories with a valid name.
unfoldable pub reopen : ℕ → ℕ → List (Text × Disk) → List (Text × Spool)
unfolding valid_module insert_key
reopen segment_bytes max_bytes [] = []
reopen segment_bytes max_bytes ((name, d) ∷ root) =
    let rest = reopen segment_bytes max_bytes root in
    if valid_module name then insert_key name (open_spool d segment_bytes max_bytes) rest else rest

-- `SpoolSet::open`
unfoldable pub open_set : List (Text × Disk) → ℕ → ℕ → SpoolSet
unfolding reopen
open_set root segment_bytes max_bytes = record {
  root = root;
  segment_bytes = segment_bytes;
  max_bytes = max_bytes;
  spools = reopen segment_bytes max_bytes root;
}

unfoldable pub directory : Option Disk → Disk
directory none = []
directory (some d) = d

-- The module's spool, opened if it is not yet. A missing subdirectory is created empty.
unfoldable pub for_module : Text → SpoolSet → Result IoError Spool × SpoolSet
unfolding directory
for_module name set =
    if valid_module name
    then elim (lookup name set.spools) [
      | some spool ↦ (ok spool, set)
      | none ↦
          let spool =
            open_spool (directory (lookup name set.root)) set.segment_bytes set.max_bytes in
          (ok spool, record set { spools = insert_key name spool set.spools })
    ]
    else (err invalid_input, set)

-- `SpoolSet::get`
unfoldable pub get_spool : Text → SpoolSet → Option Spool
get_spool name set = lookup name set.spools

-- The spool that a shared handle stands for has changed.
unfoldable pub put_spool : Text → Spool → SpoolSet → SpoolSet
put_spool name spool set = record set { spools = insert_key name spool set.spools }

unfoldable pub add_stats : List (Text × Spool) → SpoolStats
add_stats [] = record { total_bytes = 0; closed_segments = 0; dropped_segments = 0 }
add_stats ((name, spool) ∷ spools) =
    let here = stats spool in
    let rest = add_stats spools in
    record {
      total_bytes = here.total_bytes + rest.total_bytes;
      closed_segments = here.closed_segments + rest.closed_segments;
      dropped_segments = here.dropped_segments + rest.dropped_segments;
    }

-- `SpoolSet::stats`
unfoldable pub set_stats : SpoolSet → SpoolStats
unfolding add_stats
set_stats set = add_stats set.spools
