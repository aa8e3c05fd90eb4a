-- ===== src/Spool/Names.antt =====
-- The names of closed segments, of service/src/spool.rs.
pub mod Laws
use ahara_collector.Prelude.{
  ℕ, ◌-◌, ◌&&◌, Option, none, some, [], ◌∷◌, ◌++◌, Text, codes, ◌==◌, if◌then◌else◌, length,
  replicate, all, text_eq, strip_prefix,
}
use ahara_collector.Prelude.Decimal.{is_digit, decimal, number_from}
use ahara_collector.Prelude.Options.{◌>>=◌}

abbrev pub current : Text
current = codes "current.jsonl"

-- `{:016}`
unfoldable pub padded : ℕ → Text
padded n = let digits = decimal n in replicate (16 - length digits) b'0' ++ digits

unfoldable pub segment_name : ℕ → Text
segment_name seq = codes "seg-" ++ (padded seq ++ codes ".jsonl")

unfoldable pub strip_suffix : Text → Text → Option Text
unfolding text_eq
strip_suffix suffix [] = if text_eq [] suffix then some [] else none
strip_suffix suffix (c ∷ s) =
    let rest = strip_suffix suffix s in
    if text_eq (c ∷ s) suffix then some [] else elim rest [ none ↦ none | some t ↦ some (c ∷ t) ]

unfoldable pub parse_segment_name : Text → Option ℕ
unfolding strip_prefix
parse_segment_name name = do
  rest ← strip_prefix (codes "seg-") name
  digits ← strip_suffix (codes ".jsonl") rest
  if length digits == 16 && all is_digit digits then some (number_from 0 digits) else none
