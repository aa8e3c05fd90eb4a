-- ===== src/Prelude/Parsing.antt =====
-- `str` methods of the standard library: `split`, `trim`, `parse` for `u32` and for IPv4 addresses.
use ahara_collector.Prelude.Tests.{ltb, leb, ◌==◌, if◌then◌else◌}
use ahara_collector.Prelude.Lists.{Text, length, all, is_empty}
use ahara_collector.Prelude.Decimal.{is_digit, number_from}
use Prim.Native.Nat.{ℕ, ◌+◌, ◌*◌, ◌^◌}
use mathlib.Core.Bool.{true, Bool, false, not, ◌&&◌, ◌||◌}
use mathlib.Core.Option.{Option, none, some}
use mathlib.Core.List.{List, [], ◌∷◌}

unfoldable pub onto_first : ℕ → List Text → List Text
onto_first c [] = (c ∷ []) ∷ []
onto_first c (part ∷ parts) = (c ∷ part) ∷ parts

-- `split(sep)`
unfoldable pub split : ℕ → Text → List Text
unfolding onto_first
split sep [] = [] ∷ []
split sep (c ∷ s) = let rest = split sep s in if c == sep then [] ∷ rest else onto_first c rest

-- `char::is_whitespace`
unfoldable pub is_whitespace : ℕ → Bool
is_whitespace c =
    leb 9 c && leb c 13
    || c == 32
    || c == 133
    || c == 160
    || c == 5760
    || leb 8192 c && leb c 8202
    || c == 8232
    || c == 8233
    || c == 8239
    || c == 8287
    || c == 12288

unfoldable pub trim_start : Text → Text
unfolding is_whitespace
trim_start [] = []
trim_start (c ∷ s) = let rest = trim_start s in if is_whitespace c then rest else c ∷ s

unfoldable pub trim_end : Text → Text
unfolding is_whitespace
trim_end [] = []
trim_end (c ∷ s) = elim (trim_end s) [
  | [] ↦ if is_whitespace c then [] else c ∷ []
  | d ∷ t ↦ c ∷ d ∷ t
]

unfoldable pub trim : Text → Text
unfolding trim_start trim_end
trim s = trim_end (trim_start s)

unfoldable pub to_lower : ℕ → ℕ
to_lower c = if leb 65 c && leb c 90 then c + 32 else c

unfoldable pub to_ascii_lowercase : Text → Text
unfolding to_lower
to_ascii_lowercase [] = []
to_ascii_lowercase (c ∷ s) = to_lower c ∷ to_ascii_lowercase s

-- Digits that are a number below the bound.
unfoldable pub digits_below : ℕ → Text → Option ℕ
unfolding is_digit number_from all
digits_below bound s =
    if not (is_empty s) && all is_digit s && ltb (number_from 0 s) bound
    then some (number_from 0 s)
    else none

-- `u32::from_str`, which takes a leading plus sign.
unfoldable pub parse_u32 : Text → Option ℕ
unfolding digits_below
parse_u32 [] = none
parse_u32 (c ∷ s) = if c == 43 then digits_below (2 ^ 32) s else digits_below (2 ^ 32) (c ∷ s)

unfoldable pub has_leading_zero : Text → Bool
has_leading_zero (c ∷ d ∷ s) = c == 48
has_leading_zero _ = false

unfoldable pub parse_octet : Text → Option ℕ
unfolding digits_below has_leading_zero
parse_octet s = if leb (length s) 3 && not (has_leading_zero s) then digits_below 256 s else none

unfoldable pub address : List (Option ℕ) → Option ℕ
address (some a ∷ some b ∷ some c ∷ some d ∷ []) = some (a * 2 ^ 24 + b * 2 ^ 16 + c * 2 ^ 8 + d)
address _ = none

unfoldable pub octets : List Text → List (Option ℕ)
unfolding parse_octet
octets [] = []
octets (part ∷ parts) = parse_octet part ∷ octets parts

-- `Ipv4Addr::from_str`; an address is its `u32`.
unfoldable pub parse_ipv4 : Text → Option ℕ
unfolding split octets address
parse_ipv4 s = address (octets (split 46 s))

-- `split_whitespace`
unfoldable pub words : Text → List Text
unfolding is_whitespace
words [] = []
words (c ∷ s) =
    let rest = words s in
    if is_whitespace c then rest else if starts_word s then onto_first c rest else (c ∷ []) ∷ rest
  where
    starts_word : Text → Bool
    starts_word [] = false
    starts_word (d ∷ t) = not (is_whitespace d)

-- The parts of a split that are not empty.
unfoldable pub filled : List Text → List Text
filled [] = []
filled (part ∷ parts) = let rest = filled parts in if is_empty part then rest else part ∷ rest

-- `from_str` of an unsigned integer below the bound, with or without a plus sign.
unfoldable pub parse_unsigned : ℕ → Text → Option ℕ
unfolding digits_below
parse_unsigned bound [] = none
parse_unsigned bound (c ∷ s) = if c == 43 then digits_below bound s else digits_below bound (c ∷ s)

unfoldable pub starts_with : Text → Text → Bool
starts_with [] s = true
starts_with (c ∷ p) [] = false
starts_with (c ∷ p) (d ∷ s) = c == d && starts_with p s

-- `contains`, of a text in a text.
unfoldable pub contains_text : Text → Text → Bool
unfolding starts_with
contains_text part [] = is_empty part
contains_text part (c ∷ s) = starts_with part (c ∷ s) || contains_text part s
