-- ===== src/Spool/Disk.antt =====
-- A spool directory: the files in the order in which `read_dir` lists them, which the program does
-- not rely on. The calls of `std::fs` succeed, but for a file that is not there.
use ahara_collector.Prelude.{
  ◌≡◌, refl, Option, none, some, List, [], ◌∷◌, ◌++◌, Text, Bytes, arith, if◌then◌else◌, text_eq,
  text_eq→eq, text_eq_refl,
}

abbrev pub Disk : Type 0
Disk = List (Text × Bytes)

unfoldable pub read_file : Text → Disk → Option Bytes
read_file name [] = none
read_file name ((n, b) ∷ d) = if text_eq name n then some b else read_file name d

unfoldable pub remove_file : Text → Disk → Disk
remove_file name [] = []
remove_file name ((n, b) ∷ d) =
    let rest = remove_file name d in if text_eq name n then rest else (n, b) ∷ rest

-- Open with `create` and `append`, and write.
unfoldable pub append_file : Text → Bytes → Disk → Disk
append_file name bytes [] = (name, bytes) ∷ []
append_file name bytes ((n, b) ∷ d) =
    if text_eq name n then (n, b ++ bytes) ∷ d else (n, b) ∷ append_file name bytes d

unfoldable pub create_file : Text → Bytes → Disk → Disk
create_file name bytes d = (name, bytes) ∷ remove_file name d

abbrev pub contents : Option Bytes → Bytes
contents none = []
contents (some b) = b

pub read_file-remove_file :
    (k j : Text) (d : Disk)
    → read_file j (remove_file k d) ≡ (if text_eq j k then none else read_file j d)
unfolding read_file remove_file
read_file-remove_file k j [] = ground arith
read_file-remove_file k j ((n, b) ∷ d) = ground (
  arith,
  text_eq→eq k n,
  text_eq→eq j k,
  text_eq→eq j n,
  text_eq_refl j,
  text_eq_refl k,
  read_file-remove_file k j d,
)

pub read_file-create_file :
    (k j : Text) (b : Bytes) (d : Disk)
    → read_file j (create_file k b d) ≡ (if text_eq j k then some b else read_file j d)
unfolding create_file read_file
read_file-create_file k j b d = ground (arith, read_file-remove_file k j d)

pub read_file-append_file :
    (k j : Text) (b : Bytes) (d : Disk)
    → read_file j (append_file k b d)
      ≡ (if text_eq j k then some (contents (read_file k d) ++ b) else read_file j d)
unfolding append_file read_file
read_file-append_file k j b [] = refl
read_file-append_file k j b ((n, c) ∷ d) = ground (
  arith,
  text_eq→eq k n,
  text_eq→eq j k,
  text_eq→eq j n,
  text_eq_refl j,
  text_eq_refl k,
  read_file-append_file k j b d,
)
