-- ===== src/Crypto/Aes.antt =====
-- AES-128 of service/src/crypto.rs: the key schedule and one block. A block is its 16 bytes, column
-- by column.
use Prim.Native.Nat.{bit_xor}
use ahara_collector.Prelude.{
  ℕ, zero, suc, ◌+◌, ◌*◌, ◌/◌, ◌%◌, List, [], ◌∷◌, ◌++◌, Bytes, map, leb, ◌==◌, if◌then◌else◌, take,
  drop, get_or,
}
use ahara_collector.Crypto.Words.{xor_bytes}

abbrev pub sbox : Bytes
sbox =
    0x63 ∷ 0x7c ∷ 0x77 ∷ 0x7b ∷ 0xf2 ∷ 0x6b ∷ 0x6f ∷ 0xc5 ∷ 0x30 ∷ 0x01 ∷ 0x67 ∷ 0x2b ∷ 0xfe ∷ 0xd7
    ∷ 0xab ∷ 0x76 ∷ 0xca ∷ 0x82 ∷ 0xc9 ∷ 0x7d ∷ 0xfa ∷ 0x59 ∷ 0x47 ∷ 0xf0 ∷ 0xad ∷ 0xd4 ∷ 0xa2
    ∷ 0xaf ∷ 0x9c ∷ 0xa4 ∷ 0x72 ∷ 0xc0 ∷ 0xb7 ∷ 0xfd ∷ 0x93 ∷ 0x26 ∷ 0x36 ∷ 0x3f ∷ 0xf7 ∷ 0xcc
    ∷ 0x34 ∷ 0xa5 ∷ 0xe5 ∷ 0xf1 ∷ 0x71 ∷ 0xd8 ∷ 0x31 ∷ 0x15 ∷ 0x04 ∷ 0xc7 ∷ 0x23 ∷ 0xc3 ∷ 0x18
    ∷ 0x96 ∷ 0x05 ∷ 0x9a ∷ 0x07 ∷ 0x12 ∷ 0x80 ∷ 0xe2 ∷ 0xeb ∷ 0x27 ∷ 0xb2 ∷ 0x75 ∷ 0x09 ∷ 0x83
    ∷ 0x2c ∷ 0x1a ∷ 0x1b ∷ 0x6e ∷ 0x5a ∷ 0xa0 ∷ 0x52 ∷ 0x3b ∷ 0xd6 ∷ 0xb3 ∷ 0x29 ∷ 0xe3 ∷ 0x2f
    ∷ 0x84 ∷ 0x53 ∷ 0xd1 ∷ 0x00 ∷ 0xed ∷ 0x20 ∷ 0xfc ∷ 0xb1 ∷ 0x5b ∷ 0x6a ∷ 0xcb ∷ 0xbe ∷ 0x39
    ∷ 0x4a ∷ 0x4c ∷ 0x58 ∷ 0xcf ∷ 0xd0 ∷ 0xef ∷ 0xaa ∷ 0xfb ∷ 0x43 ∷ 0x4d ∷ 0x33 ∷ 0x85 ∷ 0x45
    ∷ 0xf9 ∷ 0x02 ∷ 0x7f ∷ 0x50 ∷ 0x3c ∷ 0x9f ∷ 0xa8 ∷ 0x51 ∷ 0xa3 ∷ 0x40 ∷ 0x8f ∷ 0x92 ∷ 0x9d
    ∷ 0x38 ∷ 0xf5 ∷ 0xbc ∷ 0xb6 ∷ 0xda ∷ 0x21 ∷ 0x10 ∷ 0xff ∷ 0xf3 ∷ 0xd2 ∷ 0xcd ∷ 0x0c ∷ 0x13
    ∷ 0xec ∷ 0x5f ∷ 0x97 ∷ 0x44 ∷ 0x17 ∷ 0xc4 ∷ 0xa7 ∷ 0x7e ∷ 0x3d ∷ 0x64 ∷ 0x5d ∷ 0x19 ∷ 0x73
    ∷ 0x60 ∷ 0x81 ∷ 0x4f ∷ 0xdc ∷ 0x22 ∷ 0x2a ∷ 0x90 ∷ 0x88 ∷ 0x46 ∷ 0xee ∷ 0xb8 ∷ 0x14 ∷ 0xde
    ∷ 0x5e ∷ 0x0b ∷ 0xdb ∷ 0xe0 ∷ 0x32 ∷ 0x3a ∷ 0x0a ∷ 0x49 ∷ 0x06 ∷ 0x24 ∷ 0x5c ∷ 0xc2 ∷ 0xd3
    ∷ 0xac ∷ 0x62 ∷ 0x91 ∷ 0x95 ∷ 0xe4 ∷ 0x79 ∷ 0xe7 ∷ 0xc8 ∷ 0x37 ∷ 0x6d ∷ 0x8d ∷ 0xd5 ∷ 0x4e
    ∷ 0xa9 ∷ 0x6c ∷ 0x56 ∷ 0xf4 ∷ 0xea ∷ 0x65 ∷ 0x7a ∷ 0xae ∷ 0x08 ∷ 0xba ∷ 0x78 ∷ 0x25 ∷ 0x2e
    ∷ 0x1c ∷ 0xa6 ∷ 0xb4 ∷ 0xc6 ∷ 0xe8 ∷ 0xdd ∷ 0x74 ∷ 0x1f ∷ 0x4b ∷ 0xbd ∷ 0x8b ∷ 0x8a ∷ 0x70
    ∷ 0x3e ∷ 0xb5 ∷ 0x66 ∷ 0x48 ∷ 0x03 ∷ 0xf6 ∷ 0x0e ∷ 0x61 ∷ 0x35 ∷ 0x57 ∷ 0xb9 ∷ 0x86 ∷ 0xc1
    ∷ 0x1d ∷ 0x9e ∷ 0xe1 ∷ 0xf8 ∷ 0x98 ∷ 0x11 ∷ 0x69 ∷ 0xd9 ∷ 0x8e ∷ 0x94 ∷ 0x9b ∷ 0x1e ∷ 0x87
    ∷ 0xe9 ∷ 0xce ∷ 0x55 ∷ 0x28 ∷ 0xdf ∷ 0x8c ∷ 0xa1 ∷ 0x89 ∷ 0x0d ∷ 0xbf ∷ 0xe6 ∷ 0x42 ∷ 0x68
    ∷ 0x41 ∷ 0x99 ∷ 0x2d ∷ 0x0f ∷ 0xb0 ∷ 0x54 ∷ 0xbb ∷ 0x16 ∷ []

-- The index of a byte in the table. The table is a permutation, so its one index is what the loop of
-- the source leaves at that place.
unfoldable pub index_of : ℕ → ℕ → Bytes → ℕ
index_of v i [] = 0
index_of v i (x ∷ xs) = let rest = index_of v (suc i) xs in if x == v then i else rest

unfoldable pub counted : ℕ → ℕ → List ℕ
counted zero i = []
counted (suc n) i = i ∷ counted n (suc i)

unfoldable pub inv_sbox : Bytes
unfolding index_of counted
inv_sbox = map (λ v. index_of v 0 sbox) (counted 256 0)

unfoldable pub xtime : ℕ → ℕ
xtime b = bit_xor (b * 2 % 256) (if leb 0x80 b then 0x1b else 0)

-- The eight rounds of `gmul`.
unfoldable pub gmul_rounds : ℕ → ℕ → ℕ → ℕ → ℕ
unfolding xtime
gmul_rounds zero p a b = p
gmul_rounds (suc n) p a b = gmul_rounds n (if b % 2 == 0 then p else bit_xor p a) (xtime a) (b / 2)

unfoldable pub gmul : ℕ → ℕ → ℕ
unfolding gmul_rounds
gmul a b = gmul_rounds 8 0 a b

unfoldable pub sub_bytes : Bytes → Bytes → Bytes
sub_bytes table block = map (λ b. get_or table b 0) block

unfoldable pub next_round_key : ℕ → Bytes → Bytes
unfolding sub_bytes xor_bytes
next_round_key rcon prev =
    let word =
      sub_bytes sbox
        (get_or prev 13 0 ∷ get_or prev 14 0 ∷ get_or prev 15 0 ∷ get_or prev 12 0 ∷ []) in
    let first = xor_bytes (take 4 prev) (xor_bytes word (rcon ∷ 0 ∷ 0 ∷ 0 ∷ [])) in
    let second = xor_bytes (take 4 (drop 4 prev)) first in
    let third = xor_bytes (take 4 (drop 8 prev)) second in
    first ++ second ++ third ++ xor_bytes (drop 12 prev) third

unfoldable pub round_keys_from : ℕ → ℕ → Bytes → List Bytes
unfolding next_round_key xtime
round_keys_from zero rcon prev = []
round_keys_from (suc n) rcon prev =
    let key = next_round_key rcon prev in key ∷ round_keys_from n (xtime rcon) key

unfoldable pub expand_key : Bytes → List Bytes
unfolding round_keys_from
expand_key key = key ∷ round_keys_from 10 1 key

unfoldable pub shift_rows : Bytes → Bytes
unfolding counted
shift_rows s = map (λ i. get_or s ((i / 4 + i % 4) % 4 * 4 + i % 4) 0) (counted 16 0)

-- The byte at `((col + row) % 4) * 4 + row` comes from `col * 4 + row`.
unfoldable pub inv_shift_rows : Bytes → Bytes
unfolding counted
inv_shift_rows s = map (λ i. get_or s ((i / 4 + 3 * (i % 4)) % 4 * 4 + i % 4) 0) (counted 16 0)

-- One column times the circulant of the four coefficients.
unfoldable pub mix_column : ℕ → ℕ → ℕ → ℕ → Bytes → Bytes
unfolding gmul
mix_column p q r t c =
    let row : ℕ → ℕ → ℕ → ℕ → ℕ = λ p' q' r' t'.
      bit_xor
        (bit_xor (bit_xor (gmul (get_or c 0 0) p') (gmul (get_or c 1 0) q'))
          (gmul (get_or c 2 0) r'))
        (gmul (get_or c 3 0) t') in
    row p q r t ∷ row t p q r ∷ row r t p q ∷ row q r t p ∷ []

unfoldable pub mix_with : ℕ → ℕ → ℕ → ℕ → Bytes → Bytes
unfolding mix_column
mix_with p q r t s =
    mix_column p q r t (take 4 s)
    ++ mix_column p q r t (take 4 (drop 4 s))
    ++ mix_column p q r t (take 4 (drop 8 s))
    ++ mix_column p q r t (drop 12 s)

-- The rounds after the first key; the last one does not mix the columns.
unfoldable pub encrypt_rounds : List Bytes → Bytes → Bytes
unfolding sub_bytes shift_rows mix_with xor_bytes
encrypt_rounds [] s = s
encrypt_rounds (key ∷ []) s = xor_bytes (shift_rows (sub_bytes sbox s)) key
encrypt_rounds (key ∷ next ∷ keys) s =
    encrypt_rounds (next ∷ keys) (xor_bytes (mix_with 2 3 1 1 (shift_rows (sub_bytes sbox s))) key)

unfoldable pub encrypt_block : Bytes → List Bytes → Bytes
unfolding encrypt_rounds
encrypt_block s [] = s
encrypt_block s (key ∷ keys) = encrypt_rounds keys (xor_bytes s key)

-- The same rounds backwards, from the round keys of the rounds.
unfoldable pub decrypt_rounds : List Bytes → Bytes → Bytes
unfolding sub_bytes inv_shift_rows inv_sbox mix_with xor_bytes
decrypt_rounds [] s = s
decrypt_rounds (key ∷ []) s = xor_bytes (sub_bytes inv_sbox (inv_shift_rows s)) key
decrypt_rounds (key ∷ next ∷ keys) s =
    decrypt_rounds (next ∷ keys)
      (mix_with 0x0e 0x0b 0x0d 0x09 (xor_bytes (sub_bytes inv_sbox (inv_shift_rows s)) key))

unfoldable pub reversed_keys : List Bytes → List Bytes → List Bytes
reversed_keys [] acc = acc
reversed_keys (k ∷ ks) acc = reversed_keys ks (k ∷ acc)

unfoldable pub decrypt_block : Bytes → List Bytes → Bytes
unfolding decrypt_rounds reversed_keys
decrypt_block s keys = elim (reversed_keys keys []) [
  | [] ↦ s
  | key ∷ rest ↦ decrypt_rounds rest (xor_bytes s key)
]
