-- ===== src/Crypto/Hash.antt =====
-- SHA-256 and SHA-1 of service/src/crypto.rs.
use Prim.Native.Nat.{bit_and, bit_or, bit_xor}
use ahara_collector.Prelude.{
  ℕ, zero, suc, ◌*◌, ◌/◌, ◌%◌, ◌^◌, List, [], ◌∷◌, ◌++◌, Bytes, ltb, ◌==◌, if◌then◌else◌, length,
  take, drop, get_or,
}
use ahara_collector.Crypto.Words.{
  wrapping_add, rotate_left, rotate_right, complement, words_bytes, block_words,
}

abbrev pub sha256_k : List ℕ
sha256_k =
    0x428a2f98 ∷ 0x71374491 ∷ 0xb5c0fbcf ∷ 0xe9b5dba5 ∷ 0x3956c25b ∷ 0x59f111f1 ∷ 0x923f82a4
    ∷ 0xab1c5ed5 ∷ 0xd807aa98 ∷ 0x12835b01 ∷ 0x243185be ∷ 0x550c7dc3 ∷ 0x72be5d74 ∷ 0x80deb1fe
    ∷ 0x9bdc06a7 ∷ 0xc19bf174 ∷ 0xe49b69c1 ∷ 0xefbe4786 ∷ 0x0fc19dc6 ∷ 0x240ca1cc ∷ 0x2de92c6f
    ∷ 0x4a7484aa ∷ 0x5cb0a9dc ∷ 0x76f988da ∷ 0x983e5152 ∷ 0xa831c66d ∷ 0xb00327c8 ∷ 0xbf597fc7
    ∷ 0xc6e00bf3 ∷ 0xd5a79147 ∷ 0x06ca6351 ∷ 0x14292967 ∷ 0x27b70a85 ∷ 0x2e1b2138 ∷ 0x4d2c6dfc
    ∷ 0x53380d13 ∷ 0x650a7354 ∷ 0x766a0abb ∷ 0x81c2c92e ∷ 0x92722c85 ∷ 0xa2bfe8a1 ∷ 0xa81a664b
    ∷ 0xc24b8b70 ∷ 0xc76c51a3 ∷ 0xd192e819 ∷ 0xd6990624 ∷ 0xf40e3585 ∷ 0x106aa070 ∷ 0x19a4c116
    ∷ 0x1e376c08 ∷ 0x2748774c ∷ 0x34b0bcb5 ∷ 0x391c0cb3 ∷ 0x4ed8aa4a ∷ 0x5b9cca4f ∷ 0x682e6ff3
    ∷ 0x748f82ee ∷ 0x78a5636f ∷ 0x84c87814 ∷ 0x8cc70208 ∷ 0x90befffa ∷ 0xa4506ceb ∷ 0xbef9a3f7
    ∷ 0xc67178f2 ∷ []

-- The big-endian bytes of a `u64`.
unfoldable pub u64_bytes : ℕ → Bytes
unfolding words_bytes
u64_bytes n = words_bytes (n / 2 ^ 32 % 2 ^ 32 ∷ n % 2 ^ 32 ∷ [])

-- The loop that pushes zeros until the length is 56 modulo 64; 64 rounds are enough.
unfoldable pub zeros_to_56 : ℕ → ℕ → Bytes
zeros_to_56 zero n = []
zeros_to_56 (suc f) n = let rest = zeros_to_56 f (suc n) in if n % 64 == 56 then [] else 0 ∷ rest

-- `chunks_exact(size)`; a shorter rest is left out. The fuel is the length.
unfoldable pub chunks_exact : ℕ → ℕ → Bytes → List Bytes
chunks_exact zero size bs = []
chunks_exact (suc f) size bs =
    let rest = chunks_exact f size (drop size bs) in
    if ltb (length bs) size then [] else take size bs ∷ rest

unfoldable pub padding : ℕ → Bytes
unfolding zeros_to_56 u64_bytes
padding n = 0x80 ∷ zeros_to_56 64 (suc n) ++ u64_bytes (n * 8 % 2 ^ 64)

unfoldable pub padded_blocks : Bytes → List Bytes
unfolding padding chunks_exact
padded_blocks bs = let padded = bs ++ padding (length bs) in chunks_exact (length padded) 64 padded

-- The message schedule is built backwards: the newest word first.
unfoldable pub reversed_onto : List ℕ → List ℕ → List ℕ
reversed_onto [] acc = acc
reversed_onto (x ∷ xs) acc = reversed_onto xs (x ∷ acc)

unfoldable pub extend_256 : ℕ → List ℕ → List ℕ
unfolding wrapping_add rotate_right
extend_256 zero w = w
extend_256 (suc n) w =
    let w15 = get_or w 14 0 in
    let w2 = get_or w 1 0 in
    let s0 = bit_xor (bit_xor (rotate_right w15 7) (rotate_right w15 18)) (w15 / 2 ^ 3) in
    let s1 = bit_xor (bit_xor (rotate_right w2 17) (rotate_right w2 19)) (w2 / 2 ^ 10) in
    extend_256 n
      (wrapping_add (wrapping_add (wrapping_add (get_or w 15 0) s0) (get_or w 6 0)) s1 ∷ w)

-- The working variables of a round.
pub record Working : Type 0 where
  pub a : ℕ
  pub b : ℕ
  pub c : ℕ
  pub d : ℕ
  pub e : ℕ
  pub f : ℕ
  pub g : ℕ
  pub hh : ℕ

unfoldable pub round_256 : ℕ → ℕ → Working → Working
unfolding wrapping_add rotate_right complement
round_256 k w v =
    let s1 = bit_xor (bit_xor (rotate_right v.e 6) (rotate_right v.e 11)) (rotate_right v.e 25) in
    let ch = bit_xor (bit_and v.e v.f) (bit_and (complement v.e) v.g) in
    let t1 = wrapping_add (wrapping_add (wrapping_add (wrapping_add v.hh s1) ch) k) w in
    let s0 = bit_xor (bit_xor (rotate_right v.a 2) (rotate_right v.a 13)) (rotate_right v.a 22) in
    let maj = bit_xor (bit_xor (bit_and v.a v.b) (bit_and v.a v.c)) (bit_and v.b v.c) in
    let t2 = wrapping_add s0 maj in
    record {
      a = wrapping_add t1 t2;
      b = v.a;
      c = v.b;
      d = v.c;
      e = wrapping_add v.d t1;
      f = v.e;
      g = v.f;
      hh = v.g;
    }

unfoldable pub rounds_256 : List ℕ → List ℕ → Working → Working
unfolding round_256
rounds_256 (k ∷ ks) (w ∷ ws) v = rounds_256 ks ws (round_256 k w v)
rounds_256 _ _ v = v

unfoldable pub compress_256 : Working → Bytes → Working
unfolding block_words reversed_onto extend_256 rounds_256 wrapping_add
compress_256 h block =
    let w = reversed_onto (extend_256 48 (reversed_onto (block_words block) [])) [] in
    let v = rounds_256 sha256_k w h in
    record {
      a = wrapping_add h.a v.a;
      b = wrapping_add h.b v.b;
      c = wrapping_add h.c v.c;
      d = wrapping_add h.d v.d;
      e = wrapping_add h.e v.e;
      f = wrapping_add h.f v.f;
      g = wrapping_add h.g v.g;
      hh = wrapping_add h.hh v.hh;
    }

unfoldable pub fold_256 : Working → List Bytes → Working
unfolding compress_256
fold_256 h [] = h
fold_256 h (block ∷ blocks) = fold_256 (compress_256 h block) blocks

unfoldable pub sha256 : Bytes → Bytes
unfolding padded_blocks fold_256 words_bytes
sha256 bs =
    let start : Working = record {
      a = 0x6a09e667;
      b = 0xbb67ae85;
      c = 0x3c6ef372;
      d = 0xa54ff53a;
      e = 0x510e527f;
      f = 0x9b05688c;
      g = 0x1f83d9ab;
      hh = 0x5be0cd19;
    } in
    let h = fold_256 start (padded_blocks bs) in
    words_bytes (h.a ∷ h.b ∷ h.c ∷ h.d ∷ h.e ∷ h.f ∷ h.g ∷ h.hh ∷ [])

pub record Working5 : Type 0 where
  pub a : ℕ
  pub b : ℕ
  pub c : ℕ
  pub d : ℕ
  pub e : ℕ

unfoldable pub extend_1 : ℕ → List ℕ → List ℕ
unfolding rotate_left
extend_1 zero w = w
extend_1 (suc n) w = extend_1 n (
    rotate_left
      (bit_xor (bit_xor (bit_xor (get_or w 2 0) (get_or w 7 0)) (get_or w 13 0)) (get_or w 15 0)) 1
    ∷ w)

unfoldable pub mix_1 : ℕ → Working5 → ℕ × ℕ
unfolding complement
mix_1 i v =
    if ltb i 20
    then (bit_or (bit_and v.b v.c) (bit_and (complement v.b) v.d), 0x5a827999)
    else if ltb i 40
    then (bit_xor (bit_xor v.b v.c) v.d, 0x6ed9eba1)
    else if ltb i 60
    then (bit_or (bit_or (bit_and v.b v.c) (bit_and v.b v.d)) (bit_and v.c v.d), 0x8f1bbcdc)
    else (bit_xor (bit_xor v.b v.c) v.d, 0xca62c1d6)

unfoldable pub rounds_1 : ℕ → List ℕ → Working5 → Working5
unfolding mix_1 wrapping_add rotate_left
rounds_1 i [] v = v
rounds_1 i (w ∷ ws) v =
    let (f, k) = mix_1 i v in
    let temp =
      wrapping_add (wrapping_add (wrapping_add (wrapping_add (rotate_left v.a 5) f) v.e) k) w in
    rounds_1 (suc i) ws (record { a = temp; b = v.a; c = rotate_left v.b 30; d = v.c; e = v.d })

unfoldable pub fold_1 : Working5 → List Bytes → Working5
unfolding block_words reversed_onto extend_1 rounds_1 wrapping_add
fold_1 h [] = h
fold_1 h (block ∷ blocks) =
    let w = reversed_onto (extend_1 64 (reversed_onto (block_words block) [])) [] in
    let v = rounds_1 0 w h in
    fold_1
      (record {
        a = wrapping_add h.a v.a;
        b = wrapping_add h.b v.b;
        c = wrapping_add h.c v.c;
        d = wrapping_add h.d v.d;
        e = wrapping_add h.e v.e;
      })
      blocks

unfoldable pub sha1 : Bytes → Bytes
unfolding padded_blocks fold_1 words_bytes
sha1 bs =
    let start : Working5 = record {
      a = 0x67452301;
      b = 0xefcdab89;
      c = 0x98badcfe;
      d = 0x10325476;
      e = 0xc3d2e1f0;
    } in
    let h = fold_1 start (padded_blocks bs) in words_bytes (h.a ∷ h.b ∷ h.c ∷ h.d ∷ h.e ∷ [])
