-- ===== src/Security/Sha.antt =====
-- The SHA-256 of kernel/security.c. A word is a number below 2 ^ 32; each sum wraps.
pub mod Laws
use axiome_os.Prelude.{
  ℕ, zero, suc, ◌+◌, ◌-◌, ◌*◌, ◌/◌, ◌%◌, ◌^◌, Bool, true, false, ◌&&◌, List, [], ◌∷◌, ◌++◌, map,
  bit_and, bit_or, bit_xor, ltb, ◌==◌, if◌then◌else◌, length, get_or, take, drop, replicate,
}
use axiome_os.KString.{first, strlen}

pub sha_rotr : ℕ → ℕ → ℕ
sha_rotr x n = bit_or (x / 2 ^ n) (x * 2 ^ (32 - n) % 2 ^ 32)

pub sha_k : List ℕ
sha_k =
    0x428a2f98 ∷ 0x71374491 ∷ 0xb5c0fbcf ∷ 0xe9b5dba5 ∷ 0x3956c25b ∷ 0x59f111f1 ∷ 0x923f82a4
    ∷ 0xab1c5ed5 ∷ 0xd807aa98 ∷ 0x12835b01 ∷ 0x243185be ∷ 0x550c7dc3 ∷ 0x72be5d74 ∷ 0x80deb1fe
    ∷ 0x9bdc06a7 ∷ 0xc19bf174 ∷ 0xe49b69c1 ∷ 0xefbe4786 ∷ 0x0fc19dc6 ∷ 0x240ca1cc ∷ 0x2de92c6f
    ∷ 0x4a7484aa ∷ 0x5cb0a9dc ∷ 0x76f988da ∷ 0x983e5152 ∷ 0xa831c66d ∷ 0xb00327c8 ∷ 0xbf597fc7
    ∷ 0xc6e00bf3 ∷ 0xd5a79147 ∷ 0x06ca6351 ∷ 0x14292967 ∷ 0x27b70a85 ∷ 0x2e1b2138 ∷ 0x4d2c6dfc
    ∷ 0x53380d13 ∷ 0x650a7354 ∷ 0x766a0abb ∷ 0x81c2c92e ∷ 0x92722c85 ∷ 0xa2bfe8a1 ∷ 0xa81a664b
    ∷ 0xc24b8b70 ∷ 0xc76c51a3 ∷ 0xd192e819 ∷ 0xd6990624 ∷ 0xf40e3585 ∷ 0x106aa070 ∷ 0x19a4c116
    ∷ 0x1e376c08 ∷ 0x2748774c ∷ 0x34b0bcb5 ∷ 0x391c0cb3 ∷ 0x4ed8aa4a ∷ 0x5b9cca4f ∷ 0x682e6ff3
    ∷ 0x748f82ee ∷ 0x78a5636f ∷ 0x84c87814 ∷ 0x8cc70208 ∷ 0x90befffa ∷ 0xa4506ceb ∷ 0xbef9a3f7
    ∷ 0xc67178f2 ∷ []

-- `total` is the length and the byte 0x80.
pub padded_size : ℕ → ℕ
padded_size total =
    let padded = total + (64 - total % 64) % 64 in
    if padded % 64 == 0 && ltb 56 (total % 64)
    then padded + 64
    else if total % 64 == 0
    then total + 64
    else padded

-- `buf[padded - 1 - j]` for the `j` below 8, the most significant byte first.
pub length_bytes : ℕ → ℕ → List ℕ
length_bytes bitlen zero = []
length_bytes bitlen (suc j) = bitlen / 2 ^ (8 * j) % 256 ∷ length_bytes bitlen j

-- The buffer as the loops leave it.
pub sha_buf : List ℕ → List ℕ
sha_buf msg =
    let len = length msg in
    let padded = padded_size (len + 1) in
    msg ++ (0x80 ∷ (replicate (padded - 8 - (len + 1)) 0 ++ length_bytes (len * 8 % 2 ^ 64) 8))

-- The first `n` words of a block.
pub block_words : List ℕ → ℕ → List ℕ
block_words buf zero = []
block_words buf (suc n) =
    bit_or
      (bit_or (bit_or (get_or buf 0 0 * 2 ^ 24) (get_or buf 1 0 * 2 ^ 16)) (get_or buf 2 0 * 2 ^ 8))
      (get_or buf 3 0)
    ∷ block_words (drop 4 buf) n

-- The next `n` words behind the words `w`, of which there are `t`.
pub schedule : List ℕ → ℕ → ℕ → List ℕ
schedule w t zero = w
schedule w t (suc n) =
    let a = get_or w (t - 2) 0 in
    let b = get_or w (t - 15) 0 in
    schedule
      (w
        ++ ((bit_xor (bit_xor (sha_rotr a 17) (sha_rotr a 19)) (a / 2 ^ 10)
              + get_or w (t - 7) 0
              + bit_xor (bit_xor (sha_rotr b 7) (sha_rotr b 18)) (b / 2 ^ 3)
              + get_or w (t - 16) 0)
            % 2 ^ 32)
          ∷ [])
      (suc t) n

pub record Words : Type 0 where
  pub a : ℕ
  pub b : ℕ
  pub c : ℕ
  pub d : ℕ
  pub e : ℕ
  pub f : ℕ
  pub g : ℕ
  pub h : ℕ

abbrev pub initial : Words
initial = record {
  a = 0x6a09e667;
  b = 0xbb67ae85;
  c = 0x3c6ef372;
  d = 0xa54ff53a;
  e = 0x510e527f;
  f = 0x9b05688c;
  g = 0x1f83d9ab;
  h = 0x5be0cd19;
}

-- The body of the loop over `t`, with `SHA_K[t]` and `w[t]`.
pub round : Words → ℕ → ℕ → Words
round s k w =
    let s1 = bit_xor (bit_xor (sha_rotr s.e 6) (sha_rotr s.e 11)) (sha_rotr s.e 25) in
    let ch = bit_xor (bit_and s.e s.f) (bit_and (0xFFFFFFFF - s.e) s.g) in
    let t1 = (s.h + s1 + ch + k + w) % 2 ^ 32 in
    let s0 = bit_xor (bit_xor (sha_rotr s.a 2) (sha_rotr s.a 13)) (sha_rotr s.a 22) in
    let maj = bit_xor (bit_xor (bit_and s.a s.b) (bit_and s.a s.c)) (bit_and s.b s.c) in
    let t2 = (s0 + maj) % 2 ^ 32 in
    record {
      h = s.g;
      g = s.f;
      f = s.e;
      e = (s.d + t1) % 2 ^ 32;
      d = s.c;
      c = s.b;
      b = s.a;
      a = (t1 + t2) % 2 ^ 32;
    }

pub rounds : Words → List ℕ → List ℕ → Words
rounds s [] ws = s
rounds s (k ∷ ks) [] = s
rounds s (k ∷ ks) (w ∷ ws) = rounds (round s k w) ks ws

pub add_words : Words → Words → Words
add_words s t = record {
  a = (s.a + t.a) % 2 ^ 32;
  b = (s.b + t.b) % 2 ^ 32;
  c = (s.c + t.c) % 2 ^ 32;
  d = (s.d + t.d) % 2 ^ 32;
  e = (s.e + t.e) % 2 ^ 32;
  f = (s.f + t.f) % 2 ^ 32;
  g = (s.g + t.g) % 2 ^ 32;
  h = (s.h + t.h) % 2 ^ 32;
}

-- The loop over the blocks, `n` of them.
pub blocks : Words → List ℕ → ℕ → Words
blocks s buf zero = s
blocks s buf (suc n) =
    blocks (add_words s (rounds s sha_k (schedule (block_words buf 16) 16 48))) (drop 64 buf) n

pub word_bytes : ℕ → List ℕ
word_bytes w = w / 2 ^ 24 % 256 ∷ w / 2 ^ 16 % 256 ∷ w / 2 ^ 8 % 256 ∷ w % 256 ∷ []

pub words_bytes : Words → List ℕ
words_bytes s =
    word_bytes s.a
    ++ word_bytes s.b
    ++ word_bytes s.c
    ++ word_bytes s.d
    ++ word_bytes s.e
    ++ word_bytes s.f
    ++ word_bytes s.g
    ++ word_bytes s.h

-- `mem` is whether `kmalloc` returns a buffer.
pub sha256 : Bool → List ℕ → List ℕ
sha256 false msg = replicate 32 0
sha256 true msg = words_bytes (blocks initial (sha_buf msg) (padded_size (length msg + 1) / 64))

abbrev pub hx : List ℕ
hx =
    b'0' ∷ b'1' ∷ b'2' ∷ b'3' ∷ b'4' ∷ b'5' ∷ b'6' ∷ b'7' ∷ b'8' ∷ b'9' ∷ b'a' ∷ b'b' ∷ b'c' ∷ b'd'
    ∷ b'e' ∷ b'f' ∷ []

pub hex_digits : List ℕ → List ℕ
hex_digits [] = []
hex_digits (d ∷ ds) = get_or hx (d / 16) 0 ∷ get_or hx (bit_and d 15) 0 ∷ hex_digits ds

pub sha256_hex : Bool → List ℕ → List ℕ
sha256_hex mem msg = hex_digits (sha256 mem (take (strlen msg) msg)) ++ 0 ∷ []
