-- ===== src/Security/Sha/Laws.antt =====
-- The sizes of the hash's buffer and of its result.
use axiome_os.Prelude.{
  ℕ, zero, suc, ◌+◌, ◌-◌, ◌*◌, ◌/◌, ◌%◌, ◌^◌, ◌≤◌, ◌<◌, ◌≡◌, refl, ◌∙◌, Bool, true, false, ◌&&◌,
  List, [], ◌∷◌, ◌++◌, arith, ltb, ◌==◌, length, length-append, replicate, length-replicate, take,
  bit_and, get_or, not,
}
use axiome_os.KString.Laws.{c_str}
use axiome_os.Prelude.Bits.{holds_below, holds_below-lt}
use axiome_os.KString.{strlen}
use axiome_os.Security.Sha.{
  padded_size, length_bytes, sha_buf, Words, words_bytes, word_bytes, sha256, hex_digits,
  sha256_hex, blocks, hx, rounds, schedule, round, block_words, add_words, sha_k, sha_rotr,
}

padded_size-room :
    (len : ℕ)
    → (padded_size (len + 1) % 64 ≡ 0)
      × (len + 9 ≤ padded_size (len + 1))
      × (padded_size (len + 1) < len + 9 + 64)
unfolding padded_size
padded_size-room len = ground arith

length-length_bytes : (b n : ℕ) → length (length_bytes b n) ≡ n
unfolding length_bytes
length-length_bytes b zero = refl
length-length_bytes b (suc n) = ground (arith, length-length_bytes b n)

-- For each message: the padded size is the least multiple of 64 that has room for the message, the
-- byte 0x80 and the eight bytes of the length, and the buffer that the loops fill has that size.
pub sha_buf-padded_size :
    (msg : List ℕ)
    → (padded_size (length msg + 1) % 64 ≡ 0)
      × (length msg + 9 ≤ padded_size (length msg + 1))
      × (padded_size (length msg + 1) < length msg + 9 + 64)
      × (length (sha_buf msg) ≡ padded_size (length msg + 1))
unfolding sha_buf
sha_buf-padded_size msg =
    let len = length msg in
    let p = padded_size (len + 1) in
    let r = padded_size-room len in
    let n = p - 8 - (len + 1) in
    let tail = length_bytes (len * 8 % 2 ^ 64) 8 in
    (
      r.0,
      r.1,
      r.2,
      length-append msg (0x80 ∷ (replicate n 0 ++ tail))
          ∙ omega (
            arith,
            r.1,
            length-append (replicate n 0) tail,
            length-replicate {A = ℕ} n 0,
            length-length_bytes (len * 8 % 2 ^ 64) 8,
          ),
    )

length-words_bytes : (s : Words) → length (words_bytes s) ≡ 32
unfolding words_bytes word_bytes
length-words_bytes s = refl

pub length-sha256 : (mem : Bool) (msg : List ℕ) → length (sha256 mem msg) ≡ 32
unfolding sha256
length-sha256 false msg = refl
length-sha256 true msg = length-words_bytes _

length-hex_digits : (ds : List ℕ) → length (hex_digits ds) ≡ 2 * length ds
unfolding hex_digits
length-hex_digits [] = refl
length-hex_digits (d ∷ ds) = omega (arith, length-hex_digits ds)

pub length-sha256_hex : (mem : Bool) (msg : List ℕ) → length (sha256_hex mem msg) ≡ 65
unfolding sha256_hex
length-sha256_hex mem msg = omega (
  arith,
  length-append (hex_digits (sha256 mem (take (strlen msg) msg))) (0 ∷ []),
  length-hex_digits (sha256 mem (take (strlen msg) msg)),
  length-sha256 mem (take (strlen msg) msg),
)

all_bytes : List ℕ → Bool
all_bytes [] = true
all_bytes (b ∷ bs) = ltb b 256 && all_bytes bs

all_bytes-append :
    (bs cs : List ℕ) → all_bytes bs ≡ true → all_bytes cs ≡ true → all_bytes (bs ++ cs) ≡ true
unfolding all_bytes
all_bytes-append [] cs h k = k
all_bytes-append (b ∷ bs) cs h k = ground (arith, all_bytes-append bs cs)

all_bytes-word_bytes : (w : ℕ) → all_bytes (word_bytes w) ≡ true
unfolding all_bytes word_bytes
all_bytes-word_bytes w = ground arith

all_bytes-word_append :
    (w : ℕ) (bs : List ℕ) → all_bytes bs ≡ true → all_bytes (word_bytes w ++ bs) ≡ true
all_bytes-word_append w bs h = all_bytes-append (word_bytes w) bs (all_bytes-word_bytes w) h

all_bytes-words_bytes : (s : Words) → all_bytes (words_bytes s) ≡ true
unfolding words_bytes word_bytes
all_bytes-words_bytes s = all_bytes-word_append s.a _ (
    all_bytes-word_append s.b _ (
      all_bytes-word_append s.c _ (
        all_bytes-word_append s.d _ (
          all_bytes-word_append s.e _ (
            all_bytes-word_append s.f _
              (all_bytes-word_append s.g _ (all_bytes-word_bytes s.h)))))))

all_bytes-sha256 : (mem : Bool) (msg : List ℕ) → all_bytes (sha256 mem msg) ≡ true
unfolding all_bytes sha256
all_bytes-sha256 false msg = refl
all_bytes-sha256 true msg = all_bytes-words_bytes _

digit_nonzero :
    holds_below (λ b. not (get_or hx (b / 16) 0 == 0) && not (get_or hx (bit_and b 15) 0 == 0)) 256
    ≡ true
unfolding holds_below
digit_nonzero = refl

byte_head : (b : ℕ) (bs : List ℕ) → all_bytes (b ∷ bs) ≡ true → b < 256
unfolding all_bytes
byte_head b bs h = ground arith

byte_tail : (b : ℕ) (bs : List ℕ) → all_bytes (b ∷ bs) ≡ true → all_bytes bs ≡ true
unfolding all_bytes
byte_tail b bs h = ground arith

c_str-hex_digits :
    (ds : List ℕ) → all_bytes ds ≡ true → c_str (hex_digits ds ++ 0 ∷ []) ≡ hex_digits ds
unfolding c_str hex_digits all_bytes
c_str-hex_digits [] h = refl
c_str-hex_digits (d ∷ ds) h =
    let nz = holds_below-lt _ 256 digit_nonzero d (byte_head d ds h) in
    let ih = c_str-hex_digits ds (byte_tail d ds h) in ground (arith, nz, ih)

-- The hash in hexadecimal is a string of 64 characters.
pub length-c_str-sha256_hex : (mem : Bool) (msg : List ℕ) → length (c_str (sha256_hex mem msg)) ≡ 64
unfolding sha256_hex
length-c_str-sha256_hex mem msg =
    let m = take (strlen msg) msg in
    rw (c_str-hex_digits (sha256 mem m) (all_bytes-sha256 mem m))
      (omega (arith, length-hex_digits (sha256 mem m), length-sha256 mem m))

-- The digest of "abc" of FIPS 180-4.
sha256_abc :
    take 8 (sha256_hex true (b'a' ∷ b'b' ∷ b'c' ∷ []))
    ≡ b'b' ∷ b'a' ∷ b'7' ∷ b'8' ∷ b'1' ∷ b'6' ∷ b'b' ∷ b'f' ∷ []
unfolding sha256_hex hex_digits sha256 blocks rounds schedule round block_words sha_buf padded_size
    length_bytes words_bytes word_bytes add_words sha_k sha_rotr strlen
sha256_abc = refl
