-- ===== src/Net/Csum.antt =====
-- kernel/net_util.h: byte order, the Internet checksum and its variant in pieces, and addresses.
pub mod Laws
use axiome_os.Prelude.{
  ℕ, zero, suc, ◌+◌, ◌-◌, ◌*◌, ◌/◌, ◌%◌, ◌^◌, Bool, true, false, ◌&&◌, List, [], ◌∷◌, bit_and,
  bit_or, ltb, ◌==◌, if◌then◌else◌, get_or,
}

unfoldable pub htobe16 : ℕ → ℕ
htobe16 v = bit_or (v / 2 ^ 8) (v * 2 ^ 8) % 2 ^ 16

unfoldable pub htobe32 : ℕ → ℕ
htobe32 v =
    bit_or
      (bit_or (bit_or (bit_and (v / 2 ^ 24) 0xFF) (bit_and (v / 2 ^ 8) 0xFF00))
        (bit_and (v * 2 ^ 8 % 2 ^ 32) 0xFF0000))
      (bit_and (v * 2 ^ 24 % 2 ^ 32) 0xFF000000)

-- `while (sum >> 16) sum = (sum & 0xFFFF) + (sum >> 16)`, on fuel.
pub fold_loop : ℕ → ℕ → ℕ
fold_loop zero sum = sum
fold_loop (suc n) sum =
    let rest = fold_loop n (sum % 2 ^ 16 + sum / 2 ^ 16) in if sum / 2 ^ 16 == 0 then sum else rest

-- The loop over the bytes; `p` is read as little-endian words.
pub sum_words : ℕ → List ℕ → ℕ
sum_words sum [] = sum
sum_words sum (a ∷ []) = (sum + a) % 2 ^ 32
sum_words sum (a ∷ b ∷ p) = sum_words ((sum + (a + 2 ^ 8 * b)) % 2 ^ 32) p

-- Two rounds are enough for 32 bits.
pub inet_csum : List ℕ → ℕ
inet_csum p = 0xFFFF - fold_loop 2 (sum_words 0 p) % 2 ^ 16

pub csum_acc : ℕ → List ℕ → ℕ
csum_acc sum [] = sum
csum_acc sum (a ∷ []) = (sum + a) % 2 ^ 32
csum_acc sum (a ∷ b ∷ p) =
    let next = (sum + (a + 2 ^ 8 * b)) % 2 ^ 32 in
    csum_acc (if ltb 0xFFFF next then next % 2 ^ 16 + next / 2 ^ 16 else next) p

pub csum_fold : ℕ → ℕ
csum_fold sum = fold_loop 2 sum % 2 ^ 16

pub csum_finish : ℕ → ℕ
csum_finish sum = 0xFFFF - csum_fold sum
