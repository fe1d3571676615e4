-- ===== src/Prelude/Bits.antt =====
-- One bit of a byte: the test, the set and the clear that the frame bitmap uses, by table.
use Prim.Native.Nat.{ℕ, zero, suc, ◌-◌, ◌/◌, ◌%◌, ◌^◌, ◌<◌, bit_and, bit_or}
use mathlib.Core.Path.{◌≡◌, refl}
use mathlib.Core.Bool.{Bool, true, ◌&&◌}
use native.Mathlib.Decide.{ℕ_discrete}
use native.Mathlib.Omega.{arith}
use axiome_os.Prelude.Tests.{◌==◌, if◌then◌else◌, ==_iff}

-- Whether a test holds of each of the numbers below a bound: a table that evaluation checks.
unfoldable pub holds_below : (ℕ → Bool) → ℕ → Bool
holds_below test zero = true
holds_below test (suc n) = holds_below test n && test n

pub holds_below-lt :
    (test : ℕ → Bool) (n : ℕ) → holds_below test n ≡ true → (x : ℕ) → x < n → test x ≡ true
unfolding holds_below
holds_below-lt test zero table x lt = elim lt [ ]
holds_below-lt test (suc n) table x lt = elim (ℕ_discrete x n) [
  | yes e ↦ rw e (ground arith)
  | no ne ↦ holds_below-lt test n (ground arith) x (omega arith)
]

-- `(b >> k) & 1`
abbrev pub test_bit : ℕ → ℕ → ℕ
test_bit b k = b / 2 ^ k % 2

-- `(uint8_t)(b | (1 << k))`
abbrev pub set_bit : ℕ → ℕ → ℕ
set_bit b k = bit_or b (2 ^ k) % 256

-- `(uint8_t)(b & ~(1 << k))`, for k below 8
abbrev pub clear_bit : ℕ → ℕ → ℕ
clear_bit b k = bit_and b (255 - 2 ^ k) % 256

test_set_table :
    holds_below
      (λ b.
        holds_below
          (λ k.
            holds_below (λ j. test_bit (set_bit b k) j == (if k == j then 1 else test_bit b j)) 8)
          8)
      256
    ≡ true
unfolding holds_below
test_set_table = refl

test_clear_table :
    holds_below
      (λ b.
        holds_below
          (λ k.
            holds_below (λ j. test_bit (clear_bit b k) j == (if k == j then 0 else test_bit b j)) 8)
          8)
      256
    ≡ true
unfolding holds_below
test_clear_table = refl

pub test-set :
    (b k j : ℕ)
    → b < 256
    → k < 8
    → j < 8
    → test_bit (set_bit b k) j ≡ (if k == j then 1 else test_bit b j)
test-set b k j hb hk hj =
    (==_iff _ _).0
      (holds_below-lt _ 8 (holds_below-lt _ 8 (holds_below-lt _ 256 test_set_table b hb) k hk) j hj)

pub test-clear :
    (b k j : ℕ)
    → b < 256
    → k < 8
    → j < 8
    → test_bit (clear_bit b k) j ≡ (if k == j then 0 else test_bit b j)
test-clear b k j hb hk hj =
    (==_iff _ _).0 (
      holds_below-lt _ 8 (holds_below-lt _ 8 (holds_below-lt _ 256 test_clear_table b hb) k hk) j
        hj)
