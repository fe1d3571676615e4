-- ===== src/Pmm/Count.antt =====
-- What a write to the bitmap does to each frame's bit and to the number of free frames.
use axiome_os.Prelude.{
  ℕ, zero, suc, ◌+◌, ◌≤◌, ◌<◌, ◌^◌, ◌%◌, ◌/◌, ◌≡◌, refl, inl, inr, true, false, arith, ◌==◌,
  if◌then◌else◌, Bool-cases,
}
use axiome_os.Prelude.Bits.{test-set, test-clear}
use axiome_os.Pmm.{Pmm, Bitmap, bm_set, bm_clear, bm_test}

pub bm_test-bm_set :
    (b : Bitmap) (f g : ℕ) → bm_test (bm_set b f) g ≡ (if f == g then true else bm_test b g)
unfolding bm_test bm_set
bm_test-bm_set b f g =
    ground
      (arith, test-set (b (f / 8) % 256) (f % 8) (g % 8) (omega arith) (omega arith) (omega arith))

pub bm_test-bm_clear :
    (b : Bitmap) (f g : ℕ) → bm_test (bm_clear b f) g ≡ (if f == g then false else bm_test b g)
unfolding bm_test bm_clear
bm_test-bm_clear b f g =
    ground (
      arith,
      test-clear (b (f / 8) % 256) (f % 8) (g % 8) (omega arith) (omega arith) (omega arith),
    )

-- The number of free frames below `n`.
unfoldable pub count_free : Bitmap → ℕ → ℕ
count_free b zero = 0
count_free b (suc n) = if bm_test b n then count_free b n else suc (count_free b n)

pub count_free-le : (b : Bitmap) (n : ℕ) → count_free b n ≤ n
unfolding count_free
count_free-le b zero = omega arith
count_free-le b (suc n) = ground (arith, count_free-le b n)

-- Only the bits below `n` count.
pub count_free-eq :
    (b c : Bitmap) (n : ℕ)
    → ((g : ℕ) → g < n → bm_test b g ≡ bm_test c g)
    → count_free b n ≡ count_free c n
unfolding count_free
count_free-eq b c zero h = refl
count_free-eq b c (suc n) h =
    ground (arith, h n (omega arith), count_free-eq b c n (λ g lt. h g (omega arith)))

-- Setting the bit of a free frame takes one from the count.
pub count_free-bm_set :
    (b : Bitmap) (f n : ℕ)
    → f < n
    → bm_test b f ≡ false
    → count_free (bm_set b f) n + 1 ≡ count_free b n
unfolding count_free
count_free-bm_set b f zero lt free = absurd (omega arith)
count_free-bm_set b f (suc n) lt free = elim (Bool-cases (f == n)) [
  | inl e ↦ ground (
    arith,
    bm_test-bm_set b f n,
    count_free-eq (bm_set b f) b n (λ g h. ground (arith, bm_test-bm_set b f g)),
  )
  | inr e ↦ ground (arith, bm_test-bm_set b f n, count_free-bm_set b f n (ground arith) free)
]

-- Clearing the bit of a used frame adds one to it.
pub count_free-bm_clear :
    (b : Bitmap) (f n : ℕ)
    → f < n
    → bm_test b f ≡ true
    → count_free (bm_clear b f) n ≡ count_free b n + 1
unfolding count_free
count_free-bm_clear b f zero lt used = absurd (omega arith)
count_free-bm_clear b f (suc n) lt used = elim (Bool-cases (f == n)) [
  | inl e ↦ ground (
    arith,
    bm_test-bm_clear b f n,
    count_free-eq (bm_clear b f) b n (λ g h. ground (arith, bm_test-bm_clear b f g)),
  )
  | inr e ↦ ground (arith, bm_test-bm_clear b f n, count_free-bm_clear b f n (ground arith) used)
]

-- The allocator's invariant: `free_frames` is the number of clear bits below `total_frames`, and
-- the hint stays in range. A 64-bit machine has at most 2^52 frames.
pub record IsCounted (p : Pmm) : Type 0 where
  pub small : p.total_frames ≤ 2 ^ 52
  pub counted : p.free_frames ≡ count_free p.bitmap p.total_frames
  pub hint : p.next_hint ≤ p.total_frames

-- With no free frame below `n`, every bit below it is set.
pub used_of_count_zero : (b : Bitmap) (n g : ℕ) → count_free b n ≡ 0 → g < n → bm_test b g ≡ true
unfolding count_free
used_of_count_zero b zero g h lt = absurd (omega arith)
used_of_count_zero b (suc n) g h lt = elim (Bool-cases (g == n)) [
  | inl e ↦ ground arith
  | inr e ↦ ground (arith, used_of_count_zero b n g)
]

-- With every bit below `n` set, no frame below it is free.
pub count_zero_of_used :
    (b : Bitmap) (n : ℕ) → ((g : ℕ) → g < n → bm_test b g ≡ true) → count_free b n ≡ 0
unfolding count_free
count_zero_of_used b zero h = refl
count_zero_of_used b (suc n) h =
    ground (arith, h n (omega arith), count_zero_of_used b n (λ g lt. h g (omega arith)))
