-- ===== src/Pmm/Init/Marks.antt =====
-- Which frames `mark_used` and `mark_free` touch, and how the count follows.
use axiome_os.Prelude.{
  ℕ, zero, suc, ◌+◌, ◌-◌, ◌≤◌, ◌<◌, ◌≡◌, ◌⊎◌, refl, inl, inr, true, false, arith, ltb, leb,
  if◌then◌else◌, Bool-cases, ◌&&◌,
}
use axiome_os.Pmm.{Pmm, add64, bm_set, bm_test}
use axiome_os.Pmm.Init.{
  for_frames, mark_used_one, mark_free_one, mark_used, mark_free, first_frame, end_frame,
  take_frame_zero,
}
use axiome_os.Pmm.Count.{
  IsCounted, count_free, bm_test-bm_set, bm_test-bm_clear, count_free-bm_set, count_free-bm_clear,
  count_free-le, count_free-eq,
}

for_frames-used :
    (i n g : ℕ) (p : Pmm)
    → bm_test (for_frames mark_used_one i n p).bitmap g
      ≡ (if leb i g && ltb g (i + n) then true else bm_test p.bitmap g)
unfolding mark_used
for_frames-used i zero g p = ground arith
for_frames-used i (suc n) g p =
    ground (arith, for_frames-used (i + 1) n g (mark_used_one p i), bm_test-bm_set p.bitmap i g)

for_frames-free :
    (i n g : ℕ) (p : Pmm)
    → bm_test (for_frames mark_free_one i n p).bitmap g
      ≡ (if leb i g && ltb g (i + n) then false else bm_test p.bitmap g)
unfolding mark_free
for_frames-free i zero g p = ground arith
for_frames-free i (suc n) g p =
    ground (arith, for_frames-free (i + 1) n g (mark_free_one p i), bm_test-bm_clear p.bitmap i g)

mark_used_one-IsCounted :
    (p : Pmm) (i : ℕ)
    → IsCounted p
    → i < p.total_frames
    → IsCounted (mark_used_one p i) × ((mark_used_one p i).total_frames ≡ p.total_frames)
unfolding mark_used
mark_used_one-IsCounted p i c lt = elim (Bool-cases (bm_test p.bitmap i)) [
  | inl e ↦ rw (e, mark_used_one) (c, refl)
  | inr e ↦
      rw (e, mark_used_one)
        (
          record {
            small = c.small;
            counted = omega (
              arith,
              c.counted,
              c.small,
              count_free-bm_set p.bitmap i p.total_frames lt e,
              count_free-le p.bitmap p.total_frames,
            );
            hint = c.hint;
          },
          refl,
        )
]

mark_free_one-IsCounted :
    (p : Pmm) (i : ℕ)
    → IsCounted p
    → i < p.total_frames
    → IsCounted (mark_free_one p i) × ((mark_free_one p i).total_frames ≡ p.total_frames)
unfolding mark_free
mark_free_one-IsCounted p i c lt = elim (Bool-cases (bm_test p.bitmap i)) [
  | inl e ↦
      rw (e, mark_free_one)
        (
          record {
            small = c.small;
            counted = omega (
              arith,
              c.counted,
              c.small,
              count_free-bm_clear p.bitmap i p.total_frames lt e,
              count_free-le p.bitmap p.total_frames,
            );
            hint = c.hint;
          },
          refl,
        )
  | inr e ↦ rw (e, mark_free_one) (c, refl)
]

-- A loop over frames below `total_frames` keeps what each round keeps.
for_frames-IsCounted :
    (step : Pmm → ℕ → Pmm)
    → ((p : Pmm) (i : ℕ)
        → IsCounted p
        → i < p.total_frames
        → IsCounted (step p i) × ((step p i).total_frames ≡ p.total_frames))
    → (i n : ℕ) (p : Pmm) → IsCounted p
    → (0 < n → i + n ≤ p.total_frames)
    → IsCounted (for_frames step i n p)
unfolding for_frames
for_frames-IsCounted step keep i zero p c fit = c
for_frames-IsCounted step keep i (suc n) p c fit =
    let (c', e) = keep p i c (omega (arith, fit (omega arith))) in
    for_frames-IsCounted step keep (i + 1) n (step p i) c'
      (λ h. omega (arith, e, fit (omega arith)))

-- `mark_used` sets exactly the bits from the range's start, rounded up to a frame, to its end,
-- rounded down, and `mark_free` clears exactly those.
pub mark_used-mark_free :
    (base len g : ℕ) (p : Pmm)
    → (bm_test (mark_used base len p).bitmap g ≡ (
        if leb (first_frame base) g && ltb g (end_frame base len)
        then true
        else bm_test p.bitmap g))
      × (bm_test (mark_free base len p).bitmap g ≡ (
          if leb (first_frame base) g && ltb g (end_frame base len)
          then false
          else bm_test p.bitmap g))
unfolding mark_used mark_free
mark_used-mark_free base len g p =
    let n = end_frame base len - first_frame base in
    (
      ground (arith, for_frames-used (first_frame base) n g p),
      ground (arith, for_frames-free (first_frame base) n g p),
    )

-- Of a range that ends within `total_frames`, `mark_used` and `mark_free` keep the invariant: the
-- free count moves by the number of bits that changed.
pub mark-IsCounted :
    (base len : ℕ) (p : Pmm)
    → IsCounted p
    → end_frame base len ≤ p.total_frames
    → IsCounted (mark_used base len p) × IsCounted (mark_free base len p)
unfolding mark_used mark_free
mark-IsCounted base len p c fit =
    let n = end_frame base len - first_frame base in
    (
      for_frames-IsCounted mark_used_one mark_used_one-IsCounted (first_frame base) n p c
          (λ h. omega arith),
      for_frames-IsCounted mark_free_one mark_free_one-IsCounted (first_frame base) n p c
          (λ h. omega arith),
    )

-- `bm_set(0); free_frames--;` at the end of `pmm_init`, under the invariant and with memory: where
-- frame 0 is still free the invariant holds again, and where it is used already the counter ends
-- up one short of the free frames (modulo 2^64).
pub take_frame_zero_lem :
    (p : Pmm)
    → IsCounted p
    → 0 < p.total_frames
    → ((bm_test p.bitmap 0 ≡ false) × IsCounted (take_frame_zero p))
      ⊎ ((bm_test p.bitmap 0 ≡ true)
          × (add64 (take_frame_zero p).free_frames 1
              ≡ count_free (take_frame_zero p).bitmap p.total_frames))
unfolding take_frame_zero
take_frame_zero_lem p c pos =
    let le = count_free-le p.bitmap p.total_frames in
    elim (Bool-cases (bm_test p.bitmap 0)) [
      | inr e ↦ inl (
        e,
        record {
          small = c.small;
          counted =
              omega (arith, c.counted, c.small, count_free-bm_set p.bitmap 0 p.total_frames pos e);
          hint = c.hint;
        },
      )
      | inl e ↦ inr (
        e,
        omega (
          arith,
          c.counted,
          c.small,
          count_free-eq (bm_set p.bitmap 0) p.bitmap p.total_frames
              (λ g lt. ground (arith, bm_test-bm_set p.bitmap 0 g)),
        ),
      )
    ]
