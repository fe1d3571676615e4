-- ===== src/Pmm/Free.antt =====
-- `pmm_free_frame` and `pmm_free_frames`.
use axiome_os.Prelude.{
  ℕ, zero, suc, ◌+◌, ◌<◌, ◌/◌, ◌^◌, ◌≡◌, ◌∙◌, inl, inr, true, false, arith, ltb, leb, ◌==◌,
  if◌then◌else◌, Bool-cases, ◌&&◌,
}
use axiome_os.Pmm.{
  Pmm, add64, page_size, bm_test, free_one, free_range, pmm_free_frame, pmm_free_frames,
  pmm_alloc_frame,
}
use axiome_os.Pmm.Count.{IsCounted, bm_test-bm_clear, count_free-bm_clear, count_free-le}
use axiome_os.Pmm.Alloc.{pmm_alloc_frame_lem}

free_one-IsCounted : (p : Pmm) (f : ℕ) → IsCounted p → IsCounted (free_one p f)
unfolding free_one
free_one-IsCounted p f c = elim (Bool-cases (ltb f p.total_frames && bm_test p.bitmap f)) [
  | inl e ↦
      let lt : f < p.total_frames = ground arith in
      let used : bm_test p.bitmap f ≡ true = ground arith in
      rw (e, free_one)
        (record {
          small = c.small;
          counted = omega (
            arith,
            c.counted,
            c.small,
            count_free-bm_clear p.bitmap f p.total_frames lt used,
            count_free-le p.bitmap p.total_frames,
          );
          hint = c.hint;
        })
  | inr e ↦ rw (e, free_one) c
]

-- What freeing one frame does to each bit: the frame's own is cleared if it is in range.
free_one-bits :
    (p : Pmm) (f g : ℕ)
    → bm_test (free_one p f).bitmap g
      ≡ (if f == g && ltb f p.total_frames then false else bm_test p.bitmap g)
unfolding free_one
free_one-bits p f g = ground (arith, bm_test-bm_clear p.bitmap f g)

free_one-count :
    (p : Pmm) (f : ℕ)
    → bm_test p.bitmap f ≡ true
    → f < p.total_frames
    → p.free_frames < 2 ^ 63
    → (free_one p f).free_frames ≡ p.free_frames + 1
unfolding free_one
free_one-count p f used lt small = ground arith

total-free_one : (p : Pmm) (f : ℕ) → (free_one p f).total_frames ≡ p.total_frames
unfolding free_one
total-free_one p f = ground arith

free_range-bits :
    (p : Pmm) (start i n g : ℕ)
    → start + i + n < 2 ^ 64
    → bm_test (free_range p start i n).bitmap g ≡ (
        if leb (start + i) g && (ltb g (start + i + n) && ltb g p.total_frames)
        then false
        else bm_test p.bitmap g)
unfolding free_range
free_range-bits p start i zero g fit = ground arith
free_range-bits p start i (suc n) g fit =
    let e : add64 start i ≡ start + i = omega arith in
    ground (
      arith,
      e,
      free_range-bits (free_one p (add64 start i)) start (i + 1) n g (omega arith),
      free_one-bits p (add64 start i) g,
      total-free_one p (add64 start i),
    )

free_range-IsCounted : (p : Pmm) (start i n : ℕ) → IsCounted p → IsCounted (free_range p start i n)
unfolding free_range
free_range-IsCounted p start i zero c = c
free_range-IsCounted p start i (suc n) c =
    free_range-IsCounted (free_one p (add64 start i)) start (i + 1) n
      (free_one-IsCounted p (add64 start i) c)

-- `pmm_free_frames` of a range that does not run past the 64-bit frame numbers, under the
-- invariant: it clears exactly the bits of the range that lie below `total_frames`, and the
-- invariant holds again, so that a frame freed twice, or never handed out, is not counted twice.
pub pmm_free_frames_lem :
    (p : Pmm) (addr count : ℕ)
    → IsCounted p
    → addr / page_size + count < 2 ^ 64
    → IsCounted (pmm_free_frames p addr count)
      × ((g : ℕ)
          → bm_test (pmm_free_frames p addr count).bitmap g ≡ (
              if leb (addr / page_size) g
                && (ltb g (addr / page_size + count) && ltb g p.total_frames)
              then false
              else bm_test p.bitmap g))
unfolding pmm_free_frames
pmm_free_frames_lem p addr count c fit = (
  free_range-IsCounted p (addr / page_size) 0 count c,
  λ g. ground (arith, free_range-bits p (addr / page_size) 0 count g),
)

-- Giving back the frame that `pmm_alloc_frame` returned, under the invariant and with a free frame
-- to give, restores every frame's bit and the free count.
pub pmm_free_frame-pmm_alloc_frame :
    (p : Pmm)
    → IsCounted p
    → 0 < p.free_frames
    → let (addr, q) = pmm_alloc_frame p in
      ((g : ℕ) → bm_test (pmm_free_frame q addr).bitmap g ≡ bm_test p.bitmap g)
      × ((pmm_free_frame q addr).free_frames ≡ p.free_frames)
unfolding pmm_free_frame
pmm_free_frame-pmm_alloc_frame p c pos =
    let le = count_free-le p.bitmap p.total_frames in
    elim (pmm_alloc_frame_lem p c (omega (arith, c.counted))) [
      | inl (no_more, same) ↦ absurd (omega arith)
      | inr (f, at, took) ↦
          let q = (pmm_alloc_frame p).1 in
          let e : (pmm_alloc_frame p).0 / page_size ≡ f = omega (arith, at) in
          let used : bm_test q.bitmap f ≡ true = ground (arith, took.bits f) in
          rw e (
            λ g.
                ground (
                  arith,
                  took.bits g,
                  took.in_range,
                  took.total,
                  took.was_free,
                  free_one-bits q f g,
                ),
            free_one-count q f used (omega (arith, took.in_range, took.total))
                  (omega (arith, took.one_less, c.counted, c.small))
                ∙ took.one_less,
          )
    ]
