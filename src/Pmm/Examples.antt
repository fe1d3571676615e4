-- ===== src/Pmm/Examples.antt =====
-- kernel/pmm.c at a machine of eight frames, of which 0 and 2 are used, and the theorems there.
use axiome_os.Prelude.{
  ℕ, ◌+◌, ◌*◌, ◌/◌, ◌≤◌, ◌≡◌, ◌⊎◌, refl, false, arith, ltb, leb, if◌then◌else◌, ◌&&◌,
}
use axiome_os.Pmm.{
  Pmm, Bitmap, page_size, bm_test, pmm_alloc_frame, pmm_alloc_frames, pmm_free_frame,
  pmm_free_frames, skip_used, run_length,
}
use axiome_os.Pmm.Count.{IsCounted, count_free}
use axiome_os.Pmm.Alloc.{Took, pmm_alloc_frame_lem}
use axiome_os.Pmm.Runs.{FreeRun, TookRun, pmm_alloc_frames_lem}
use axiome_os.Pmm.Free.{pmm_free_frames_lem, pmm_free_frame-pmm_alloc_frame}

abbrev memory : Bitmap
memory i = 5

abbrev eight : Pmm
eight = record { bitmap = memory; total_frames = 8; free_frames = 6; next_hint = 2 }

eight-IsCounted : IsCounted eight
unfolding count_free bm_test
eight-IsCounted = record { small = omega arith; counted = refl; hint = omega arith }

-- The hint's frame is used: the search goes on to the next one.
alloc_skips_used : (pmm_alloc_frame eight).0 ≡ 3 * page_size
unfolding pmm_alloc_frame bm_test
alloc_skips_used = refl

-- Frame 1 alone is too short a run for two.
alloc_two : (pmm_alloc_frames eight 2).0 ≡ 3 * page_size
unfolding pmm_alloc_frames skip_used run_length bm_test
alloc_two = refl

alloc_too_many : (pmm_alloc_frames eight 6).0 ≡ 0
unfolding pmm_alloc_frames skip_used run_length bm_test
alloc_too_many = refl

pmm_alloc_frame_lem_example :
    ((eight.free_frames ≡ 0) × (pmm_alloc_frame eight ≡ (0, eight)))
    ⊎ ((idx : ℕ) × ((pmm_alloc_frame eight).0 ≡ idx * page_size)
        × Took eight idx (pmm_alloc_frame eight).1)
pmm_alloc_frame_lem_example = pmm_alloc_frame_lem eight eight-IsCounted (omega arith)

pmm_alloc_frames_lem_example :
    ((pmm_alloc_frames eight 2 ≡ (0, eight)) × ¬ ((s : ℕ) × (s + 2 ≤ 8) × FreeRun memory s 2))
    ⊎ ((s : ℕ) × ((pmm_alloc_frames eight 2).0 ≡ s * page_size)
        × TookRun eight s 2 (pmm_alloc_frames eight 2).1
        × IsCounted (pmm_alloc_frames eight 2).1)
pmm_alloc_frames_lem_example =
    pmm_alloc_frames_lem eight 2 eight-IsCounted (omega arith) (omega arith)

pmm_free_frames_lem_example :
    IsCounted (pmm_free_frames eight 0x2000 100)
    × ((g : ℕ)
        → bm_test (pmm_free_frames eight 0x2000 100).bitmap g ≡ (
            if leb (0x2000 / page_size) g && (ltb g (0x2000 / page_size + 100) && ltb g 8)
            then false
            else bm_test memory g))
pmm_free_frames_lem_example = pmm_free_frames_lem eight 0x2000 100 eight-IsCounted (omega arith)

pmm_free_frame-pmm_alloc_frame_example :
    let (addr, q) = pmm_alloc_frame eight in
    ((g : ℕ) → bm_test (pmm_free_frame q addr).bitmap g ≡ bm_test memory g)
    × ((pmm_free_frame q addr).free_frames ≡ 6)
pmm_free_frame-pmm_alloc_frame_example =
    pmm_free_frame-pmm_alloc_frame eight eight-IsCounted (omega arith)
