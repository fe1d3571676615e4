-- ===== src/Pmm/Alloc.antt =====
-- `pmm_alloc_frame`: it finds a free frame exactly when there is one, and takes that one alone.
use axiome_os.Prelude.{
  ℕ, zero, suc, ◌+◌, ◌-◌, ◌*◌, ◌≤◌, ◌<◌, ◌%◌, ◌≡◌, ◌⊎◌, refl, inl, inr, true, false, none, some,
  arith, ◌==◌, if◌then◌else◌, Bool-cases, Option-cases,
}
use native.Mathlib.Decide.{dec_le}
use native.Mathlib.Nat.{mod-eq_of_lt, add-mod_right}
use axiome_os.Pmm.{Pmm, add64, page_size, bm_test, find_free, claim, pmm_alloc_frame}
use axiome_os.Pmm.Count.{
  IsCounted, count_free, bm_test-bm_set, count_free-bm_set, count_free-le, count_zero_of_used,
}

-- A hit is a free frame in range.
find_free-some :
    (p : Pmm) (i n f : ℕ)
    → 0 < p.total_frames
    → find_free p i n ≡ some f
    → (f < p.total_frames) × (bm_test p.bitmap f ≡ false)
unfolding find_free
find_free-some p i zero f pos h = ground arith
find_free-some p i (suc n) f pos h = ground (arith, find_free-some p (i + 1) n f pos)

-- A miss means that the frames probed are all used.
find_free-none :
    (p : Pmm) (i n j : ℕ)
    → find_free p i n ≡ none
    → i ≤ j
    → j < i + n
    → bm_test p.bitmap (add64 p.next_hint j % p.total_frames) ≡ true
unfolding find_free
find_free-none p i zero j h lo hi = absurd (omega arith)
find_free-none p i (suc n) j h lo hi = elim (Bool-cases (i == j)) [
  | inl e ↦ ground arith
  | inr e ↦ ground (arith, find_free-none p (i + 1) n j)
]

-- The probes of a whole round visit every frame.
probe :
    (p : Pmm) (g : ℕ)
    → IsCounted p
    → g < p.total_frames
    → (j : ℕ) × (j < p.total_frames) × (add64 p.next_hint j % p.total_frames ≡ g)
probe p g c lt = elim (dec_le p.next_hint g) [
  | yes le ↦ (
    g - p.next_hint,
    omega arith,
    let e : add64 p.next_hint (g - p.next_hint) ≡ g = omega (arith, c.small) in
        rw e (mod-eq_of_lt lt),
  )
  | no gt ↦ (
    g + p.total_frames - p.next_hint,
    omega (arith, c.hint),
    let e : add64 p.next_hint (g + p.total_frames - p.next_hint) ≡ g + p.total_frames =
          omega (arith, c.small, c.hint) in
        rw (e, add-mod_right) (mod-eq_of_lt lt),
  )
]

find_free_complete :
    (p : Pmm)
    → IsCounted p
    → find_free p 0 p.total_frames ≡ none
    → count_free p.bitmap p.total_frames ≡ 0
find_free_complete p c h = count_zero_of_used p.bitmap p.total_frames λ g lt.
    let (j, hj, e) = probe p g c lt in
    rw (← e) (find_free-none p 0 p.total_frames j h (omega arith) (omega arith))

-- What a successful allocation of frame `idx` did to the state.
pub record Took (p : Pmm) (idx : ℕ) (q : Pmm) : Type 0 where
  pub in_range : idx < p.total_frames
  pub was_free : bm_test p.bitmap idx ≡ false
  pub bits : (g : ℕ) → bm_test q.bitmap g ≡ (if idx == g then true else bm_test p.bitmap g)
  pub total : q.total_frames ≡ p.total_frames
  pub one_less : q.free_frames + 1 ≡ p.free_frames

claim-Took :
    (p : Pmm) (idx : ℕ)
    → IsCounted p
    → idx < p.total_frames
    → bm_test p.bitmap idx ≡ false
    → Took p idx (claim p idx)
unfolding claim
claim-Took p idx c lt free = record {
  in_range = lt;
  was_free = free;
  bits = bm_test-bm_set p.bitmap idx;
  total = refl;
  one_less = omega (
    arith,
    c.counted,
    c.small,
    count_free-bm_set p.bitmap idx p.total_frames lt free,
    count_free-le p.bitmap p.total_frames,
  );
}

-- `pmm_alloc_frame` on a machine with memory, where the free count is that of the free frames and the
-- number of frames is bounded (the invariant): when no frame is free it returns 0 and changes
-- nothing; otherwise it returns the address of a frame that was free, sets that frame's bit and no
-- other, and takes one from the free count.
pub pmm_alloc_frame_lem :
    (p : Pmm)
    → IsCounted p
    → 0 < p.total_frames
    → ((p.free_frames ≡ 0) × (pmm_alloc_frame p ≡ (0, p)))
      ⊎ ((idx : ℕ) × ((pmm_alloc_frame p).0 ≡ idx * page_size) × Took p idx (pmm_alloc_frame p).1)
unfolding pmm_alloc_frame
pmm_alloc_frame_lem p c pos = elim (Option-cases (find_free p 0 p.total_frames)) [
  | inl e ↦ inl (omega (arith, c.counted, find_free_complete p c e), rw (e, pmm_alloc_frame) refl)
  | inr (f, e) ↦
      rw (e, pmm_alloc_frame)
        (let (lt, free) = find_free-some p 0 p.total_frames f pos e in
          inr (f, omega (arith, c.small), claim-Took p f c lt free))
]

-- `pmm_alloc_frame` keeps the invariant: the counter still says how many bits are clear.
pub pmm_alloc_frame-IsCounted :
    (p : Pmm) → IsCounted p → 0 < p.total_frames → IsCounted (pmm_alloc_frame p).1
unfolding pmm_alloc_frame claim
pmm_alloc_frame-IsCounted p c pos = elim (Option-cases (find_free p 0 p.total_frames)) [
  | inl e ↦ rw (e, pmm_alloc_frame) c
  | inr (f, e) ↦
      rw (e, pmm_alloc_frame)
        (let (lt, free) = find_free-some p 0 p.total_frames f pos e in
          record {
            small = c.small;
            counted = omega (
              arith,
              c.counted,
              c.small,
              count_free-bm_set p.bitmap f p.total_frames lt free,
              count_free-le p.bitmap p.total_frames,
            );
            hint = omega (arith, c.small);
          })
]
