-- ===== src/Pmm/Runs.antt =====
-- `pmm_alloc_frames`: first fit over runs of free frames.
use axiome_os.Prelude.{
  ℕ, zero, suc, ◌+◌, ◌-◌, ◌*◌, ◌≤◌, ◌<◌, ◌^◌, ◌≡◌, ◌⊎◌, refl, inl, inr, true, false, none, some,
  arith, ltb, leb, ◌==◌, if◌then◌else◌, Bool-cases, Option-cases, ◌&&◌,
}
use native.Mathlib.Decide.{dec_lt, dec_le}
use axiome_os.Pmm.{
  Pmm, Bitmap, add64, sub64, page_size, bm_set, bm_test, skip_used, run_length, find_run, set_run,
  pmm_alloc_frames,
}
use axiome_os.Pmm.Count.{IsCounted, count_free, bm_test-bm_set, count_free-bm_set, count_free-le}

-- `n` frames from `s` on are free.
abbrev pub FreeRun : Bitmap → ℕ → ℕ → Type 0
FreeRun b s n = (g : ℕ) → s ≤ g → g < s + n → bm_test b g ≡ false

-- Some frame of the `n` from `s` on is used.
abbrev pub Broken : Bitmap → ℕ → ℕ → Type 0
Broken b s n = (g : ℕ) × (s ≤ g) × (g < s + n) × (bm_test b g ≡ true)

-- Where the skip stops, and what it passed over.
record Skipped (b : Bitmap) (s n at : ℕ) : Type 0 where
  low : s ≤ at
  high : at ≤ s + n
  passed : (g : ℕ) → s ≤ g → g < at → bm_test b g ≡ true

skip_used-Skipped : (b : Bitmap) (s n : ℕ) → Skipped b s n (skip_used b s n)
unfolding skip_used
skip_used-Skipped b s zero = record {
  low = omega arith;
  high = omega arith;
  passed = λ g lo hi. absurd (omega arith);
}
skip_used-Skipped b s (suc n) = elim (Bool-cases (bm_test b s)) [
  | inl e ↦
      let r = skip_used-Skipped b (s + 1) n in
      rw (e, skip_used)
        (record {
          low = omega (arith, r.low);
          high = omega (arith, r.high);
          passed = λ g lo hi. elim (Bool-cases (s == g)) [
            | inl q ↦ ground arith
            | inr q ↦ r.passed g (ground arith) hi
          ];
        })
  | inr e ↦
      rw (e, skip_used)
        (record { low = omega arith; high = omega arith; passed = λ g lo hi. absurd (omega arith) })
]

-- What the run's length says: that many free frames, and a used one where it fell short.
record Measured (b : Bitmap) (s n len : ℕ) : Type 0 where
  short : len ≤ n
  free : FreeRun b s len
  stop : len < n → bm_test b (s + len) ≡ true

run_length-Measured : (b : Bitmap) (s n : ℕ) → Measured b s n (run_length b s n)
unfolding run_length
run_length-Measured b s zero = record {
  short = omega arith;
  free = λ g lo hi. absurd (omega arith);
  stop = λ h. absurd (omega arith);
}
run_length-Measured b s (suc n) = elim (Bool-cases (bm_test b s)) [
  | inl e ↦
      rw (e, run_length)
        (record {
          short = omega arith;
          free = λ g lo hi. absurd (omega arith);
          stop = λ h. ground arith;
        })
  | inr e ↦
      let r = run_length-Measured b (s + 1) n in
      rw (e, run_length)
        (record {
          short = omega (arith, r.short);
          free = λ g lo hi. elim (Bool-cases (s == g)) [
            | inl q ↦ ground arith
            | inr q ↦ r.free g (ground arith) (omega arith)
          ];
          stop = λ h. ground (arith, r.stop (omega arith));
        })
]

-- The bound of the inner loop: what is left, or `count`.
abbrev bound : ℕ → ℕ → ℕ → ℕ
bound total at count = if ltb (total - at) count then total - at else count

module _ (b : Bitmap) (total count : ℕ) (small : total ≤ 2 ^ 52) (size : count < 2 ^ 63) where
  find_run-some :
      (fuel start s : ℕ)
      → start ≤ total
      → find_run b total count fuel start ≡ some s
      → (s + count ≤ total) × FreeRun b s count
  unfolding find_run
  find_run-some zero start s low h = absurd (cc)
  find_run-some (suc fuel) start s low h =
      let at = skip_used b start (total - start) in
      let k = skip_used-Skipped b start (total - start) in
      let m = run_length-Measured b at (bound total at count) in
      elim (Bool-cases (leb count (run_length b at (bound total at count)))) [
        | inl e ↦
            let q : (s ≡ at) × (at + count ≤ total) = ground (arith, k.high, k.low, m.short) in
            (omega (arith, q), λ g lo hi. m.free g (omega (arith, q)) (ground (arith, q)))
        | inr e ↦
            find_run-some fuel (add64 at (add64 (run_length b at (bound total at count)) 1)) s
              (ground (arith, k.high, k.low, m.short)) (ground (arith, k.high, k.low, m.short))
      ]

  find_run-none :
      (fuel start : ℕ)
      → start ≤ total
      → total < start + fuel
      → find_run b total count fuel start ≡ none
      → (s : ℕ) → start ≤ s
      → s + count ≤ total
      → 0 < count
      → Broken b s count
  unfolding find_run
  find_run-none zero start low enough h s lo hi pos = absurd (omega arith)
  find_run-none (suc fuel) start low enough h s lo hi pos =
      let at = skip_used b start (total - start) in
      let k = skip_used-Skipped b start (total - start) in
      let run = run_length b at (bound total at count) in
      let m = run_length-Measured b at (bound total at count) in
      elim (dec_lt s at) [
        | yes before ↦ (s, omega arith, omega arith, k.passed s lo before)
        | no after ↦
            let less : run < count = ground (arith, k.high, k.low, m.short) in
            let used : bm_test b (at + run) ≡ true = m.stop (ground arith) in
            let next : add64 at (add64 run 1) ≡ at + run + 1 =
              omega (arith, k.high, m.short, small) in
            elim (dec_le s (at + run)) [
              | yes inside ↦ (at + run, omega arith, omega arith, used)
              | no beyond ↦
                  find_run-none fuel (add64 at (add64 run 1)) (omega (arith, next))
                    (omega (arith, next, k.low)) (ground (arith, k.high, k.low)) s
                    (omega (arith, next)) hi pos
            ]
      ]

bm_test-set_run :
    (b : Bitmap) (s n g : ℕ)
    → bm_test (set_run b s n) g ≡ (if leb s g && ltb g (s + n) then true else bm_test b g)
unfolding set_run
bm_test-set_run b s zero g = ground arith
bm_test-set_run b s (suc n) g =
    ground (arith, bm_test-set_run (bm_set b s) (s + 1) n g, bm_test-bm_set b s g)

count_free-set_run :
    (b : Bitmap) (total s n : ℕ)
    → s + n ≤ total
    → FreeRun b s n
    → count_free (set_run b s n) total + n ≡ count_free b total
unfolding set_run
count_free-set_run b total s zero fit free = omega arith
count_free-set_run b total s (suc n) fit free = omega (
  arith,
  count_free-set_run (bm_set b s) total (s + 1) n (omega arith)
      (λ g lo hi. ground (arith, bm_test-bm_set b s g, free g)),
  count_free-bm_set b s total (omega arith) (free s (omega arith) (omega arith)),
)

-- What a successful allocation of the `n` frames from `s` on did to the state.
pub record TookRun (p : Pmm) (s n : ℕ) (q : Pmm) : Type 0 where
  pub in_range : s + n ≤ p.total_frames
  pub were_free : FreeRun p.bitmap s n
  pub bits :
      (g : ℕ) → bm_test q.bitmap g ≡ (if leb s g && ltb g (s + n) then true else bm_test p.bitmap g)
  pub total : q.total_frames ≡ p.total_frames
  pub fewer : q.free_frames + n ≡ p.free_frames

take_run : Pmm → ℕ → ℕ → Pmm
take_run p s n = record p { bitmap = set_run p.bitmap s n; free_frames = sub64 p.free_frames n }

take_run-TookRun :
    (p : Pmm) (s n : ℕ)
    → IsCounted p
    → s + n ≤ p.total_frames
    → FreeRun p.bitmap s n
    → TookRun p s n (take_run p s n) × IsCounted (take_run p s n)
unfolding take_run
take_run-TookRun p s n c fit free =
    let e = count_free-set_run p.bitmap p.total_frames s n fit free in
    let le = count_free-le p.bitmap p.total_frames in
    (
      record {
        in_range = fit;
        were_free = free;
        bits = bm_test-set_run p.bitmap s n;
        total = refl;
        fewer = omega (arith, c.counted, c.small);
      },
      record { small = c.small; counted = omega (arith, c.counted, c.small); hint = c.hint },
    )

-- `pmm_alloc_frames` of a positive count below 2^63, under the invariant: either it returns 0,
-- changes nothing, and no run of that many frames in range is free; or it returns the address
-- of such a run that was free, sets exactly its bits and takes their number from the free count,
-- and the invariant holds again.
pub pmm_alloc_frames_lem :
    (p : Pmm) (count : ℕ)
    → IsCounted p
    → 0 < count
    → count < 2 ^ 63
    → ((pmm_alloc_frames p count ≡ (0, p))
        × ¬ ((s : ℕ) × (s + count ≤ p.total_frames) × FreeRun p.bitmap s count))
      ⊎ ((s : ℕ) × ((pmm_alloc_frames p count).0 ≡ s * page_size)
          × TookRun p s count (pmm_alloc_frames p count).1
          × IsCounted (pmm_alloc_frames p count).1)
unfolding pmm_alloc_frames take_run
pmm_alloc_frames_lem p count c pos size =
    let ne : (count == 0) ≡ false = ground arith in
    let found = find_run p.bitmap p.total_frames count (p.total_frames + 1) 0 in
    elim (Option-cases found) [
      | inl e ↦ inl (
        rw (ne, e, pmm_alloc_frames) refl,
        λ (s, fit, free).
            let (g, lo, hi, used) =
              find_run-none p.bitmap p.total_frames count c.small size (p.total_frames + 1) 0
                (omega arith) (omega arith) e s (omega arith) fit pos in
            ground (arith, free g lo hi),
      )
      | inr (s, e) ↦
          let (fit, free) =
            find_run-some p.bitmap p.total_frames count c.small size (p.total_frames + 1) 0 s
              (omega arith) e in
          let (took, kept) = take_run-TookRun p s count c fit free in
          rw (ne, e, pmm_alloc_frames) (inr (s, omega (arith, c.small), took, kept))
    ]
