-- ===== src/Pmm.antt =====
-- kernel/pmm.c: the frame allocator over a bitmap, one bit a frame, set where the frame is used.
-- The bitmap is memory, a function from a byte's index to its value; a read takes it mod 256, as a
-- `uint8_t` does. Counters are `uint64_t`, with their wrap-around written out.
mod Count
mod Init
mod Alloc
mod Runs
mod Free
mod Examples
use axiome_os.Prelude.{
  ℕ, zero, suc, ◌+◌, ◌-◌, ◌*◌, ◌/◌, ◌%◌, ◌^◌, Bool, true, false, not, ◌&&◌, Option, none, some,
  List, [], ◌∷◌, ltb, leb, ◌==◌, if◌then◌else◌,
}
use axiome_os.Prelude.Bits.{test_bit, set_bit, clear_bit}

abbrev pub page_size : ℕ
page_size = 4096

abbrev pub u64 : ℕ
u64 = 2 ^ 64

abbrev pub add64 : ℕ → ℕ → ℕ
add64 a b = (a + b) % u64

-- `a - b` of two `uint64_t`
abbrev pub sub64 : ℕ → ℕ → ℕ
sub64 a b = (a + u64 - b) % u64

abbrev pub Bitmap : Type 0
Bitmap = ℕ → ℕ

pub record Pmm : Type 0 where
  pub bitmap : Bitmap
  pub total_frames : ℕ
  pub free_frames : ℕ
  pub next_hint : ℕ

pub write : Bitmap → ℕ → ℕ → Bitmap
write b i v j = if i == j then v else b j

pub bm_set : Bitmap → ℕ → Bitmap
unfolding write
bm_set b f = write b (f / 8) (set_bit (b (f / 8) % 256) (f % 8))

pub bm_clear : Bitmap → ℕ → Bitmap
unfolding write
bm_clear b f = write b (f / 8) (clear_bit (b (f / 8) % 256) (f % 8))

pub bm_test : Bitmap → ℕ → Bool
bm_test b f = test_bit (b (f / 8) % 256) (f % 8) == 1

-- The search loop of `pmm_alloc_frame`: the first free index, with `n` rounds left.
pub find_free : Pmm → ℕ → ℕ → Option ℕ
find_free p i zero = none
find_free p i (suc n) =
    let idx = add64 p.next_hint i % p.total_frames in
    let rest = find_free p (i + 1) n in if bm_test p.bitmap idx then rest else some idx

-- `bm_set(idx); free_frames--; next_hint = idx + 1;`
pub claim : Pmm → ℕ → Pmm
claim p idx = record p {
  bitmap = bm_set p.bitmap idx;
  free_frames = sub64 p.free_frames 1;
  next_hint = add64 idx 1;
}

-- `(void *)(idx << PAGE_SHIFT)`
abbrev pub addr_of : ℕ → ℕ
addr_of idx = idx * page_size % u64

-- The address returned, 0 for failure, and the new state.
pub pmm_alloc_frame : Pmm → ℕ × Pmm
unfolding find_free claim
pmm_alloc_frame p = elim (find_free p 0 p.total_frames) [
  | none ↦ (0, p)
  | some idx ↦ (addr_of idx, claim p idx)
]

-- `while (start < total_frames && bm_test(start)) start++;`, with `n` frames left
pub skip_used : Bitmap → ℕ → ℕ → ℕ
skip_used b start zero = start
skip_used b start (suc n) =
    let next = skip_used b (start + 1) n in if bm_test b start then next else start

-- The length of the free run at `j`, up to the rounds left.
pub run_length : Bitmap → ℕ → ℕ → ℕ
run_length b j zero = 0
run_length b j (suc n) = let rest = run_length b (j + 1) n in if bm_test b j then 0 else suc rest

-- The `for` loop of `pmm_alloc_frames`, on fuel: the start of a free run of `count` frames.
pub find_run : Bitmap → ℕ → ℕ → ℕ → ℕ → Option ℕ
find_run b total count zero start = none
find_run b total count (suc fuel) start =
    let at = skip_used b start (total - start) in
    let free_run = run_length b at (if ltb (total - at) count then total - at else count) in
    let next = find_run b total count fuel (add64 at (add64 free_run 1)) in
    if leb (add64 start count) total
    then (if ltb total (add64 at count) then none else if leb count free_run then some at else next)
    else none

pub set_run : Bitmap → ℕ → ℕ → Bitmap
set_run b start zero = b
set_run b start (suc n) = set_run (bm_set b start) (start + 1) n

pub pmm_alloc_frames : Pmm → ℕ → ℕ × Pmm
unfolding find_run set_run
pmm_alloc_frames p count =
    if count == 0
    then (0, p)
    else elim (find_run p.bitmap p.total_frames count (p.total_frames + 1) 0) [
      | none ↦ (0, p)
      | some start ↦ (
        addr_of start,
        record p { bitmap = set_run p.bitmap start count; free_frames = sub64 p.free_frames count },
      )
    ]

-- The body that `pmm_free_frame` and each round of `pmm_free_frames` share.
pub free_one : Pmm → ℕ → Pmm
free_one p f =
    if ltb f p.total_frames && bm_test p.bitmap f
    then record p { bitmap = bm_clear p.bitmap f; free_frames = add64 p.free_frames 1 }
    else p

pub pmm_free_frame : Pmm → ℕ → Pmm
unfolding free_one
pmm_free_frame p addr = free_one p (addr / page_size)

-- `start + i` for the rounds left; the sum wraps as `uint64_t` does.
pub free_range : Pmm → ℕ → ℕ → ℕ → Pmm
free_range p start i zero = p
free_range p start i (suc n) = free_range (free_one p (add64 start i)) start (i + 1) n

pub pmm_free_frames : Pmm → ℕ → ℕ → Pmm
unfolding free_range free_one
pmm_free_frames p addr count = free_range p (addr / page_size) 0 count
