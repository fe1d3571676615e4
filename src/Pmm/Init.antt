-- ===== src/Pmm/Init.antt =====
-- kernel/pmm.c, `mark_used`, `mark_free` and `pmm_init`, with the region test of kernel/mmap.h.
pub mod Marks
use axiome_os.Prelude.{
  ℕ, zero, suc, ◌+◌, ◌-◌, ◌*◌, ◌/◌, Bool, true, false, not, ◌&&◌, List, [], ◌∷◌, ltb, leb, ◌==◌,
  if◌then◌else◌,
}
use axiome_os.Pmm.{Pmm, Bitmap, page_size, add64, sub64, bm_set, bm_clear, bm_test}

-- One round of `mark_used`.
pub mark_used_one : Pmm → ℕ → Pmm
mark_used_one p i =
    if bm_test p.bitmap i
    then p
    else record p { bitmap = bm_set p.bitmap i; free_frames = sub64 p.free_frames 1 }

-- One round of `mark_free`.
pub mark_free_one : Pmm → ℕ → Pmm
mark_free_one p i =
    if bm_test p.bitmap i
    then record p { bitmap = bm_clear p.bitmap i; free_frames = add64 p.free_frames 1 }
    else p

-- `for (i = start; i < start + n; i++) p = step p i`
pub for_frames : (Pmm → ℕ → Pmm) → ℕ → ℕ → Pmm → Pmm
for_frames step i zero p = p
for_frames step i (suc n) p = for_frames step (i + 1) n (step p i)

-- The first and the last frame bound of a range: its start is rounded up and its end down.
abbrev pub first_frame : ℕ → ℕ
first_frame base = sub64 (add64 base page_size) 1 / page_size

abbrev pub end_frame : ℕ → ℕ → ℕ
end_frame base len = add64 base len / page_size

pub mark_used : ℕ → ℕ → Pmm → Pmm
unfolding for_frames mark_used_one
mark_used base len =
    for_frames mark_used_one (first_frame base) (end_frame base len - first_frame base)

pub mark_free : ℕ → ℕ → Pmm → Pmm
unfolding for_frames mark_free_one
mark_free base len =
    for_frames mark_free_one (first_frame base) (end_frame base len - first_frame base)

-- An entry of `kernel_mmap`, of kernel/mmap.h.
pub record Region : Type 0 where
  pub base : ℕ
  pub len : ℕ
  pub kind : ℕ

pub addr_in_reserved_region : List Region → ℕ → Bool
addr_in_reserved_region [] a = false
addr_in_reserved_region (r ∷ rs) a =
    if not (r.kind == 1) && (leb r.base a && ltb a (add64 r.base r.len))
    then true
    else addr_in_reserved_region rs a

pub free_usable : List Region → Pmm → Pmm
free_usable [] p = p
free_usable (r ∷ rs) p = free_usable rs (if r.kind == 1 then mark_free r.base r.len p else p)

-- The rounds of the last loop of `pmm_init`; `n` of them are left, from address `a`.
pub reserve_high : List Region → ℕ → ℕ → Pmm → Pmm
reserve_high rs a zero p = p
reserve_high rs a (suc n) p =
    reserve_high rs (a + 0x200000) n
      (if addr_in_reserved_region rs a then mark_used a 0x200000 p else p)

abbrev pub kernel_virt_base : ℕ
kernel_virt_base = 0xFFFFFFFF80000000

-- `_bss_end` less the kernel's base, rounded up to a page
abbrev pub bitmap_phys : ℕ → ℕ
bitmap_phys bss_end =
    sub64 (add64 (sub64 bss_end kernel_virt_base) page_size) 1 / page_size * page_size

abbrev pub frames_of : ℕ → ℕ
frames_of max_addr = sub64 (add64 max_addr page_size) 1 / page_size

-- `bm_set(0); free_frames--;`
pub take_frame_zero : Pmm → Pmm
take_frame_zero p = record p { bitmap = bm_set p.bitmap 0; free_frames = sub64 p.free_frames 1 }

-- The state after the fill with 0xFF. The memory past the bitmap keeps what it held.
pub blank : Bitmap → ℕ → Pmm
blank memory total = record {
  bitmap = λ i. if ltb i (add64 total 7 / 8) then 255 else memory i;
  total_frames = total;
  free_frames = 0;
  next_hint = 0;
}

-- `bss_end` is the linker's symbol and `max_addr` is `mmap_max_addr`.
pub pmm_init : Bitmap → ℕ → ℕ → List Region → Pmm
unfolding blank free_usable mark_used take_frame_zero reserve_high
pmm_init memory bss_end max_addr rs =
    let total = frames_of max_addr in
    let kernel_end = add64 (bitmap_phys bss_end) (add64 total 7 / 8) in
    let p = free_usable rs (blank memory total) in
    let p = mark_used 0x200000 (sub64 kernel_end 0x200000) p in
    let p =
      reserve_high rs 0x800000 ((max_addr + 0x200000 - 1 - 0x800000) / 0x200000)
        (take_frame_zero p) in
    record p { next_hint = 0 }
