-- ===== src/Slab/Examples.antt =====
-- The properties of kernel/slab.c at a heap with one slab, of objects of 64 bytes.
use axiome_os.Prelude.{ℕ, ◌+◌, ◌*◌, ◌≤◌, ◌<◌, ◌^◌, refl, none, some, [], ◌∷◌, arith}
use axiome_os.Prelude.Members.{is_in}
use axiome_os.Slab.{
  Slab, nothing, small, Heap, Luck, grow_on, kmalloc, kfree, page_of, size_to_idx, size_from,
  header_at, has_room, put, set_cache, new_slab, fill, data_start,
}
use axiome_os.Slab.Laws.{IsFormed, IsObject, IsSlab, put-IsFormed}
use axiome_os.Slab.Given.{IsGiven, kmalloc-IsGiven}
use axiome_os.Slab.Grown.{slab_grow-IsFormed}
use axiome_os.Slab.Returned.{IsReturned, IsRestored, kfree-IsReturned, kfree-kmalloc}

abbrev empty_heap : Heap
empty_heap = record {
  sizes = λ i. 2 ^ (5 + i);
  caches = λ i. none;
  headers = λ j. nothing;
  freed = [];
}

abbrev one_page : Luck
one_page = record { frame = some 7; page = some 8192 }

abbrev no_page : Luck
no_page = record { frame = none; page = none }

empty_heap-IsFormed : IsFormed empty_heap
empty_heap-IsFormed = record { sized = λ i lt. refl; headed = λ page. tt; cached = λ i lt. tt }

kmalloc-IsGiven_example : IsGiven 40 (kmalloc one_page 40 empty_heap)
kmalloc-IsGiven_example =
    kmalloc-IsGiven one_page 40 empty_heap (omega arith) (refl, refl) empty_heap-IsFormed

abbrev one_slab : Heap
one_slab = grow_on (some 7) (some 8192) 1 empty_heap

one_slab-IsFormed : IsFormed one_slab
one_slab-IsFormed =
    slab_grow-IsFormed (some 7) (some 8192) 1 empty_heap (omega arith) (refl, refl)
      empty_heap-IsFormed

kfree-kmalloc_example : IsRestored (kmalloc no_page 40 one_slab) one_slab
unfolding size_to_idx size_from header_at has_room grow_on put set_cache new_slab fill data_start
kfree-kmalloc_example =
    kfree-kmalloc no_page 40 1 one_slab (omega arith) refl refl one_slab-IsFormed

-- A slab with one free object, where that of address 8320 is in use.
abbrev worn : Slab
worn = record { next = none; free_list = 8256 ∷ []; obj_size = 64; free_count = 1 }

abbrev worn_heap : Heap
worn_heap = put 8192 (small worn) empty_heap

IsObject-at : (index : ℕ) → 1 ≤ index → index < 64 → IsObject 8192 64 (8192 + index * 64)
IsObject-at index low high = record {
  index = index;
  at = refl;
  low = omega arith;
  high = omega arith;
}

worn-IsSlab : IsSlab 8192 worn
unfolding is_in
worn-IsSlab = record {
  aligned = refl;
  sized = omega arith;
  counted = refl;
  placed = (IsObject-at 1 (omega arith) (omega arith), tt);
  distinct = (refl, tt);
}

worn_heap-IsFormed : IsFormed worn_heap
worn_heap-IsFormed =
    put-IsFormed 8192 (small worn) empty_heap worn-IsSlab (λ size v. absurd v) empty_heap-IsFormed

kfree-IsReturned_example : IsReturned (kfree (some 8320) worn_heap)
unfolding put page_of is_in
kfree-IsReturned_example =
    kfree-IsReturned 40 8320 worn_heap
      (omega arith, IsObject-at 2 (omega arith) (omega arith), refl) worn_heap-IsFormed
