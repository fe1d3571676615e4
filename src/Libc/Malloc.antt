-- ===== src/Libc/Malloc.antt =====
-- The allocator of kernel/userspace/libc/stdlib.c. The heap is the list of its blocks in the order of
-- their addresses, which is that of the list; an address counts from the start of the heap.
pub mod Restores
pub mod Regions
mod Examples
use axiome_os.Prelude.{
  ℕ, zero, suc, ◌+◌, ◌-◌, ◌*◌, ◌/◌, ◌%◌, ◌^◌, Bool, true, false, not, ◌&&◌, ◌||◌, Option, none,
  some, List, [], ◌∷◌, ltb, leb, ◌==◌, if◌then◌else◌,
}

abbrev pub heap_size : ℕ
heap_size = 4194304

abbrev pub header_size : ℕ
header_size = 24

pub record Block : Type 0 where
  pub size : ℕ
  pub free : Bool

pub align16 : ℕ → ℕ
align16 n = (n + 15) % 2 ^ 64 / 16 * 16

-- A heap without blocks is one that is not set up.
pub init_heap : List Block → List Block
init_heap [] = record { size = heap_size - header_size; free = true } ∷ []
init_heap (b ∷ bs) = b ∷ bs

pub split_block : Block → ℕ → List Block → List Block
split_block b size bs =
    if leb ((size + header_size + 16) % 2 ^ 64) b.size
    then record b { size = size } ∷ record { size = b.size - size - header_size; free = true } ∷ bs
    else b ∷ bs

-- `curr->free = 0`.
pub claim : List Block → List Block
claim [] = []
claim (b ∷ bs) = record b { free = false } ∷ bs

abbrev pub keep : Block → Option ℕ × List Block → Option ℕ × List Block
keep b r = (r.0, b ∷ r.1)

-- The search from the block at `pos` on.
pub alloc_from : ℕ → ℕ → List Block → Option ℕ × List Block
alloc_from pos size [] = (none, [])
alloc_from pos size (b ∷ bs) =
    let later = alloc_from (pos + header_size + b.size) size bs in
    if b.free && leb size b.size
    then (some (pos + header_size), claim (split_block b size bs))
    else keep b later

pub malloc : ℕ → List Block → Option ℕ × List Block
malloc n bs = let r = alloc_from 0 (align16 n) (init_heap bs) in if n == 0 then (none, bs) else r

-- The loop of `merge_free_blocks` with `curr` at the first block.
pub merge_from : Block → List Block → List Block
merge_from b [] = b ∷ []
merge_from b (c ∷ cs) =
    let joined = merge_from (record b { size = b.size + header_size + c.size }) cs in
    let next = b ∷ merge_from c cs in if b.free && c.free then joined else next

pub merge_free_blocks : List Block → List Block
merge_free_blocks [] = []
merge_free_blocks (b ∷ bs) = merge_from b bs

-- The block whose data starts at the address.
pub free_at : ℕ → ℕ → List Block → List Block
free_at p pos [] = []
free_at p pos (b ∷ bs) =
    let later = free_at p (pos + header_size + b.size) bs in
    if pos + header_size == p then record b { free = true } ∷ bs else b ∷ later

-- `none` is the null pointer.
pub free : Option ℕ → List Block → List Block
free none bs = bs
free (some p) bs = merge_free_blocks (free_at p 0 bs)

-- The bytes that it clears are left out.
pub calloc : ℕ → ℕ → List Block → Option ℕ × List Block
calloc nmemb size bs =
    let r = malloc (nmemb * size % 2 ^ 64) bs in
    if nmemb == 0 || size == 0
    then (none, bs)
    else if ltb ((2 ^ 64 - 1) / size) nmemb
    then (none, bs)
    else r

-- The size of the block whose data starts at the address.
size_at : ℕ → ℕ → List Block → ℕ
size_at p pos [] = 0
size_at p pos (b ∷ bs) =
    let later = size_at p (pos + header_size + b.size) bs in
    if pos + header_size == p then b.size else later

-- The old block is freed once its bytes are copied.
realloc_moved : ℕ → Option ℕ × List Block → Option ℕ × List Block
realloc_moved p (none, bs) = (none, bs)
realloc_moved p (some q, bs) = (some q, free (some p) bs)

pub realloc : Option ℕ → ℕ → List Block → Option ℕ × List Block
realloc none size bs = malloc size bs
realloc (some p) size bs =
    if size == 0
    then (none, free (some p) bs)
    else if leb size (size_at p 0 bs)
    then (some p, bs)
    else realloc_moved p (malloc size bs)
