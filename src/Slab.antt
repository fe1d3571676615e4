-- ===== src/Slab.antt =====
-- kernel/slab.c: the allocator of the kernel, with a cache for each of six sizes and whole pages for
-- what is larger. A slab is named by the address of its page, where its header lies.
pub mod Laws
pub mod Grown
pub mod Given
pub mod Returned
mod Examples
use axiome_os.Prelude.{
  ℕ, zero, suc, ◌+◌, ◌%◌, ◌^◌, ◌-◌, ◌*◌, ◌/◌, ◌^◌, Bool, true, false, ◌||◌, Option, none, some,
  List, [], ◌∷◌, ◌++◌, ltb, leb, ◌==◌, if◌then◌else◌,
}

abbrev pub page_size : ℕ
page_size = 4096

abbrev pub slab_num : ℕ
slab_num = 6

-- `sizeof(struct slab_header)` and `sizeof(struct big_hdr)`.
abbrev pub header_bytes : ℕ
header_bytes = 32

abbrev pub big_bytes : ℕ
big_bytes = 24

-- `struct slab_header`; the chain of free objects, whose links lie in the objects, is a list.
pub record Slab : Type 0 where
  pub next : Option ℕ
  pub free_list : List ℕ
  pub obj_size : ℕ
  pub free_count : ℕ

pub record Big : Type 0 where
  pub npages : ℕ
  pub phys_base : ℕ

-- What lies at the start of a page, told apart by the magic number.
pub data Header : Type 0 where
  nothing : Header
  small : Slab → Header
  large : Big → Header

-- The state of the module, with the runs of frames that were given back.
pub record Heap : Type 0 where
  pub sizes : ℕ → ℕ
  pub caches : ℕ → Option ℕ
  pub headers : ℕ → Header
  pub freed : List (ℕ × ℕ)

-- What the frame allocator and the mapping of pages give when they are asked.
pub record Luck : Type 0 where
  pub frame : Option ℕ
  pub page : Option ℕ

unfoldable pub put : ℕ → Header → Heap → Heap
put page x h = record h { headers = λ j. if j == page then x else h.headers j }

unfoldable pub set_cache : ℕ → Option ℕ → Heap → Heap
set_cache idx c h = record h { caches = λ j. if j == idx then c else h.caches j }

unfoldable pub size_from : (ℕ → ℕ) → ℕ → ℕ → ℕ → Option ℕ
size_from sizes size i zero = none
size_from sizes size i (suc k) =
    let rest = size_from sizes size (suc i) k in if leb size (sizes i) then some i else rest

unfoldable pub size_to_idx : ℕ → Heap → Option ℕ
size_to_idx size h = size_from h.sizes size 0 slab_num

unfoldable pub data_start : ℕ → ℕ
data_start obj_size = (header_bytes + obj_size - 1) / obj_size * obj_size

-- The loop that chains the objects, from the one at `cur` on.
unfoldable pub fill : (count cur obj_size : ℕ) → Slab → Slab
fill zero cur obj_size s = s
fill (suc count) cur obj_size s =
    fill count (cur + obj_size) obj_size
      (record s { free_list = cur ∷ s.free_list; free_count = suc s.free_count })

unfoldable pub new_slab : (page obj_size : ℕ) → Option ℕ → Slab
new_slab page obj_size next =
    fill ((page_size - data_start obj_size) / obj_size) (page + data_start obj_size) obj_size
      (record { next = next; free_list = []; obj_size = obj_size; free_count = 0 })

unfoldable pub grow_on : Option ℕ → Option ℕ → ℕ → Heap → Heap
grow_on none page idx h = h
grow_on (some phys) none idx h = record h { freed = h.freed ++ (phys, 1) ∷ [] }
grow_on (some phys) (some page) idx h =
    set_cache idx (some page) (put page (small (new_slab page (h.sizes idx) (h.caches idx))) h)

unfoldable pub slab_grow : Luck → ℕ → Heap → Heap
slab_grow luck idx h = grow_on luck.frame luck.page idx h

-- The header of the slab that a cache starts with.
unfoldable pub header_at : Option ℕ → Heap → Header
header_at none h = nothing
header_at (some page) h = h.headers page

unfoldable pub has_room : Header → Bool
has_room nothing = false
has_room (small s) = ltb 0 s.free_count
has_room (large b) = false

unfoldable pub popped : List ℕ → Slab → Slab
popped rest s = record s { free_list = rest; free_count = s.free_count - 1 }

-- What an allocation does: the address it returns, none for null, and the new state; it is none where
-- the code follows a null link.
unfoldable pub take_object : ℕ → Slab → List ℕ → Heap → Option (Option ℕ × Heap)
take_object page s [] h = none
take_object page s (obj ∷ rest) h = some (some obj, put page (small (popped rest s)) h)

unfoldable pub take_slab : ℕ → Header → Heap → Option (Option ℕ × Heap)
take_slab page nothing h = none
take_slab page (small s) h = take_object page s s.free_list h
take_slab page (large b) h = none

unfoldable pub take_first : Option ℕ → Heap → Option (Option ℕ × Heap)
take_first none h = none
take_first (some page) h = take_slab page (h.headers page) h

unfoldable pub take_if_room : ℕ → Heap → Option (Option ℕ × Heap)
take_if_room idx h =
    if has_room (header_at (h.caches idx) h) then take_first (h.caches idx) h else some (none, h)

unfoldable pub kmalloc_small : Luck → ℕ → Heap → Option (Option ℕ × Heap)
kmalloc_small luck idx h =
    take_if_room idx (if has_room (header_at (h.caches idx) h) then h else slab_grow luck idx h)

-- The sum wraps: for a size near 2 ^ 64 the block has too few pages.
unfoldable pub big_pages : ℕ → ℕ
big_pages size = (size + big_bytes + page_size - 1) % 2 ^ 64 / page_size

unfoldable pub kmalloc_big : Option ℕ → Option ℕ → ℕ → Heap → Option ℕ × Heap
kmalloc_big none page size h = (none, h)
kmalloc_big (some phys) none size h =
    (none, record h { freed = h.freed ++ (phys, big_pages size) ∷ [] })
kmalloc_big (some phys) (some page) size h = (
  some (page + big_bytes),
  put page (large (record { npages = big_pages size; phys_base = phys })) h,
)

unfoldable pub kmalloc_by : Option ℕ → Luck → ℕ → Heap → Option (Option ℕ × Heap)
kmalloc_by none luck size h = some (kmalloc_big luck.frame luck.page size h)
kmalloc_by (some idx) luck size h = kmalloc_small luck idx h

unfoldable pub kmalloc : Luck → ℕ → Heap → Option (Option ℕ × Heap)
kmalloc luck size h =
    if size == 0 then some (none, h) else kmalloc_by (size_to_idx size h) luck size h

unfoldable pub pushed : ℕ → Slab → Slab
pushed obj s = record s { free_list = obj ∷ s.free_list; free_count = suc s.free_count }

-- A page without a header is one that the allocator did not give: what the code does there is none.
unfoldable pub kfree_at : ℕ → ℕ → Header → Heap → Option Heap
kfree_at ptr page nothing h = none
kfree_at ptr page (small s) h = some (put page (small (pushed ptr s)) h)
kfree_at ptr page (large b) h =
    some (record (put page nothing h) { freed = h.freed ++ (b.phys_base, b.npages) ∷ [] })

unfoldable pub page_of : ℕ → ℕ
page_of addr = addr / page_size * page_size

unfoldable pub kfree : Option ℕ → Heap → Option Heap
kfree none h = some h
kfree (some ptr) h = kfree_at ptr (page_of ptr) (h.headers (page_of ptr)) h

unfoldable pub init_from : (ℕ → Luck) → (k i : ℕ) → Heap → Heap
init_from lucks zero i h = h
init_from lucks (suc k) i h =
    let m : Heap =
      set_cache i none (record h { sizes = λ j. if j == i then 2 ^ (5 + i) else h.sizes j }) in
    init_from lucks k (suc i) (slab_grow (lucks i) i m)

unfoldable pub slab_init : (ℕ → Luck) → Heap → Heap
slab_init lucks h = init_from lucks slab_num 0 h
