-- ===== src/Slab/Given.antt =====
-- What `kmalloc` of kernel/slab.c gives: an object that is large enough, in its place, and not free.
use mathlib.Core.Path.{subst}
use axiome_os.Prelude.{
  ℕ, zero, suc, ◌+◌, ◌*◌, ◌%◌, ◌^◌, ◌<◌, ◌≤◌, ◌≡◌, refl, sym, ap, ◌∙◌, inl, inr, Bool, true, false,
  Option, none, some, List, [], ◌∷◌, length, arith, leb, ◌==◌, if◌then◌else◌, Bool-cases, if_either,
  lt_at, le_at,
}
use axiome_os.Prelude.Members.{is_in, AreDistinct, some_inj}
use axiome_os.Slab.{
  Slab, Big, Header, nothing, small, large, Heap, Luck, put, set_cache, size_from, size_to_idx,
  grow_on, slab_grow, header_at, has_room, popped, take_object, take_slab, take_first, take_if_room,
  kmalloc_small, kmalloc_big, kmalloc_by, kmalloc, page_of, big_pages,
}
use axiome_os.Slab.Laws.{
  IsObject, AreObjects, IsSlab, IsHeader, IsSmall, IsCache, IsFormed, put-IsFormed,
}
use axiome_os.Slab.Grown.{put_self, IsFresh, no_small, slab_grow-IsFormed}

-- The object at `p` is in use: it is large enough, it lies in its place, and it is not free.
abbrev pub IsAllocated : (size p : ℕ) → Header → Type 0
IsAllocated size p nothing = ⊥
IsAllocated size p (small s) =
    (size ≤ s.obj_size) × IsObject (page_of p) s.obj_size p × (is_in p s.free_list ≡ false)
IsAllocated size p (large b) = (p ≡ page_of p + 24) × (size + 24 ≤ b.npages * 4096)

-- The code follows no null link, and what it returns is null or in use.
abbrev pub IsGiven : ℕ → Option (Option ℕ × Heap) → Type 0
IsGiven size none = ⊥
IsGiven size (some (none, m)) = IsFormed m
IsGiven size (some (some p, m)) = IsFormed m × IsAllocated size p (m.headers (page_of p))

-- An address in a page.
page_of_at : (page off : ℕ) → page % 4096 ≡ 0 → off < 4096 → page_of (page + off) ≡ page
unfolding page_of
page_of_at page off al lt = omega arith

pub page_of-IsObject :
    (page size o : ℕ) → page % 4096 ≡ 0 → 0 < size → IsObject page size o → page_of o ≡ page
page_of-IsObject page size o al pos v =
    ap page_of v.at ∙ page_of_at page (v.index * size) al (omega (arith, v.high))

take_object-IsGiven :
    (size page : ℕ) (s : Slab) (os : List ℕ) (h : Heap)
    → s.free_list ≡ os
    → h.headers page ≡ small s
    → IsSlab page s
    → size ≤ s.obj_size
    → 0 < s.free_count
    → IsFormed h
    → IsGiven size (take_object page s os h)
unfolding take_object popped
take_object-IsGiven size page s [] h e at v le room f =
    absurd (omega (arith, v.counted, ap length e))
take_object-IsGiven size page s (o ∷ os) h e at v le room f =
    let placed : AreObjects page s.obj_size (o ∷ os) =
      subst (AreObjects page s.obj_size) e v.placed in
    let distinct : AreDistinct (o ∷ os) = subst AreDistinct e v.distinct in
    let left : IsSlab page (popped os s) = record {
      aligned = v.aligned;
      sized = v.sized;
      counted = omega (arith, v.counted, ap length e);
      placed = placed.1;
      distinct = distinct.1;
    } in
    let here : page_of o ≡ page = page_of-IsObject page s.obj_size o v.aligned v.sized placed.0 in
    (
      put-IsFormed page (small (popped os s)) h left (λ z w. subst (IsSmall z) at w) f,
      subst (IsAllocated size o)
          (sym (
            ap (put page (small (popped os s)) h).headers here
            ∙ put_self page (small (popped os s)) h))
          (le, subst (λ q. IsObject q s.obj_size o) (sym here) placed.0, distinct.0),
    )

take_slab-IsGiven :
    (size page : ℕ) (x : Header) (h : Heap)
    → h.headers page ≡ x
    → IsHeader page x
    → (z : ℕ) → IsSmall z x
    → size ≤ z
    → has_room x ≡ true
    → IsFormed h
    → IsGiven size (take_slab page x h)
unfolding take_slab has_room
take_slab-IsGiven size page nothing h e v z w le room f = absurd w
take_slab-IsGiven size page (small s) h e v z w le room f =
    take_object-IsGiven size page s s.free_list h refl e v (omega (arith, w))
      (lt_at 0 s.free_count room) f
take_slab-IsGiven size page (large b) h e v z w le room f = absurd w

take_first-IsGiven :
    (size z : ℕ) (c : Option ℕ) (h : Heap)
    → IsCache z c h.headers
    → size ≤ z
    → has_room (header_at c h) ≡ true
    → IsFormed h
    → IsGiven size (take_first c h)
unfolding take_first header_at has_room
take_first-IsGiven size z none h w le room f = absurd (ground arith)
take_first-IsGiven size z (some page) h w le room f =
    take_slab-IsGiven size page (h.headers page) h refl (f.headed page) z w le room f

take_if_room-IsGiven :
    (size i : ℕ) (h : Heap)
    → i < 6
    → size ≤ h.sizes i
    → IsFormed h
    → IsGiven size (take_if_room i h)
unfolding take_if_room
take_if_room-IsGiven size i h lt le f =
    if_either (IsGiven size) (has_room (header_at (h.caches i) h)) (take_first (h.caches i) h)
      (some (none, h))
      (λ e. take_first-IsGiven size (h.sizes i) (h.caches i) h (f.cached i lt) le e f) (λ e. f)

sizes-grow_on :
    (frame page : Option ℕ) (i : ℕ) (h : Heap) → (grow_on frame page i h).sizes ≡ h.sizes
unfolding grow_on put set_cache
sizes-grow_on none page i h = refl
sizes-grow_on (some phys) none i h = refl
sizes-grow_on (some phys) (some page) i h = refl

kmalloc_small-IsGiven :
    (luck : Luck) (size i : ℕ) (h : Heap)
    → i < 6
    → size ≤ h.sizes i
    → IsFresh luck.page h
    → IsFormed h
    → IsGiven size (kmalloc_small luck i h)
unfolding kmalloc_small slab_grow
kmalloc_small-IsGiven luck size i h lt le fresh f =
    if_either (λ g. IsGiven size (take_if_room i g)) (has_room (header_at (h.caches i) h)) h
      (grow_on luck.frame luck.page i h) (λ e. take_if_room-IsGiven size i h lt le f)
      (λ e.
        take_if_room-IsGiven size i (grow_on luck.frame luck.page i h) lt
          (subst (λ g. size ≤ g i) (sym (sizes-grow_on luck.frame luck.page i h)) le)
          (slab_grow-IsFormed luck.frame luck.page i h lt fresh f))

kmalloc_big-IsGiven :
    (frame page : Option ℕ) (size : ℕ) (h : Heap)
    → size + 4119 < 2 ^ 64
    → IsFresh page h
    → IsFormed h
    → IsGiven size (some (kmalloc_big frame page size h))
unfolding kmalloc_big big_pages
kmalloc_big-IsGiven none page size h low fresh f = f
kmalloc_big-IsGiven (some phys) none size h low fresh f = record {
  sized = f.sized;
  headed = f.headed;
  cached = f.cached;
}
kmalloc_big-IsGiven (some phys) (some page) size h low fresh f =
    let b : Big = record { npages = big_pages size; phys_base = phys } in
    let here : page_of (page + 24) ≡ page = page_of_at page 24 fresh.0 (omega arith) in
    (
      put-IsFormed page (large b) h tt (λ z w. absurd (no_small (h.headers page) z fresh.1 w)) f,
      subst (IsAllocated size (page + 24))
          (sym (ap (put page (large b) h).headers here ∙ put_self page (large b) h))
          (ap (λ q. q + 24) (sym here), omega arith),
    )

-- The size class is one of the six, and large enough.
size_from_fits :
    (sizes : ℕ → ℕ) (size i k j : ℕ)
    → size_from sizes size i k ≡ some j
    → (j < i + k) × (size ≤ sizes j)
unfolding size_from
size_from_fits sizes size i zero j e = absurd (ground arith)
size_from_fits sizes size i (suc k) j e =
    let pick : Bool → Option ℕ = λ b. if b then some i else size_from sizes size (suc i) k in
    elim (Bool-cases (leb size (sizes i))) [
      | inl f ↦
          let same : i ≡ j = some_inj (sym (ap pick f) ∙ e) in
          (omega (arith, same), subst (λ z. size ≤ sizes z) same (le_at size (sizes i) f))
      | inr f ↦
          let later = size_from_fits sizes size (suc i) k j (sym (ap pick f) ∙ e) in
          (omega (arith, later.0), later.1)
    ]

pub kmalloc_by-IsGiven :
    (o : Option ℕ) (luck : Luck) (size : ℕ) (h : Heap)
    → size_to_idx size h ≡ o
    → size + 4119 < 2 ^ 64
    → IsFresh luck.page h
    → IsFormed h
    → IsGiven size (kmalloc_by o luck size h)
unfolding kmalloc_by size_to_idx
kmalloc_by-IsGiven none luck size h e low fresh f =
    kmalloc_big-IsGiven luck.frame luck.page size h low fresh f
kmalloc_by-IsGiven (some i) luck size h e low fresh f =
    let c = size_from_fits h.sizes size 0 6 i e in
    kmalloc_small-IsGiven luck size i h c.0 c.1 fresh f

-- From a heap that is well formed, with a mapping that gives an aligned page without a header if it
-- gives one, and for a size that stays below 2 ^ 64 with the header and a page: `kmalloc` follows no null link and leaves the heap well formed; what it returns that is
-- not null is, for a small size, an object of at least that size in its own place of the page, behind
-- the header, and not in the chain of free objects any more, and for a large one the place behind the
-- header of a run of pages that has the size.
pub kmalloc-IsGiven :
    (luck : Luck) (size : ℕ) (h : Heap)
    → size + 4119 < 2 ^ 64
    → IsFresh luck.page h
    → IsFormed h
    → IsGiven size (kmalloc luck size h)
unfolding kmalloc
kmalloc-IsGiven luck size h low fresh f =
    if_either (IsGiven size) (size == 0) (some (none, h))
      (kmalloc_by (size_to_idx size h) luck size h) (λ e. f)
      (λ e. kmalloc_by-IsGiven (size_to_idx size h) luck size h refl low fresh f)
