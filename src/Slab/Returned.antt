-- ===== src/Slab/Returned.antt =====
-- What `kfree` of kernel/slab.c does with an address that `kmalloc` gave.
use mathlib.Core.Path.{subst, fun_ext}
use axiome_os.Prelude.{
  ℕ, suc, ◌-◌, ◌<◌, ◌≡◌, refl, sym, ap, ◌∙◌, inl, inr, true, false, Option, none, some, List, [],
  ◌∷◌, length, arith, ◌==◌, ==_iff, if◌then◌else◌, Bool-cases, lt_at,
}
use axiome_os.Slab.{
  Slab, Header, nothing, small, large, Heap, Luck, put, slab_grow, size_to_idx, header_at, has_room,
  popped, take_object, take_slab, take_first, take_if_room, kmalloc_small, kmalloc_by, kmalloc,
  pushed, kfree_at, page_of, kfree,
}
use axiome_os.Slab.Laws.{
  AreObjects, IsSlab, IsHeader, IsSmall, IsFormed, put-IsFormed, pushed-IsSlab,
}
use axiome_os.Slab.Given.{IsAllocated, page_of-IsObject}
use axiome_os.Slab.Grown.{put_self}

-- The code writes to no page but those of the allocator, and leaves the heap well formed.
abbrev pub IsReturned : Option Heap → Type 0
IsReturned none = ⊥
IsReturned (some m) = IsFormed m

kfree_at-IsReturned :
    (size p : ℕ) (x : Header) (h : Heap)
    → h.headers (page_of p) ≡ x
    → IsHeader (page_of p) x
    → IsAllocated size p x
    → IsFormed h
    → IsReturned (kfree_at p (page_of p) x h)
unfolding kfree_at pushed
kfree_at-IsReturned size p nothing h e v a f = a
kfree_at-IsReturned size p (small s) h e v a f =
    put-IsFormed (page_of p) (small (pushed p s)) h (pushed-IsSlab (page_of p) p s v a.1 a.2)
      (λ z w. subst (IsSmall z) e w) f
kfree_at-IsReturned size p (large b) h e v a f =
    let g : IsFormed (put (page_of p) nothing h) =
      put-IsFormed (page_of p) nothing h tt (λ z w. absurd (subst (IsSmall z) e w)) f in
    record { sized = g.sized; headed = g.headed; cached = g.cached }

-- An address that is in use, of either kind, can be given back in a heap that is well formed, which
-- it stays.
pub kfree-IsReturned :
    (size p : ℕ) (h : Heap)
    → IsAllocated size p (h.headers (page_of p))
    → IsFormed h
    → IsReturned (kfree (some p) h)
unfolding kfree
kfree-IsReturned size p h a f =
    kfree_at-IsReturned size p (h.headers (page_of p)) h refl (f.headed (page_of p)) a f

-- Putting a header over another and then the old one again.
put_back : (page : ℕ) (x y : Header) (h : Heap) → h.headers page ≡ x → put page x (put page y h) ≡ h
unfolding put
put_back page x y h e =
    ap (λ g. record h { headers = g })
      (fun_ext (λ j. elim (Bool-cases (j == page)) [
        | inl f ↦ rw f (sym e ∙ ap h.headers (sym ((==_iff j page).0 f)))
        | inr f ↦ rw f refl
      ]))

-- The pointer goes to the front of the chain.
object_back :
    (page o : ℕ) (m : Heap) (x : Header)
    → m.headers page ≡ x
    → page_of o ≡ page
    → kfree (some o) m ≡ kfree_at o page x m
unfolding kfree
object_back page o m x e here =
    ap (λ q. kfree_at o q (m.headers q) m) here ∙ ap (λ y. kfree_at o page y m) e

-- An address is returned, and giving it back makes the heap what it was.
abbrev pub IsRestored : Option (Option ℕ × Heap) → Heap → Type 0
IsRestored none h = ⊥
IsRestored (some (none, m)) h = ⊥
IsRestored (some (some p, m)) h = kfree (some p) m ≡ some h

slab_back :
    (s : Slab) (o : ℕ) (os : List ℕ)
    → s.free_list ≡ o ∷ os
    → 0 < s.free_count
    → pushed o (popped os s) ≡ s
unfolding pushed popped
slab_back s o os e lt =
    ap (λ l. record s { free_list = l; free_count = suc (s.free_count - 1) }) (sym e)
    ∙ ap (λ c. record s { free_count = c }) (omega arith)

take_object-IsRestored :
    (page : ℕ) (s : Slab) (os : List ℕ) (h : Heap)
    → s.free_list ≡ os
    → h.headers page ≡ small s
    → IsSlab page s
    → 0 < s.free_count
    → IsRestored (take_object page s os h) h
unfolding take_object kfree_at
take_object-IsRestored page s [] h e at v room = absurd (omega (arith, v.counted, ap length e))
take_object-IsRestored page s (o ∷ os) h e at v room =
    let placed : AreObjects page s.obj_size (o ∷ os) =
      subst (AreObjects page s.obj_size) e v.placed in
    let here : page_of o ≡ page = page_of-IsObject page s.obj_size o v.aligned v.sized placed.0 in
    let m : Heap = put page (small (popped os s)) h in
    object_back page o m (small (popped os s)) (put_self page (small (popped os s)) h) here
    ∙ ap some (
        ap (λ t. put page (small t) m) (slab_back s o os e room)
        ∙ put_back page (small s) (small (popped os s)) h at)

take_slab-IsRestored :
    (page : ℕ) (x : Header) (h : Heap)
    → h.headers page ≡ x
    → IsHeader page x
    → has_room x ≡ true
    → IsRestored (take_slab page x h) h
unfolding take_slab has_room
take_slab-IsRestored page nothing h e v room = absurd (ground arith)
take_slab-IsRestored page (small s) h e v room =
    take_object-IsRestored page s s.free_list h refl e v (lt_at 0 s.free_count room)
take_slab-IsRestored page (large b) h e v room = absurd (ground arith)

take_first-IsRestored :
    (c : Option ℕ) (h : Heap)
    → has_room (header_at c h) ≡ true
    → IsFormed h
    → IsRestored (take_first c h) h
unfolding take_first header_at has_room
take_first-IsRestored none h room f = absurd (ground arith)
take_first-IsRestored (some page) h room f =
    take_slab-IsRestored page (h.headers page) h refl (f.headed page) room

-- In a heap that is well formed, where the first slab of the size's cache has a free object:
-- `kmalloc` returns an address, whatever the frame allocator would give, and `kfree` of it makes the
-- heap what it was.
pub kfree-kmalloc :
    (luck : Luck) (size i : ℕ) (h : Heap)
    → 0 < size
    → size_to_idx size h ≡ some i
    → has_room (header_at (h.caches i) h) ≡ true
    → IsFormed h
    → IsRestored (kmalloc luck size h) h
unfolding kmalloc kmalloc_by kmalloc_small take_if_room
kfree-kmalloc luck size i h pos class room f =
    let some_size : (size == 0) ≡ false = ground arith in
    let way : kmalloc luck size h ≡ take_first (h.caches i) h =
      ap (λ b. if b then some (none, h) else kmalloc_by (size_to_idx size h) luck size h) some_size
      ∙ ap (λ o. kmalloc_by o luck size h) class
      ∙ ap (λ b. take_if_room i (if b then h else slab_grow luck i h)) room
      ∙ ap (λ b. if b then take_first (h.caches i) h else some (none, h)) room in
    subst (λ r. IsRestored r h) (sym way) (take_first-IsRestored (h.caches i) h room f)
