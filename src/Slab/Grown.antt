-- ===== src/Slab/Grown.antt =====
-- A slab that kernel/slab.c adds to a cache is well formed.
use mathlib.Core.Path.{subst}
use axiome_os.Prelude.{
  ℕ, zero, suc, ◌+◌, ◌-◌, ◌*◌, ◌/◌, ◌%◌, ◌^◌, ◌<◌, ◌≤◌, ◌≡◌, refl, sym, Option, none, some, [],
  arith,
}
use axiome_os.Prelude.Members.{is_in, ==_self}
use axiome_os.Slab.{
  Slab, Header, nothing, small, large, Heap, put, data_start, fill, new_slab, grow_on,
}
use axiome_os.Slab.Laws.{IsSlab, IsSmall, IsFormed, put-IsFormed, set_cache-IsFormed, filled-IsSlab}

-- The objects of each size fit in the page.
pub fits :
    (i : ℕ)
    → i < 6
    → (32 ≤ (32 + 2 ^ (5 + i) - 1) / 2 ^ (5 + i) * 2 ^ (5 + i))
      × (((32 + 2 ^ (5 + i) - 1) / 2 ^ (5 + i)
              + (4096 - (32 + 2 ^ (5 + i) - 1) / 2 ^ (5 + i) * 2 ^ (5 + i)) / 2 ^ (5 + i))
            * 2 ^ (5 + i)
          ≤ 4096)
      × (0 < 2 ^ (5 + i))
fits zero lt = (omega arith, omega arith, omega arith)
fits (suc zero) lt = (omega arith, omega arith, omega arith)
fits (suc (suc zero)) lt = (omega arith, omega arith, omega arith)
fits (suc (suc (suc zero))) lt = (omega arith, omega arith, omega arith)
fits (suc (suc (suc (suc zero)))) lt = (omega arith, omega arith, omega arith)
fits (suc (suc (suc (suc (suc zero))))) lt = (omega arith, omega arith, omega arith)
fits (suc (suc (suc (suc (suc (suc i)))))) lt = absurd (omega arith)

pub obj_size-fill :
    (count cur obj_size : ℕ) (s : Slab) → (fill count cur obj_size s).obj_size ≡ s.obj_size
unfolding fill
obj_size-fill zero cur obj_size s = refl
obj_size-fill (suc count) cur obj_size s = obj_size-fill count (cur + obj_size) obj_size _

pub new_slab-IsSlab :
    (page i : ℕ) (next : Option ℕ)
    → i < 6
    → page % 4096 ≡ 0
    → IsSlab page (new_slab page (2 ^ (5 + i)) next)
unfolding new_slab data_start is_in
new_slab-IsSlab page i next lt al =
    let f = fits i lt in
    let size = 2 ^ (5 + i) in
    filled-IsSlab page ((4096 - (32 + size - 1) / size * size) / size) ((32 + size - 1) / size) size
      (record { next = next; free_list = []; obj_size = size; free_count = 0 })
      (record { aligned = al; sized = f.2; counted = refl; placed = tt; distinct = tt }) refl f.0
      f.1 (λ o m. absurd (ground arith))

pub obj_size-new_slab :
    (page size : ℕ) (next : Option ℕ) → (new_slab page size next).obj_size ≡ size
unfolding new_slab
obj_size-new_slab page size next = obj_size-fill _ _ size _

pub put_self : (page : ℕ) (x : Header) (h : Heap) → (put page x h).headers page ≡ x
unfolding put
put_self page x h = rw (==_self page) refl

-- The mapping gives a page that is aligned and has no header yet.
abbrev pub IsFresh : Option ℕ → Heap → Type 0
IsFresh none h = Unit {0}
IsFresh (some page) h = (page % 4096 ≡ 0) × (h.headers page ≡ nothing)

pub no_small : (x : Header) (size : ℕ) → x ≡ nothing → IsSmall size x → ⊥
no_small nothing size e v = v
no_small (small s) size e v = absurd (ground arith)
no_small (large b) size e v = v

pub slab_grow-IsFormed :
    (frame page : Option ℕ) (i : ℕ) (h : Heap)
    → i < 6
    → IsFresh page h
    → IsFormed h
    → IsFormed (grow_on frame page i h)
unfolding grow_on put
slab_grow-IsFormed none page i h lt v f = f
slab_grow-IsFormed (some phys) none i h lt v f = record {
  sized = f.sized;
  headed = f.headed;
  cached = f.cached;
}
slab_grow-IsFormed (some phys) (some page) i h lt v f =
    let s : Slab = new_slab page (h.sizes i) (h.caches i) in
    let sound : IsSlab page s =
      subst (λ z. IsSlab page (new_slab page z (h.caches i))) (sym (f.sized i lt))
        (new_slab-IsSlab page i (h.caches i) lt v.0) in
    set_cache-IsFormed i (some page) (put page (small s) h)
      (λ l.
        subst (IsSmall ((put page (small s) h).sizes i)) (sym (put_self page (small s) h))
          (obj_size-new_slab page (h.sizes i) (h.caches i)))
      (put-IsFormed page (small s) h sound (λ size w. absurd (no_small (h.headers page) size v.1 w))
        f)
