-- ===== src/Slab/Laws.antt =====
-- What holds of the slabs of kernel/slab.c at all times: their counts are those of their chains, and
-- the free objects lie in the page behind the header, each in a place of its own.
use mathlib.Core.Path.{subst}
use native.Mathlib.Nat.{mul-le-mul_right, suc-mul}
use axiome_os.Prelude.{
  ℕ, zero, suc, ◌+◌, ◌*◌, ◌%◌, ◌^◌, ◌<◌, ◌≤◌, ◌≡◌, refl, sym, ap, inl, inr, true, false, Option,
  none, some, List, [], ◌∷◌, length, arith, leb, ◌==◌, ==_iff, Bool-cases, if_either, le_at, gt_at,
}
use axiome_os.Prelude.Members.{is_in, AreDistinct, or_cases}
use axiome_os.Slab.{Slab, Header, nothing, small, large, Heap, put, set_cache, fill, pushed}

-- The place of an object: the `index`-th of its page, behind the header.
pub record IsObject (page obj_size obj : ℕ) : Type 0 where
  pub index : ℕ
  pub at : obj ≡ page + index * obj_size
  pub low : 32 ≤ index * obj_size
  pub high : index * obj_size + obj_size ≤ 4096

abbrev pub AreObjects : ℕ → ℕ → List ℕ → Type 0
AreObjects page obj_size [] = Unit {0}
AreObjects page obj_size (o ∷ os) = IsObject page obj_size o × AreObjects page obj_size os

pub record IsSlab (page : ℕ) (s : Slab) : Type 0 where
  pub aligned : page % 4096 ≡ 0
  pub sized : 0 < s.obj_size
  pub counted : s.free_count ≡ length s.free_list
  pub placed : AreObjects page s.obj_size s.free_list
  pub distinct : AreDistinct s.free_list

abbrev pub IsHeader : ℕ → Header → Type 0
IsHeader page nothing = Unit {0}
IsHeader page (small s) = IsSlab page s
IsHeader page (large b) = Unit {0}

-- What a cache starts with is a slab of its size.
abbrev pub IsSmall : ℕ → Header → Type 0
IsSmall size nothing = ⊥
IsSmall size (small s) = s.obj_size ≡ size
IsSmall size (large b) = ⊥

abbrev pub IsCache : ℕ → Option ℕ → (ℕ → Header) → Type 0
IsCache size none headers = Unit {0}
IsCache size (some page) headers = IsSmall size (headers page)

pub record IsFormed (h : Heap) : Type 0 where
  pub sized : (i : ℕ) → i < 6 → h.sizes i ≡ 2 ^ (5 + i)
  pub headed : (page : ℕ) → IsHeader page (h.headers page)
  pub cached : (i : ℕ) → i < 6 → IsCache (h.sizes i) (h.caches i) h.headers

-- Two objects of a page do not overlap.
pub objects_apart :
    (page size a b : ℕ) → IsObject page size a → IsObject page size b → a < b → a + size ≤ b
objects_apart page size a b x y lt = elim (Bool-cases (leb y.index x.index)) [
  | inl e ↦
      let back : y.index * size ≤ x.index * size =
        mul-le-mul_right size (le_at y.index x.index e) in
      absurd (omega (arith, x.at, y.at))
  | inr e ↦
      let more : suc x.index * size ≤ y.index * size =
        mul-le-mul_right size (gt_at y.index x.index e) in
      omega (arith, x.at, y.at, suc-mul x.index size)
]

pub cached_put :
    (page size : ℕ) (x : Header) (c : Option ℕ) (h : Heap)
    → (IsSmall size (h.headers page) → IsSmall size x)
    → IsCache size c h.headers
    → IsCache size c (put page x h).headers
unfolding put
cached_put page size x none h k v = tt
cached_put page size x (some p) h k v =
    if_either (IsSmall size) (p == page) x (h.headers p)
      (λ e. k (subst (λ q. IsSmall size (h.headers q)) ((==_iff p page).0 e) v)) (λ e. v)

-- A header in the place of another, that of a slab of the same size if that is one.
pub put-IsFormed :
    (page : ℕ) (x : Header) (h : Heap)
    → IsHeader page x
    → ((size : ℕ) → IsSmall size (h.headers page) → IsSmall size x)
    → IsFormed h
    → IsFormed (put page x h)
unfolding put
put-IsFormed page x h v k f = record {
  sized = f.sized;
  headed = λ j.
      if_either (IsHeader j) (j == page) x (h.headers j)
        (λ e. subst (λ p. IsHeader p x) (sym ((==_iff j page).0 e)) v) (λ e. f.headed j);
  cached = λ i lt. cached_put page (h.sizes i) x (h.caches i) h (k (h.sizes i)) (f.cached i lt);
}

pub set_cache-IsFormed :
    (idx : ℕ) (c : Option ℕ) (h : Heap)
    → (idx < 6 → IsCache (h.sizes idx) c h.headers)
    → IsFormed h
    → IsFormed (set_cache idx c h)
unfolding set_cache
set_cache-IsFormed idx c h v f = record {
  sized = f.sized;
  headed = f.headed;
  cached = λ i lt.
      if_either (λ o. IsCache (h.sizes i) o h.headers) (i == idx) c (h.caches i)
        (λ e.
          let same = (==_iff i idx).0 e in
          subst (λ q. IsCache (h.sizes q) c h.headers) (sym same) (v (omega (arith, same))))
        (λ e. f.cached i lt);
}

-- An object that comes to the front of the chain.
pub pushed-IsSlab :
    (page obj : ℕ) (s : Slab)
    → IsSlab page s
    → IsObject page s.obj_size obj
    → is_in obj s.free_list ≡ false
    → IsSlab page (pushed obj s)
unfolding pushed
pushed-IsSlab page obj s v o out = record {
  aligned = v.aligned;
  sized = v.sized;
  counted = ap suc v.counted;
  placed = (o, v.placed);
  distinct = (out, v.distinct);
}

-- The objects that a new slab is filled with.
pub filled-IsSlab :
    (page count k obj_size : ℕ) (s : Slab)
    → IsSlab page s
    → s.obj_size ≡ obj_size
    → 32 ≤ k * obj_size
    → (k + count) * obj_size ≤ 4096
    → ((o : ℕ) → is_in o s.free_list ≡ true → o < page + k * obj_size)
    → IsSlab page (fill count (page + k * obj_size) obj_size s)
unfolding fill is_in pushed
filled-IsSlab page zero k obj_size s v e low high below = v
filled-IsSlab page (suc count) k obj_size s v e low high below =
    let cur = page + k * obj_size in
    let next : page + suc k * obj_size ≡ cur + obj_size = omega (arith, suc-mul k obj_size) in
    let placed : IsObject page obj_size cur = record {
      index = k;
      at = refl;
      low = low;
      high =
          let fits : suc k * obj_size ≤ (k + suc count) * obj_size =
            mul-le-mul_right obj_size (let l : suc k ≤ k + suc count = omega arith in l) in
          omega (arith, suc-mul k obj_size);
    } in
    let longer : IsSlab page (pushed cur s) =
      pushed-IsSlab page cur s v (subst (λ z. IsObject page z cur) (sym e) placed)
        (elim (Bool-cases (is_in cur s.free_list)) [
          | inl m ↦ absurd (omega (arith, below cur m))
          | inr m ↦ m
        ]) in
    subst (λ c. IsSlab page (fill count c obj_size (pushed cur s))) next
      (filled-IsSlab page count (suc k) obj_size (pushed cur s) longer e
        (omega (arith, suc-mul k obj_size))
        (let same : (k + suc count) * obj_size ≡ (suc k + count) * obj_size =
            ap (λ c. c * obj_size) (omega arith) in
          omega (arith, same))
        (λ o m. elim (or_cases (cur == o) (is_in o s.free_list) m) [
          | inl here ↦ omega (arith, (==_iff cur o).0 here, next, v.sized, e)
          | inr there ↦ omega (arith, below o there, next)
        ]))
