-- ===== src/Libc/Malloc/Regions.antt =====
-- The regions that are in use before and after an allocation.
use mathlib.Core.Path.{subst}
use axiome_os.Prelude.{
  ℕ, ◌+◌, ◌-◌, ◌*◌, ◌/◌, ◌%◌, ◌^◌, ◌<◌, ◌≤◌, ◌≡◌, ◌≢◌, refl, ap, Bool, true, false, ◌&&◌, Option,
  none, some, List, [], ◌∷◌, leb, le_at, if◌then◌else◌, if_either, arith, and_left, and_right,
}
use axiome_os.Libc.Malloc.{
  Block, header_size, align16, init_heap, split_block, claim, keep, alloc_from, malloc,
}
use axiome_os.Libc.Malloc.Restores.{total, not_zero}

-- The address and the size of what a caller has.
pub record Region : Type 0 where
  pub start : ℕ
  pub size : ℕ

-- The regions in use, from the block at `pos` on.
pub used_from : ℕ → List Block → List Region
used_from pos [] = []
used_from pos (b ∷ bs) =
    let rest = used_from (pos + header_size + b.size) bs in
    if b.free then rest else record { start = pos + header_size; size = b.size } ∷ rest

-- The regions lie in order between the bounds, none in another.
pub AreApart : ℕ → ℕ → List Region → Type 0
AreApart low high [] = Unit {0}
AreApart low high (r ∷ rs) =
    (low ≤ r.start) × (r.start + r.size ≤ high) × AreApart (r.start + r.size) high rs

-- One list with one region more than another, at any place.
pub data Inserts (r : Region) : List Region → List Region → Type 0 where
  here : (rs : List Region) → Inserts r rs (r ∷ rs)
  there : (q : Region) (rs ss : List Region) → Inserts r rs ss → Inserts r (q ∷ rs) (q ∷ ss)

AreApart-lower :
    (low lower high : ℕ) (rs : List Region)
    → lower ≤ low
    → AreApart low high rs
    → AreApart lower high rs
unfolding AreApart
AreApart-lower low lower high [] le h = tt
AreApart-lower low lower high (r ∷ rs) le h = (omega (arith, h.0), h.1, h.2)

pub AreApart-used_from :
    (pos high : ℕ) (bs : List Block) → pos + total bs ≤ high → AreApart pos high (used_from pos bs)
unfolding AreApart used_from total
AreApart-used_from pos high [] le = tt
AreApart-used_from pos high (b ∷ bs) le =
    let rest = AreApart-used_from (pos + header_size + b.size) high bs (omega arith) in
    if_either (AreApart pos high) b.free _ _
      (λ e. AreApart-lower (pos + header_size + b.size) pos high _ (omega arith) rest)
      (λ e. (omega arith, omega arith, rest))

-- What an allocation of `size` bytes makes of the blocks: all the bytes are there, and if it gives an
-- address, one region more is in use, at that address and as large as asked.
Allocates : ℕ → ℕ → List Block → Option ℕ × List Block → Type 0
Allocates pos size bs (none, cs) = cs ≡ bs
Allocates pos size bs (some p, cs) =
    (total cs ≡ total bs)
    × ((r : Region) × ((r.start ≡ p)
          × (size ≤ r.size)
          × Inserts r (used_from pos bs) (used_from pos cs)))

Allocates-here :
    (pos size : ℕ) (b : Block) (bs : List Block)
    → b.free ≡ true
    → size ≤ b.size
    → b.size < 2 ^ 63
    → Allocates pos size (b ∷ bs) (some (pos + header_size), claim (split_block b size bs))
unfolding Allocates split_block claim total used_from
Allocates-here pos size b bs f le small =
    let region : ℕ → Region = λ k. record { start = pos + header_size; size = k } in
    if_either (λ l. Allocates pos size (b ∷ bs) (some (pos + header_size), claim l))
      (leb ((size + header_size + 16) % 2 ^ 64) b.size) _ (b ∷ bs)
      (λ e.
        let room = le_at ((size + header_size + 16) % 2 ^ 64) b.size e in
        let q = pos + header_size + size + header_size + (b.size - size - header_size) in
        let same : q ≡ pos + header_size + b.size = omega arith in
        rw f (
          omega arith,
          (
            region size,
            (
              refl,
              omega arith,
              subst (λ k. Inserts (region size) (used_from k bs) (region size ∷ used_from q bs))
                  same (here (used_from q bs)),
            ),
          ),
        ))
      (λ e.
        rw f (refl, (region b.size, (refl, le, here (used_from (pos + header_size + b.size) bs)))))

Inserts-skip :
    (b : Bool) (q r : Region) (rs ss : List Region)
    → Inserts r rs ss
    → Inserts r (if b then rs else q ∷ rs) (if b then ss else q ∷ ss)
Inserts-skip true q r rs ss h = h
Inserts-skip false q r rs ss h = there q rs ss h

Allocates-keep :
    (pos size : ℕ) (b : Block) (bs : List Block) (r : Option ℕ × List Block)
    → Allocates (pos + header_size + b.size) size bs r
    → Allocates pos size (b ∷ bs) (keep b r)
unfolding Allocates total used_from
Allocates-keep pos size b bs (none, cs) h = ap (λ l. b ∷ l) h
Allocates-keep pos size b bs (some p, cs) h =
    let x = h.1.0 in
    let k = h.1.1 in
    (ap (λ t. header_size + b.size + t) h.0, (x, (k.0, k.1, Inserts-skip b.free _ x _ _ k.2)))

Allocates-alloc_from :
    (pos size : ℕ) (bs : List Block)
    → total bs < 2 ^ 63
    → Allocates pos size bs (alloc_from pos size bs)
unfolding alloc_from total Allocates
Allocates-alloc_from pos size [] small = refl
Allocates-alloc_from pos size (b ∷ bs) small =
    if_either (Allocates pos size (b ∷ bs)) (b.free && leb size b.size)
      (some (pos + header_size), claim (split_block b size bs))
      (keep b (alloc_from (pos + header_size + b.size) size bs))
      (λ e.
        Allocates-here pos size b bs (and_left b.free (leb size b.size) e)
          (le_at size b.size (and_right b.free (leb size b.size) e)) (omega arith))
      (λ e.
        Allocates-keep pos size b bs (alloc_from (pos + header_size + b.size) size bs)
          (Allocates-alloc_from (pos + header_size + b.size) size bs (omega arith)))

-- What a caller of `malloc` may rely on.
pub Gives : ℕ → List Block → Option ℕ × List Block → Type 0
Gives n bs (none, cs) = cs ≡ bs
Gives n bs (some p, cs) =
    AreApart 0 (total bs) (used_from 0 cs)
    × ((r : Region) × ((r.start ≡ p) × (n ≤ r.size) × Inserts r (used_from 0 bs) (used_from 0 cs)))

Gives-of :
    (n size : ℕ) (bs : List Block) (r : Option ℕ × List Block)
    → n ≤ size
    → Allocates 0 size bs r
    → Gives n bs r
unfolding Gives Allocates
Gives-of n size bs (none, cs) le h = h
Gives-of n size bs (some p, cs) le h =
    let x = h.1.0 in
    let k = h.1.1 in
    (AreApart-used_from 0 (total bs) cs (omega (arith, h.0)), (x, (k.0, omega (arith, k.1), k.2)))

-- For each heap of fewer than 2^63 bytes and each size from 1 to 2^63: if `malloc` gives no address,
-- the heap is as it was, set up; if it gives one, the regions in use are those before and one more at
-- the address, of the size asked for at least, and they all lie apart and in the heap.
pub malloc-AreApart :
    (n : ℕ) (bs : List Block)
    → total (init_heap bs) < 2 ^ 63
    → n ≢ 0
    → n < 2 ^ 63
    → Gives n (init_heap bs) (malloc n bs)
unfolding malloc align16
malloc-AreApart n bs small ne lt = rw (not_zero n ne) (
    Gives-of n ((n + 15) % 2 ^ 64 / 16 * 16) (init_heap bs)
      (alloc_from 0 ((n + 15) % 2 ^ 64 / 16 * 16) (init_heap bs)) (omega arith)
      (Allocates-alloc_from 0 ((n + 15) % 2 ^ 64 / 16 * 16) (init_heap bs) small))
