-- ===== src/Libc/Malloc/Restores.antt =====
-- Allocation and release undo each other.
use axiome_os.Prelude.{
  ℕ, ◌+◌, ◌-◌, ◌%◌, ◌^◌, ◌<◌, ◌≤◌, ◌≡◌, ◌≢◌, refl, sym, ap, ◌∙◌, Bool, true, false, ◌&&◌, Option,
  none, some, List, [], ◌∷◌, leb, le_at, ◌==◌, ==_iff, if_either, arith, and_left, and_right,
}
use axiome_os.Libc.Malloc.{
  Block, header_size, align16, init_heap, split_block, claim, keep, alloc_from, malloc, merge_from,
  merge_free_blocks, free_at, free,
}

-- No two neighbours are both free.
abbrev pub AreMerged : List Block → Type 0
AreMerged [] = Unit {0}
AreMerged (b ∷ []) = Unit {0}
AreMerged (b ∷ c ∷ cs) = (b.free && c.free ≡ false) × AreMerged (c ∷ cs)

-- The bytes of the blocks with their headers.
unfoldable pub total : List Block → ℕ
total [] = 0
total (b ∷ bs) = header_size + b.size + total bs

head_free : List Block → Bool
head_free [] = false
head_free (b ∷ bs) = b.free

and_no : (b : Bool) → b && false ≡ false
and_no true = refl
and_no false = refl

AreMerged-tail : (b : Block) (bs : List Block) → AreMerged (b ∷ bs) → AreMerged bs
AreMerged-tail b [] h = tt
AreMerged-tail b (c ∷ cs) h = h.1

AreMerged-head : (b : Block) (bs : List Block) → AreMerged (b ∷ bs) → b.free && head_free bs ≡ false
unfolding head_free
AreMerged-head b [] h = and_no b.free
AreMerged-head b (c ∷ cs) h = h.0

merge_next :
    (b : Block) (bs : List Block)
    → b.free && head_free bs ≡ false
    → merge_free_blocks (b ∷ bs) ≡ b ∷ merge_free_blocks bs
unfolding merge_free_blocks merge_from head_free
merge_next b [] h = refl
merge_next b (c ∷ cs) h = rw h refl

merge_nil : merge_free_blocks [] ≡ []
unfolding merge_free_blocks
merge_nil = refl

merge_fixed : (bs : List Block) → AreMerged bs → merge_free_blocks bs ≡ bs
merge_fixed [] h = merge_nil
merge_fixed (b ∷ bs) h =
    merge_next b bs (AreMerged-head b bs h)
    ∙ ap (λ r. b ∷ r) (merge_fixed bs (AreMerged-tail b bs h))

-- What is left of the blocks by an allocation: nothing has changed, or a block behind the first
-- header is allocated, and its release gives the blocks back.
Restores : ℕ → List Block → Option ℕ × List Block → Type 0
Restores pos bs (none, cs) = cs ≡ bs
Restores pos bs (some p, cs) =
    (pos + header_size ≤ p)
    × (head_free (free_at p pos cs) ≡ head_free bs)
    × (merge_free_blocks (free_at p pos cs) ≡ bs)

-- A free block of that size.
abbrev free_block : ℕ → Block
free_block n = record { size = n; free = true }

free_at_here :
    (pos : ℕ) (b : Block) (bs : List Block)
    → free_at (pos + header_size) pos (claim (b ∷ bs)) ≡ free_block b.size ∷ bs
unfolding free_at claim
free_at_here pos b bs = rw ((==_iff (pos + header_size) (pos + header_size)).1 refl) refl

merge_two :
    (size rest : ℕ) (bs : List Block)
    → merge_free_blocks (free_block size ∷ free_block rest ∷ bs)
      ≡ merge_free_blocks (free_block (size + header_size + rest) ∷ bs)
unfolding merge_free_blocks merge_from
merge_two size rest bs = refl

-- Allocating in a free block and releasing leaves a free block at the head, and merges to the same.
Restores_split :
    (pos size : ℕ) (b : Block) (bs : List Block)
    → size ≤ b.size
    → b.size < 2 ^ 63
    → (head_free (free_at (pos + header_size) pos (claim (split_block b size bs))) ≡ true)
      × (merge_free_blocks (free_at (pos + header_size) pos (claim (split_block b size bs)))
          ≡ merge_free_blocks (free_block b.size ∷ bs))
unfolding split_block head_free
Restores_split pos size b bs le small =
    if_either
      (λ l.
        (head_free (free_at (pos + header_size) pos (claim l)) ≡ true)
        × (merge_free_blocks (free_at (pos + header_size) pos (claim l))
            ≡ merge_free_blocks (free_block b.size ∷ bs)))
      (leb ((size + header_size + 16) % 2 ^ 64) b.size) _ (b ∷ bs)
      (λ e.
        let room = le_at ((size + header_size + 16) % 2 ^ 64) b.size e in
        let same : size + header_size + (b.size - size - header_size) ≡ b.size = omega arith in
        let here =
          free_at_here pos (record b { size = size })
            (free_block (b.size - size - header_size) ∷ bs) in
        (
          ap head_free here,
          ap merge_free_blocks here
              ∙ merge_two size (b.size - size - header_size) bs
              ∙ ap (λ k. merge_free_blocks (free_block k ∷ bs)) same,
        ))
      (λ e. (ap head_free (free_at_here pos b bs), ap merge_free_blocks (free_at_here pos b bs)))

Restores-here :
    (pos size : ℕ) (b : Block) (bs : List Block)
    → AreMerged (b ∷ bs)
    → b.free ≡ true
    → size ≤ b.size
    → b.size < 2 ^ 63
    → Restores pos (b ∷ bs) (some (pos + header_size), claim (split_block b size bs))
unfolding Restores head_free
Restores-here pos size b bs h f le small =
    let r = Restores_split pos size b bs le small in
    let full : free_block b.size ≡ b = λ i. record { size = b.size; free = sym f i } in
    (
      omega arith,
      r.0 ∙ sym f,
      r.1 ∙ ap (λ c. merge_free_blocks (c ∷ bs)) full ∙ merge_fixed (b ∷ bs) h,
    )

-- The release of a block that stands behind leaves the block at `pos`.
Restores-keep :
    (pos : ℕ) (b : Block) (bs : List Block) (r : Option ℕ × List Block)
    → AreMerged (b ∷ bs)
    → Restores (pos + header_size + b.size) bs r
    → Restores pos (b ∷ bs) (keep b r)
unfolding Restores free_at head_free
Restores-keep pos b bs (none, cs) h r = ap (λ l. b ∷ l) r
Restores-keep pos b bs (some p, cs) h r =
    let low = r.0 in
    let ne : pos + header_size == p ≡ false = ground arith in
    let q = pos + header_size + b.size in
    rw ne (
      omega arith,
      refl,
      merge_next b (free_at p q cs) (ap (λ f. b.free && f) r.1 ∙ AreMerged-head b bs h)
          ∙ ap (λ l. b ∷ l) r.2,
    )

Restores-alloc_from :
    (pos size : ℕ) (bs : List Block)
    → AreMerged bs
    → total bs < 2 ^ 63
    → Restores pos bs (alloc_from pos size bs)
unfolding alloc_from total Restores
Restores-alloc_from pos size [] h small = refl
Restores-alloc_from pos size (b ∷ bs) h small =
    if_either (Restores pos (b ∷ bs)) (b.free && leb size b.size)
      (some (pos + header_size), claim (split_block b size bs))
      (keep b (alloc_from (pos + header_size + b.size) size bs))
      (λ e.
        Restores-here pos size b bs h (and_left b.free (leb size b.size) e)
          (le_at size b.size (and_right b.free (leb size b.size) e)) (omega arith))
      (λ e. Restores-keep pos b bs (alloc_from (pos + header_size + b.size) size bs) h (
        Restores-alloc_from (pos + header_size + b.size) size bs (AreMerged-tail b bs h)
          (omega arith)))

free_back : (bs : List Block) (r : Option ℕ × List Block) → Restores 0 bs r → free r.0 r.1 ≡ bs
unfolding Restores free
free_back bs (none, cs) h = h
free_back bs (some p, cs) h = h.2

pub not_zero : (n : ℕ) → n ≢ 0 → n == 0 ≡ false
not_zero n ne = ground arith

-- For each heap whose neighbours are not both free, of fewer than 2^63 bytes: `free` of what `malloc`
-- gives leaves the heap as it was, set up, whether or not there was room.
pub free-malloc :
    (n : ℕ) (bs : List Block)
    → AreMerged (init_heap bs)
    → total (init_heap bs) < 2 ^ 63
    → n ≢ 0
    → free (malloc n bs).0 (malloc n bs).1 ≡ init_heap bs
unfolding malloc free
free-malloc n bs h small ne = rw (not_zero n ne) (
    free_back (init_heap bs) (alloc_from 0 (align16 n) (init_heap bs))
      (Restores-alloc_from 0 (align16 n) (init_heap bs) h small))
