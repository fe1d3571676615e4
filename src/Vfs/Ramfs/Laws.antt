-- ===== src/Vfs/Ramfs/Laws.antt =====
-- Reading back what was written to a file in memory.
use axiome_os.Prelude.{
  ℕ, zero, suc, ◌+◌, ◌-◌, ◌*◌, ◌%◌, ◌^◌, ◌≤◌, ◌<◌, ◌≡◌, refl, sym, ap, ◌∙◌, inl, inr, true, false,
  some, List, ◌++◌, ltb, leb, ◌==◌, if◌then◌else◌, length, length-append, length-take, length-drop,
  take, drop, take-append, drop-append, take-take, min, arith, Bool-cases, if_either, le_at,
}
use axiome_os.Vfs.Ramfs.{File, double_cap, ramfs_ensure_cap, ramfs_read, overwrite, ramfs_write}

-- Enough doublings are allowed.
double_cap-room :
    (n ncap need : ℕ)
    → 0 < ncap
    → need ≤ 2 ^ 63
    → need ≤ ncap + n
    → (need ≤ double_cap n ncap need) × (ncap ≤ double_cap n ncap need)
unfolding double_cap
double_cap-room zero ncap need pos low le = (omega arith, omega arith)
double_cap-room (suc n) ncap need pos low le =
    if_either (λ x. (need ≤ x) × (ncap ≤ x)) (ltb ncap need) _ _
      (λ u.
        let e : ncap * 2 % 2 ^ 64 ≡ ncap * 2 = ground arith in
        let r = double_cap-room n (ncap * 2) need (omega arith) low (omega arith) in
        rw e (r.0, omega (arith, r.1)))
      (λ u. (ground arith, omega arith))

-- The file's size lies within its cells.
unfoldable pub IsSized : File → Type 0
IsSized f = f.size ≤ length f.bytes

-- What `ramfs_ensure_cap` gives where there is memory.
Grown : File → ℕ → File → Type 0
Grown f need g =
    (g.is_file ≡ f.is_file)
    × (g.size ≡ f.size)
    × (need ≤ length g.bytes)
    × (f.size ≤ length g.bytes)
    × (take f.size g.bytes ≡ take f.size f.bytes)

Grown-ramfs_ensure_cap :
    (fresh : ℕ → List ℕ) (f : File) (need : ℕ)
    → ((n : ℕ) → length (fresh n) ≡ n)
    → need ≤ 2 ^ 63
    → IsSized f
    → (g : File) × ((ramfs_ensure_cap (λ n. some (fresh n)) f need ≡ some g) × Grown f need g)
unfolding ramfs_ensure_cap IsSized Grown
Grown-ramfs_ensure_cap fresh f need mem low sized =
    let cap = length f.bytes in
    let start = if cap == 0 then 64 else cap in
    let ncap = double_cap need start need in
    let pos =
      if_either (λ x. (0 < x) × (cap ≤ x)) (cap == 0) 64 cap (λ u. (omega arith, ground arith))
        (λ u. (ground arith, omega arith)) in
    let room = double_cap-room need start need pos.0 low (omega arith) in
    let old = take f.size f.bytes in
    let added = drop f.size (fresh ncap) in
    let total : length (old ++ added) ≡ ncap =
      length-append old added
      ∙ omega (
        arith,
        length-take f.size f.bytes,
        length-drop f.size (fresh ncap),
        mem ncap,
        room.1,
        pos.1,
      ) in
    elim (Bool-cases (leb need cap)) [
      | inl l ↦ rw l (f, (refl, (refl, refl, le_at need cap l, sized, refl)))
      | inr l ↦ rw l (
        record f { bytes = old ++ added },
        (
          refl,
          (
            refl,
            refl,
            omega (arith, total, room.0),
            omega (arith, total, room.1, pos.1),
            take-append f.size old added (omega (arith, length-take f.size f.bytes)),
          ),
        ),
      )
    ]

length-overwrite :
    (bytes : List ℕ) (off : ℕ) (buf : List ℕ)
    → off + length buf ≤ length bytes
    → length (overwrite bytes off buf) ≡ length bytes
unfolding overwrite
length-overwrite bytes off buf le =
    let rest = drop (off + length buf) bytes in
    length-append (take off bytes) (buf ++ rest)
    ∙ omega
        (arith, length-append buf rest, length-take off bytes, length-drop (off + length buf) bytes)

drop-overwrite :
    (bytes : List ℕ) (off : ℕ) (buf : List ℕ)
    → off + length buf ≤ length bytes
    → take (length buf) (drop off (overwrite bytes off buf)) ≡ buf
unfolding overwrite
drop-overwrite bytes off buf le =
    let rest = drop (off + length buf) bytes in
    rw (drop-append off (take off bytes) (buf ++ rest) (omega (arith, length-take off bytes)))
      (take-append (length buf) buf rest refl)

take-overwrite :
    (bytes : List ℕ) (off : ℕ) (buf : List ℕ)
    → off + length buf ≤ length bytes
    → take off (overwrite bytes off buf) ≡ take off bytes
unfolding overwrite
take-overwrite bytes off buf le =
    take-append off (take off bytes) (buf ++ drop (off + length buf) bytes)
      (omega (arith, length-take off bytes))

read_whole :
    (g : File) (off len : ℕ)
    → g.is_file ≡ true
    → 0 < len
    → off + len ≤ g.size
    → ramfs_read g off len ≡ take len (drop off g.bytes)
unfolding ramfs_read
read_whole g off len file pos le =
    let short : leb g.size off ≡ false = ground arith in
    rw (file, short)
      (if_either (λ n. take n (drop off g.bytes) ≡ take len (drop off g.bytes))
        (ltb len (g.size - off)) len (g.size - off) (λ u. refl)
        (λ u. let e : g.size - off ≡ len = ground arith in rw e refl))

-- The file after a write into `g`.
written : File → ℕ → List ℕ → File
written g off buf = record g {
  bytes = overwrite g.bytes off buf;
  size = if ltb g.size (off + length buf) then off + length buf else g.size;
}

ramfs_write-written :
    (fresh : ℕ → List ℕ) (f g : File) (off : ℕ) (buf : List ℕ)
    → f.is_file ≡ true
    → off + length buf < 2 ^ 64
    → ramfs_ensure_cap (λ n. some (fresh n)) f (off + length buf) ≡ some g
    → ramfs_write (λ n. some (fresh n)) f off buf ≡ (written g off buf, length buf)
unfolding ramfs_write written
ramfs_write-written fresh f g off buf file lt got =
    let e : (off + length buf) % 2 ^ 64 ≡ off + length buf = omega arith in
    rw (e, got, file, e) refl

written_lem :
    (f g : File) (off : ℕ) (buf : List ℕ)
    → f.is_file ≡ true
    → 0 < length buf
    → Grown f (off + length buf) g
    → (ramfs_read (written g off buf) off (length buf) ≡ buf)
      × ((written g off buf).size
          ≡ (if ltb f.size (off + length buf) then off + length buf else f.size))
      × IsSized (written g off buf)
      × (take (min off f.size) (written g off buf).bytes ≡ take (min off f.size) f.bytes)
unfolding IsSized Grown written
written_lem f g off buf file pos (isf, size, room, cells, keep) =
    let m = min off f.size in
    let w = overwrite g.bytes off buf in
    let kept : take m w ≡ take m f.bytes =
      sym (take-take m off w (omega arith))
      ∙ ap (take m) (take-overwrite g.bytes off buf room)
      ∙ take-take m off g.bytes (omega arith)
      ∙ sym (take-take m f.size g.bytes (omega arith))
      ∙ ap (take m) keep
      ∙ take-take m f.size f.bytes (omega arith) in
    let bounds =
      if_either (λ x. (off + length buf ≤ x) × (x ≤ length g.bytes)) (ltb g.size (off + length buf))
        (off + length buf) g.size (λ u. (omega arith, room)) (λ u. (ground arith, omega arith)) in
    (
      read_whole (written g off buf) off (length buf) (isf ∙ file) pos bounds.0
          ∙ drop-overwrite g.bytes off buf room,
      ap (λ x. if ltb x (off + length buf) then off + length buf else x) size,
      omega (arith, bounds.1, length-overwrite g.bytes off buf room),
      kept,
    )

-- For each file whose size lies within its cells, each non-empty buffer and offset whose sum is at
-- most 2 ^ 63, and memory that is never refused: `ramfs_write` returns the buffer's length, a read
-- of so many bytes at the offset gives the buffer back, the size is the larger of the old one and the
-- end of the write and lies within the cells again, and the bytes that the file had before the offset stay.
pub ramfs_read-ramfs_write :
    (fresh : ℕ → List ℕ) (f : File) (off : ℕ) (buf : List ℕ)
    → ((n : ℕ) → length (fresh n) ≡ n)
    → f.is_file ≡ true
    → IsSized f
    → 0 < length buf
    → off + length buf ≤ 2 ^ 63
    → let w = ramfs_write (λ n. some (fresh n)) f off buf in
      (w.1 ≡ length buf)
      × (ramfs_read w.0 off (length buf) ≡ buf)
      × (w.0.size ≡ (if ltb f.size (off + length buf) then off + length buf else f.size))
      × IsSized w.0
      × (take (min off f.size) w.0.bytes ≡ take (min off f.size) f.bytes)
unfolding Grown
ramfs_read-ramfs_write fresh f off buf mem file sized pos le =
    let (g, (got, grown)) = Grown-ramfs_ensure_cap fresh f (off + length buf) mem le sized in
    let (read, size, sized_after, kept) = written_lem f g off buf file pos grown in
    rw (ramfs_write-written fresh f g off buf file (omega arith) got)
      (refl, read, size, sized_after, kept)
