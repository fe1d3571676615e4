-- ===== src/Vfs/Ramfs.antt =====
-- The files of the filesystem in memory of kernel/vfs.c, and the read of a whole file.
pub mod Laws
use axiome_os.Prelude.{
  ℕ, zero, suc, ◌+◌, ◌-◌, ◌*◌, ◌%◌, ◌^◌, Bool, true, false, not, ◌||◌, Option, none, some, List, [],
  ◌∷◌, ◌++◌, ltb, leb, ◌==◌, if◌then◌else◌, length, take, drop, replicate,
}

-- What these functions use of `struct vnode`: `bytes` is `data`, with `cap` cells.
pub record File : Type 0 where
  pub is_file : Bool
  pub bytes : List ℕ
  pub size : ℕ

-- `while (ncap < need) ncap *= 2`, at most `n` times. For a need above 2 ^ 63 the capacity comes to 0
-- and the loop does not end; what the fuel gives then is not what the code does.
pub double_cap : ℕ → ℕ → ℕ → ℕ
double_cap zero ncap need = ncap
double_cap (suc n) ncap need = if ltb ncap need then double_cap n (ncap * 2 % 2 ^ 64) need else ncap

-- `fresh` is what `kmalloc` returns for so many bytes: their contents, or nothing.
pub ramfs_ensure_cap : (ℕ → Option (List ℕ)) → File → ℕ → Option File
ramfs_ensure_cap fresh f need =
    let cap = length f.bytes in
    if leb need cap
    then some f
    else let ncap = double_cap need (if cap == 0 then 64 else cap) need in
      elim (fresh ncap) [
        | none ↦ none
        | some nd ↦ some (record f { bytes = take f.size f.bytes ++ drop f.size nd })
      ]

-- The bytes that are read.
pub ramfs_read : File → ℕ → ℕ → List ℕ
ramfs_read f off len =
    if not f.is_file
    then []
    else if leb f.size off
    then []
    else let avail = f.size - off in take (if ltb len avail then len else avail) (drop off f.bytes)

-- `data[off + i] = buf[i]`
pub overwrite : List ℕ → ℕ → List ℕ → List ℕ
overwrite bytes off buf = take off bytes ++ (buf ++ drop (off + length buf) bytes)

-- The file afterwards and the result. Where the end wraps, the code writes outside the cells, which
-- the model does not follow.
pub ramfs_write : (ℕ → Option (List ℕ)) → File → ℕ → List ℕ → File × ℕ
ramfs_write fresh f off buf =
    let len = length buf in
    let end = (off + len) % 2 ^ 64 in
    if not f.is_file then (f, 0) else elim (ramfs_ensure_cap fresh f end) [
      | none ↦ (f, 0)
      | some g ↦ (
        record g {
          bytes = overwrite g.bytes off buf;
          size = if ltb g.size end then end else g.size;
        },
        len,
      )
    ]
