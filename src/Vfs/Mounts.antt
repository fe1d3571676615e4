-- ===== src/Vfs/Mounts.antt =====
-- The mount table of kernel/vfs.c: the list of the first `g_nmounts` entries of `g_mounts`.
pub mod Laws
use axiome_os.Prelude.{
  ℕ, zero, suc, ◌+◌, ◌-◌, Bool, true, false, not, ◌&&◌, ◌||◌, Option, none, some, List, [], ◌∷◌,
  ◌++◌, ltb, leb, ◌==◌, if◌then◌else◌, length, get_or, drop,
}
use axiome_os.Prelude.Int.{is_zero}
use axiome_os.KString.{first, next}
use axiome_os.Vfs.Paths.{vstrlen, vstrcmp, vstrncpy, vstrncmp_prefix, max_name, absolutize}

-- `struct vfs_super` without its operations, which the type stands for. `root` is the number of the
-- root's vnode.
pub record Super : Type 0 where
  pub mountpoint : List ℕ
  pub fs_type : ℕ
  pub root : ℕ

abbrev pub max_mounts : ℕ
max_mounts = 8

-- The new table and entry, whose root is not set.
pub vfs_mount : List Super → List ℕ → ℕ → List Super × Option Super
vfs_mount ms mountpoint fs_type =
    if leb max_mounts (length ms)
    then (ms, none)
    else let sb : Super = record {
      mountpoint = vstrncpy mountpoint max_name;
      fs_type = fs_type;
      root = 0;
    } in
      (ms ++ sb ∷ [], some sb)

-- Whether the body of the loop compares the entry with the best one. `mountpoint[m - 1]` of an
-- empty mount point, which no caller passes, is read as 0.
unfoldable pub is_candidate : List ℕ → List ℕ → Bool
is_candidate abs mountpoint =
    let m = vstrlen mountpoint in
    is_zero (vstrcmp abs mountpoint)
    || (vstrncmp_prefix abs mountpoint m
        && (get_or mountpoint (m - 1) 0 == b'/' || (get_or abs m 0 == b'/') || (m == 1)))

-- The loop with `best` and `bestlen`.
pub find_best : List ℕ → List Super → Option Super → ℕ → Option Super
find_best abs [] best bestlen = best
find_best abs (sb ∷ ms) best bestlen =
    let m = vstrlen sb.mountpoint in
    let taken = find_best abs ms (some sb) m in
    let kept = find_best abs ms best bestlen in
    if is_candidate abs sb.mountpoint then (if leb bestlen m then taken else kept) else kept

pub mount_find : List Super → List ℕ → Option Super
mount_find ms abs = find_best abs ms none 0

-- `rel`: the path below the mount point.
pub relative : List ℕ → List ℕ → List ℕ
relative abs mountpoint =
    let rel = drop (vstrlen mountpoint) abs in if first rel == b'/' then next rel else rel

-- `lookup` is the filesystem's own: from an entry and a path below its mount point to a vnode. The
-- count of references is left out.
pub vfs_lookup : (Super → List ℕ → Option ℕ) → List Super → List ℕ → List ℕ → Option ℕ
vfs_lookup lookup ms path cwd =
    let abs = absolutize path cwd in
    elim (mount_find ms abs) [
      | none ↦ none
      | some sb ↦
          let rel = relative abs sb.mountpoint in
          if first rel == 0 then some sb.root else lookup sb rel
    ]

-- The first entry with this mount point.
pub find_index : List Super → List ℕ → Option ℕ
find_index [] mountpoint = none
find_index (sb ∷ ms) mountpoint =
    if is_zero (vstrcmp sb.mountpoint mountpoint)
    then some 0
    else elim (find_index ms mountpoint) [ none ↦ none | some i ↦ some (suc i) ]

pub remove_at : List Super → ℕ → List Super
remove_at [] i = []
remove_at (sb ∷ ms) zero = ms
remove_at (sb ∷ ms) (suc i) = sb ∷ remove_at ms i

-- The table afterwards and whether the call succeeds. Entry 0 is the root's; `busy` says of an entry
-- whether the running process has a file open in it.
pub vfs_umount : (ℕ → Bool) → List Super → List ℕ → List Super × Bool
vfs_umount busy ms mountpoint = elim (find_index ms mountpoint) [
  | none ↦ (ms, false)
  | some i ↦ if i == 0 || busy i then (ms, false) else (remove_at ms i, true)
]
