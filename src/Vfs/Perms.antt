-- ===== src/Vfs/Perms.antt =====
-- The permission checks of kernel/vfs.c. `none` for the running thread is a kernel thread.
pub mod Laws
use axiome_os.Prelude.{
  ℕ, ◌+◌, Bool, true, false, not, ◌&&◌, ◌||◌, Option, none, some, List, bit_and, bit_or, ◌==◌,
  if◌then◌else◌,
}
use axiome_os.Prelude.Int.{ℤ, pos, negsuc}
use axiome_os.Security.Roles.{Thread, is_system, is_guest, cap_file_write_any, cap_file_write_self}
use axiome_os.Vfs.Paths.{vfs_path_is_under_tmp}

-- What the checks read of `struct vnode`.
pub record Owned : Type 0 where
  pub is_file : Bool
  pub v_uid : ℕ
  pub v_gid : ℕ
  pub v_mode : ℕ

-- `(mask & m) && !(mode & bit)`
pub refused : ℕ → ℕ → ℕ → ℕ → Bool
refused mask m mode bit = not (bit_and mask m == 0) && (bit_and mode bit == 0)

-- One of the three blocks, with its bits for reading, writing and executing.
pub check_class : ℕ → ℕ → ℕ → ℕ → ℕ → Bool
check_class mask mode r w x =
    if refused mask 4 mode r
    then false
    else if refused mask 2 mode w
    then false
    else if refused mask 1 mode x
    then false
    else true

-- Whether the result is 0.
pub vfs_check_perms : Option Thread → Owned → ℕ → Bool
vfs_check_perms none n mask = true
vfs_check_perms (some t) n mask =
    if is_system t.role
    then true
    else if t.euid == n.v_uid
    then check_class mask n.v_mode 0o400 0o200 0o100
    else if t.egid == n.v_gid
    then check_class mask n.v_mode 0o040 0o020 0o010
    else check_class mask n.v_mode 0o004 0o002 0o001

abbrev pub write_caps : ℕ
write_caps = bit_or cap_file_write_any cap_file_write_self

-- Whether the result is 0; `dir` is the directory, if there is one.
pub vfs_gate_write_file : Option Thread → List ℕ → Option Owned → Bool
vfs_gate_write_file none abs dir = true
vfs_gate_write_file (some t) abs dir =
    if is_system t.role
    then true
    else if is_guest t.role && not (vfs_path_is_under_tmp abs)
    then false
    else if bit_and t.caps_eff write_caps == 0
    then false
    else elim dir [ none ↦ true | some d ↦ vfs_check_perms (some t) d 2 ]

-- EPERM is 1, EBADF 9 and EACCES 13; `write` is what the filesystem's own write returns, if it has one, and
-- the vnode is there.
pub vfs_write : Option Thread → Owned → Option ℕ → ℤ
vfs_write t n none = negsuc 8
vfs_write none n (some write) = pos write
vfs_write (some t) n (some write) =
    if is_system t.role
    then pos write
    else if bit_and t.caps_eff write_caps == 0
    then negsuc 0
    else if n.is_file && not (vfs_check_perms (some t) n 2)
    then negsuc 12
    else pos write
