-- ===== src/Vfs/Examples.antt =====
-- Paths, mounts, permissions and files at fixed inputs.
use axiome_os.Prelude.{
  ℕ, ◌+◌, ◌≡◌, ◌≤◌, refl, true, some, List, [], ◌∷◌, arith, replicate, length-replicate, take, min,
  bit_and, ◌==◌, if◌then◌else◌, ltb,
}
use axiome_os.Security.Roles.{Thread, guest, user, role_caps}
use axiome_os.Vfs.Paths.{vstrlen, vstrncmp_prefix, vstrcmp}
use axiome_os.Vfs.Mounts.{Super, mount_find, is_candidate}
use axiome_os.Vfs.Mounts.Laws.{Matches, mount_find-longest}
use axiome_os.Vfs.Perms.{Owned, vfs_check_perms}
use axiome_os.Vfs.Perms.Laws.{class_bits, vfs_check_perms-class_bits}
use axiome_os.Vfs.Ramfs.{File, ramfs_read, ramfs_write}
use axiome_os.Vfs.Ramfs.Laws.{IsSized, ramfs_read-ramfs_write}

abbrev boot_path : List ℕ
boot_path = b'/' ∷ b'b' ∷ []

abbrev tmp_file : List ℕ
tmp_file = b'/' ∷ b't' ∷ b'm' ∷ b'p' ∷ b'/' ∷ b'a' ∷ []

abbrev root_mount : Super
root_mount = record { mountpoint = b'/' ∷ []; fs_type = 0; root = 1 }

abbrev boot_mount : Super
boot_mount = record { mountpoint = boot_path; fs_type = 1; root = 2 }

abbrev mounts : List Super
mounts = root_mount ∷ boot_mount ∷ []

abbrev kernel_path : List ℕ
kernel_path = b'/' ∷ b'b' ∷ b'/' ∷ b'k' ∷ []

matches_boot : is_candidate kernel_path boot_path ≡ true
unfolding is_candidate vstrlen vstrcmp vstrncmp_prefix
matches_boot = refl

mount_find-longest_example :
    (r : Super) × (mount_find mounts kernel_path ≡ some r)
    × (vstrlen boot_path ≤ vstrlen r.mountpoint)
    × Matches kernel_path mounts r
mount_find-longest_example = mount_find-longest kernel_path mounts 1 boot_mount refl matches_boot

abbrev guest_thread : Thread
guest_thread = record { role = guest; caps_eff = role_caps guest; euid = 65534; egid = 65534 }

abbrev user_thread : Thread
user_thread = record { role = user; caps_eff = role_caps user; euid = 1000; egid = 1000 }

abbrev note_file : Owned
note_file = record { is_file = true; v_uid = 0; v_gid = 1000; v_mode = 0o640 }

vfs_check_perms-class_bits_example :
    vfs_check_perms (some user_thread) note_file 4
    ≡ (bit_and 4 (class_bits user_thread note_file) == 4)
vfs_check_perms-class_bits_example =
    vfs_check_perms-class_bits user_thread note_file 4 refl (omega arith) (omega arith)

abbrev zero_pages : ℕ → List ℕ
zero_pages n = replicate n 0

abbrev two_bytes : File
two_bytes = record { is_file = true; bytes = 7 ∷ 8 ∷ 0 ∷ []; size = 2 }

two_bytes-IsSized : IsSized two_bytes
unfolding IsSized
two_bytes-IsSized = omega arith

ramfs_read-ramfs_write_example :
    let w = ramfs_write (λ n. some (zero_pages n)) two_bytes 1 (5 ∷ 6 ∷ 9 ∷ []) in
    (w.1 ≡ 3)
    × (ramfs_read w.0 1 3 ≡ 5 ∷ 6 ∷ 9 ∷ [])
    × (w.0.size ≡ (if ltb 2 (1 + 3) then 1 + 3 else 2))
    × IsSized w.0
    × (take (min 1 2) w.0.bytes ≡ take (min 1 2) (7 ∷ 8 ∷ 0 ∷ []))
ramfs_read-ramfs_write_example =
    ramfs_read-ramfs_write zero_pages two_bytes 1 (5 ∷ 6 ∷ 9 ∷ []) (λ n. length-replicate n 0) refl
      two_bytes-IsSized (omega arith) (omega arith)
