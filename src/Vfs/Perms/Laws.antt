-- ===== src/Vfs/Perms/Laws.antt =====
-- Who may write: the permission bits, and what is left of the guests' capability.
use axiome_os.Prelude.{
  ℕ, ◌/◌, ◌%◌, ◌<◌, ◌≡◌, refl, sym, inl, inr, Bool, true, false, not, ◌&&◌, Option, some, List,
  bit_and, ◌==◌, if◌then◌else◌, Bool-cases, and_left, and_right,
}
use axiome_os.Prelude.Bits.{holds_below, holds_below-lt}
use axiome_os.Prelude.Int.{negsuc}
use axiome_os.Security.Roles.{Thread, guest, role_caps, is_system, any_of}
use axiome_os.Vfs.Paths.{vfs_path_is_under_tmp}
use axiome_os.Vfs.Perms.{
  Owned, vfs_check_perms, vfs_gate_write_file, vfs_write, write_caps, check_class, refused,
}

-- The three permission bits of a class of users, as a number below 8.
abbrev pub class_bits : Thread → Owned → ℕ
class_bits t n =
    if t.euid == n.v_uid
    then n.v_mode / 64 % 8
    else if t.egid == n.v_gid
    then n.v_mode / 8 % 8
    else n.v_mode % 8

abbrev same : Bool → Bool → Bool
same true b = b
same false b = not b

same_eq : (a b : Bool) → same a b ≡ true → a ≡ b
same_eq true b h = sym h
same_eq false true h = h
same_eq false false h = refl

class_table :
    holds_below
      (λ mode.
        holds_below
          (λ mask.
            same (check_class mask mode 0o400 0o200 0o100) (bit_and mask (mode / 64 % 8) == mask)
            && same (check_class mask mode 0o040 0o020 0o010) (bit_and mask (mode / 8 % 8) == mask)
            && same (check_class mask mode 0o004 0o002 0o001) (bit_and mask (mode % 8) == mask))
          8)
      512
    ≡ true
unfolding holds_below check_class refused
class_table = refl

-- For each thread without the system role, each vnode whose mode is below 512 and each mask of the
-- three access bits: the check passes exactly where the mask is part of the bits of the one class the
-- thread is in: the owner's, else the group's, else the others'.
pub vfs_check_perms-class_bits :
    (t : Thread) (n : Owned) (mask : ℕ)
    → is_system t.role ≡ false
    → mask < 8
    → n.v_mode < 512
    → vfs_check_perms (some t) n mask ≡ (bit_and mask (class_bits t n) == mask)
unfolding vfs_check_perms
vfs_check_perms-class_bits t n mask s h k =
    let table = holds_below-lt _ 8 (holds_below-lt _ 512 class_table n.v_mode k) mask h in
    rw s (elim (Bool-cases (t.euid == n.v_uid)) [
      | inl e ↦ rw e (same_eq _ _ (and_left _ _ (and_left _ _ table)))
      | inr e ↦ rw e (elim (Bool-cases (t.egid == n.v_gid)) [
        | inl g ↦ rw g (same_eq _ _ (and_right _ _ (and_left _ _ table)))
        | inr g ↦ rw g (same_eq _ _ (and_right _ _ table))
      ])
    ])

guest_caps : bit_and (role_caps guest) write_caps ≡ 0
unfolding role_caps any_of
guest_caps = refl

-- For each thread of the guest role with that role's capabilities, each path, directory and file of a
-- filesystem that can write: creating, removing and writing are denied, also below /tmp.
pub vfs_gate_write_file-guest :
    (t : Thread) (abs : List ℕ) (dir : Option Owned) (n : Owned) (write : ℕ)
    → t.role ≡ guest
    → t.caps_eff ≡ role_caps guest
    → (vfs_gate_write_file (some t) abs dir ≡ false)
      × (vfs_write (some t) n (some write) ≡ negsuc 0)
unfolding vfs_gate_write_file vfs_write
vfs_gate_write_file-guest t abs dir n write r c = (
  rw (r, c, guest_caps)
      (elim (Bool-cases (vfs_path_is_under_tmp abs)) [ inl e ↦ rw e refl | inr e ↦ rw e refl ]),
  rw (r, c, guest_caps) refl,
)
