-- ===== src/Security/Roles.antt =====
-- kernel/security.c and kernel/security.h: roles, their capabilities, and `sec_check_cap`;
-- kernel/posix.c: from a user id to a role.
pub mod Laws
use axiome_os.Prelude.{
  ℕ, ◌^◌, Bool, true, false, not, Option, none, some, List, [], ◌∷◌, bit_and, bit_or, ltb, ◌==◌,
  if◌then◌else◌,
}

pub data Role : Type 0 where
  guest user admin system : Role

-- `CAP_…` by its bit number.
abbrev pub cap : ℕ → ℕ
cap k = 2 ^ k

abbrev pub cap_file_write_self : ℕ
cap_file_write_self = cap 2

abbrev pub cap_file_write_any : ℕ
cap_file_write_any = cap 3

abbrev pub cap_file_write_tmp : ℕ
cap_file_write_tmp = cap 23

unfoldable pub any_of : List ℕ → ℕ
any_of [] = 0
any_of (c ∷ cs) = bit_or c (any_of cs)

-- fork, file read, write self, kill self, net, ipc, setuid, setgid, execute
abbrev pub user_caps : List ℕ
user_caps = cap 0 ∷ cap 1 ∷ cap 2 ∷ cap 4 ∷ cap 9 ∷ cap 11 ∷ cap 12 ∷ cap 13 ∷ cap 22 ∷ []

-- the user's, and write any, kill any, signal other, mount, umount, driver, raw net, user and service
-- management, sys admin, ptrace, boot, time, resource
abbrev pub admin_caps : List ℕ
admin_caps =
    cap 0
    ∷ cap 1
    ∷ cap 2
    ∷ cap 4
    ∷ cap 9
    ∷ cap 11
    ∷ cap 12
    ∷ cap 13
    ∷ cap 22
    ∷ cap 3
    ∷ cap 5
    ∷ cap 17
    ∷ cap 6
    ∷ cap 7
    ∷ cap 8
    ∷ cap 10
    ∷ cap 14
    ∷ cap 15
    ∷ cap 16
    ∷ cap 18
    ∷ cap 19
    ∷ cap 20
    ∷ cap 21
    ∷ []

unfoldable pub role_caps : Role → ℕ
unfolding any_of
role_caps guest = any_of (cap 0 ∷ cap 1 ∷ cap_file_write_tmp ∷ cap 22 ∷ [])
role_caps user = any_of user_caps
role_caps admin = any_of admin_caps
role_caps system = 0xFFFFFFFF

-- What the security checks read of `struct thread`.
pub record Thread : Type 0 where
  pub role : Role
  pub caps_eff : ℕ
  pub euid : ℕ
  pub egid : ℕ

abbrev pub is_system : Role → Bool
is_system guest = false
is_system user = false
is_system admin = false
is_system system = true

abbrev pub is_guest : Role → Bool
is_guest guest = true
is_guest user = false
is_guest admin = false
is_guest system = false

unfoldable pub sec_check_cap : Option Thread → ℕ → Bool
sec_check_cap none c = false
sec_check_cap (some t) c = if is_system t.role then true else not (bit_and t.caps_eff c == 0)

unfoldable pub posix_uid_to_role : ℕ → Role
posix_uid_to_role uid =
    if uid == 0 then admin else if ltb uid 1000 then admin else if uid == 65534 then guest else user
