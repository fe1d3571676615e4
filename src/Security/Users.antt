-- ===== src/Security/Users.antt =====
-- The user database of kernel/security.c, and the search for a free user id of kernel/posix.c. The
-- database is the list of the first `g_nusers` entries of `g_users`.
use axiome_os.Prelude.{
  ℕ, zero, suc, ◌-◌, ◌^◌, Bool, true, false, ◌&&◌, ◌||◌, Option, none, some, List, [], ◌∷◌, ltb,
  ◌==◌, if◌then◌else◌,
}
use axiome_os.Prelude.Int.{ℤ, pos, negsuc, is_zero}
use axiome_os.KString.{first, next, strcmp}
use axiome_os.Security.Roles.{Role, guest, user, admin, system}
use axiome_os.Security.Sha.{sha256_hex}
pub mod Laws

pub record User : Type 0 where
  pub name : List ℕ
  pub uid : ℕ
  pub gid : ℕ
  pub role : Role
  pub passwd_hash : List ℕ
  pub home : List ℕ
  pub shell : List ℕ

abbrev pub max_users : ℕ
max_users = 64

-- `(uid_t)-1`
abbrev pub no_uid : ℕ
no_uid = 0xFFFFFFFF

unfoldable pub security_lookup_name : List User → List ℕ → Option User
security_lookup_name [] name = none
security_lookup_name (u ∷ us) name =
    if is_zero (strcmp u.name name) then some u else security_lookup_name us name

pub security_lookup_uid : List User → ℕ → Option User
security_lookup_uid [] uid = none
security_lookup_uid (u ∷ us) uid = if u.uid == uid then some u else security_lookup_uid us uid

abbrev pub role_lo : Role → ℕ
role_lo system = 0
role_lo admin = 1
role_lo user = 1000
role_lo guest = 65534

abbrev pub role_hi : Role → ℕ
role_hi system = 0
role_hi admin = 999
role_hi user = 65533
role_hi guest = 65534

-- `used`
pub uid_used : List User → ℕ → Bool
uid_used [] uid = false
uid_used (u ∷ us) uid = u.uid == uid || uid_used us uid

-- The loop over the ids, with `n` of them left.
pub free_uid : List User → ℕ → ℕ → ℕ
free_uid us uid zero = no_uid
free_uid us uid (suc n) = elim (uid_used us uid) [ true ↦ free_uid us (suc uid) n | false ↦ uid ]

pub posix_role_next_uid : List User → Role → ℕ
posix_role_next_uid us r = free_uid us (role_lo r) (suc (role_hi r) - role_lo r)

-- `(int)uid`
abbrev pub int_of : ℕ → ℤ
int_of uid = if ltb uid (2 ^ 31) then pos uid else negsuc (0xFFFFFFFF - uid)

-- The stored hash is empty or "x".
pub no_password : List ℕ → Bool
no_password hash = first hash == 0 || (first hash == b'x' && first (next hash) == 0)

-- `mem` is whether the hash gets its buffer.
pub security_authenticate : Bool → List User → List ℕ → List ℕ → ℤ
security_authenticate mem us username password = elim (security_lookup_name us username) [
  | none ↦ negsuc 0
  | some u ↦
      if no_password u.passwd_hash
      then int_of u.uid
      else if is_zero (strcmp (sha256_hex mem password) u.passwd_hash)
      then int_of u.uid
      else negsuc 0
]
