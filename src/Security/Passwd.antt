-- ===== src/Security/Passwd.antt =====
-- The parser of /etc/passwd of kernel/security.c, and how the user database is filled.
pub mod Laws
pub mod Bounds
pub mod Lines
use axiome_os.Prelude.{
  ℕ, zero, suc, ◌+◌, ◌-◌, ◌*◌, ◌%◌, ◌^◌, Bool, true, false, ◌&&◌, Option, none, some, List, [], ◌∷◌,
  ◌++◌, ltb, leb, ◌==◌, if◌then◌else◌, length, get_or, take, replicate,
}
use axiome_os.Prelude.Int.{ℤ, is_zero}
use axiome_os.KString.{first, next, strcmp, strncpy}
use axiome_os.KString.Laws.{c_str}
use axiome_os.Security.Roles.{Role, guest, user, admin, system, posix_uid_to_role}
use axiome_os.Security.Users.{User, max_users}

abbrev is_digit : ℕ → Bool
is_digit c = leb b'0' c && leb c b'9'

-- The loop of `atoi_simple`, on the bits of the `int`.
pub atoi_digits : ℕ → List ℕ → ℕ
atoi_digits v [] = v
atoi_digits v (c ∷ s) = if is_digit c then atoi_digits ((v * 10 + (c - b'0')) % 2 ^ 32) s else v

-- The bits of the `int` that it returns, which the callers cast to an unsigned id.
pub atoi_simple : List ℕ → ℕ
atoi_simple s =
    if first s == b'-' then (2 ^ 32 - atoi_digits 0 (next s)) % 2 ^ 32 else atoi_digits 0 s

-- The characters up to the next colon, and what stands behind it.
pub field_of : List ℕ → List ℕ
field_of [] = []
field_of (c ∷ p) = if c == b':' then [] else c ∷ field_of p

pub after_field : List ℕ → List ℕ
after_field [] = []
after_field (c ∷ p) = if c == b':' then p else after_field p

-- The loop that cuts the line into at most `n` fields.
pub split_fields : ℕ → List ℕ → List (List ℕ)
split_fields zero p = []
split_fields (suc n) [] = []
split_fields (suc n) (c ∷ p) = field_of (c ∷ p) ∷ split_fields n (after_field (c ∷ p))

pub role_of_name : List ℕ → ℕ → Role
role_of_name name uid =
    if is_zero (strcmp name (b'g' ∷ b'u' ∷ b'e' ∷ b's' ∷ b't' ∷ []))
    then guest
    else if is_zero (strcmp name (b'u' ∷ b's' ∷ b'e' ∷ b'r' ∷ []))
    then user
    else if is_zero (strcmp name (b'a' ∷ b'd' ∷ b'm' ∷ b'i' ∷ b'n' ∷ []))
    then admin
    else if is_zero (strcmp name (b's' ∷ b'y' ∷ b's' ∷ b't' ∷ b'e' ∷ b'm' ∷ []))
    then system
    else posix_uid_to_role uid

-- `strncpy` into a field of the entry, which `memset` has cleared.
pub copy_field : ℕ → List ℕ → List ℕ
copy_field size s = strncpy (replicate size 0) s (size - 1)

pub user_of_fields : List (List ℕ) → User
user_of_fields fields =
    let uid = atoi_simple (get_or fields 2 []) in
    record {
      name = copy_field 32 (get_or fields 0 []);
      passwd_hash = copy_field 65 (get_or fields 1 []);
      uid = uid;
      gid = atoi_simple (get_or fields 3 []);
      role = role_of_name (get_or fields 4 []) uid;
      home = copy_field 128 (get_or fields 5 []);
      shell = copy_field 64 (get_or fields 6 []);
    }

pub parse_passwd_line : List User → List ℕ → List User
parse_passwd_line us line =
    let fields = split_fields 7 (take 255 (c_str line)) in
    if ltb (length fields) 7
    then us
    else if leb max_users (length us)
    then us
    else us ++ user_of_fields fields ∷ []

pub line_of : List ℕ → List ℕ
line_of [] = []
line_of (c ∷ buf) = if c == b'\n' then [] else c ∷ line_of buf

pub after_line : List ℕ → List ℕ
after_line [] = []
after_line (c ∷ buf) = if c == b'\n' then buf else after_line buf

-- The loop over the lines of what is left of the buffer, for at most `n` lines.
pub load_lines : ℕ → List User → List ℕ → List User
load_lines zero us buf = us
load_lines (suc n) us [] = us
load_lines (suc n) us (c ∷ buf) =
    let line = line_of (c ∷ buf) in
    load_lines n (if first line == 0 then us else parse_passwd_line us line) (after_line (c ∷ buf))

-- `file` is what `vfs_read` gives of /etc/passwd, if it is a file and there is memory for it.
pub security_load_passwd : Option (List ℕ) → List User
security_load_passwd none = []
security_load_passwd (some buf) = load_lines (length buf) [] buf

-- `g_fallback_users`
pub fallback_user : List ℕ → ℕ → Role → List ℕ → List ℕ → User
fallback_user name id role home shell = record {
  name = copy_field 32 name;
  uid = id;
  gid = id;
  role = role;
  passwd_hash = copy_field 65 (b'x' ∷ []);
  home = copy_field 128 home;
  shell = copy_field 64 shell;
}

abbrev nologin : List ℕ
nologin =
    b'/' ∷ b's' ∷ b'b' ∷ b'i' ∷ b'n' ∷ b'/' ∷ b'n' ∷ b'o' ∷ b'l' ∷ b'o' ∷ b'g' ∷ b'i' ∷ b'n' ∷ []

pub fallback_users : List User
fallback_users =
    fallback_user (b'r' ∷ b'o' ∷ b'o' ∷ b't' ∷ []) 0 system (b'/' ∷ b'r' ∷ b'o' ∷ b'o' ∷ b't' ∷ [])
      (b'/' ∷ b'b' ∷ b'i' ∷ b'n' ∷ b'/' ∷ b's' ∷ b'h' ∷ [])
    ∷ fallback_user (b's' ∷ b'y' ∷ b's' ∷ b't' ∷ b'e' ∷ b'm' ∷ []) 3 system
        (b'/' ∷ b's' ∷ b'b' ∷ b'i' ∷ b'n' ∷ []) nologin
    ∷ fallback_user (b'g' ∷ b'u' ∷ b'e' ∷ b's' ∷ b't' ∷ []) 65534 guest
        (b'/' ∷ b'T' ∷ b'e' ∷ b'm' ∷ b'p' ∷ b'o' ∷ b'r' ∷ b'a' ∷ b'r' ∷ b'y' ∷ []) nologin
    ∷ []

pub security_init : Option (List ℕ) → List User
security_init file =
    let us = security_load_passwd file in if length us == 0 then us ++ fallback_users else us
