-- ===== src/Security/Passwd/Bounds.antt =====
-- The bounds of the user database.
use axiome_os.Prelude.{
  ℕ, zero, suc, ◌≤◌, ◌<◌, ◌≡◌, inl, inr, true, Option, none, some, List, [], ◌∷◌, ◌++◌, ltb, leb,
  ◌==◌, length, length-append, take, arith, Bool-cases, gt_at,
}
use axiome_os.KString.{first}
use axiome_os.KString.Laws.{c_str}
use axiome_os.Security.Users.{User, max_users}
use axiome_os.Security.Passwd.{
  split_fields, user_of_fields, parse_passwd_line, load_lines, line_of, after_line,
  security_load_passwd, security_init, fallback_users,
}

length-parse_passwd_line :
    (us : List User) (line : List ℕ)
    → length us ≤ max_users
    → length (parse_passwd_line us line) ≤ max_users
unfolding parse_passwd_line
length-parse_passwd_line us line le =
    elim (Bool-cases (ltb (length (split_fields 7 (take 255 (c_str line)))) 7)) [
      | inl e ↦ rw e le
      | inr e ↦ rw e (elim (Bool-cases (leb max_users (length us))) [
        | inl full ↦ rw full le
        | inr room ↦
            let lt = gt_at max_users (length us) room in
            rw room (
              omega (
                arith,
                lt,
                length-append us (user_of_fields (split_fields 7 (take 255 (c_str line))) ∷ []),
              ))
      ])
    ]

length-load_lines :
    (n : ℕ) (us : List User) (buf : List ℕ)
    → length us ≤ max_users
    → length (load_lines n us buf) ≤ max_users
unfolding load_lines
length-load_lines zero us buf le = le
length-load_lines (suc n) us [] le = le
length-load_lines (suc n) us (c ∷ buf) le = elim (Bool-cases (first (line_of (c ∷ buf)) == 0)) [
  | inl e ↦ rw e (length-load_lines n us (after_line (c ∷ buf)) le)
  | inr e ↦ rw e (
      length-load_lines n _ (after_line (c ∷ buf))
        (length-parse_passwd_line us (line_of (c ∷ buf)) le))
]

all_fallback :
    (us : List User)
    → length us == 0 ≡ true
    → (0 < length (us ++ fallback_users)) × (length (us ++ fallback_users) ≤ max_users)
unfolding fallback_users
all_fallback [] h = (omega arith, omega arith)
all_fallback (u ∷ us) h = absurd (ground arith)

-- For each content of /etc/passwd, and without one: `security_init` leaves at least one user and at
-- most 64.
pub length-security_init :
    (file : Option (List ℕ))
    → (0 < length (security_init file)) × (length (security_init file) ≤ max_users)
unfolding security_init security_load_passwd fallback_users
length-security_init none = (omega arith, omega arith)
length-security_init (some buf) =
    let le = length-load_lines (length buf) [] buf (omega arith) in
    elim (Bool-cases (length (load_lines (length buf) [] buf) == 0)) [
      | inl e ↦ rw e (all_fallback (load_lines (length buf) [] buf) e)
      | inr e ↦ rw e (ground arith, le)
    ]
