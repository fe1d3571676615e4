-- ===== src/Security/Users/Laws.antt =====
-- What the searches of the user database find, and who is let in.
use axiome_os.Prelude.{
  ℕ, zero, suc, ◌+◌, ◌-◌, ◌≤◌, ◌<◌, ◌≡◌, ◌≢◌, ◌⊎◌, ◌↔◌, refl, ◌∙◌, inl, inr, Bool, true, false,
  some, List, [], ◌∷◌, arith, if◌then◌else◌, Bool-cases, sym, ap, length,
}
use native.Mathlib.Decide.{ℕ_discrete}
use axiome_os.Prelude.Int.{negsuc, is_zero}
use axiome_os.KString.{strcmp}
use axiome_os.KString.Laws.{c_str, strcmp-c_str}
use axiome_os.Security.Roles.{Role, guest, user, admin, system, posix_uid_to_role}
use axiome_os.Security.Sha.{sha256_hex}
use axiome_os.Security.Sha.Laws.{length-c_str-sha256_hex}
use axiome_os.Security.Users.{
  User, no_uid, security_lookup_name, uid_used, free_uid, role_lo, role_hi, posix_role_next_uid,
  int_of, no_password, security_authenticate,
}

free_uid-unused :
    (us : List User) (lo n : ℕ)
    → (free_uid us lo n ≡ no_uid)
      ⊎ ((lo ≤ free_uid us lo n)
          × (free_uid us lo n < lo + n)
          × (uid_used us (free_uid us lo n) ≡ false))
unfolding free_uid
free_uid-unused us lo zero = inl refl
free_uid-unused us lo (suc n) = elim (Bool-cases (uid_used us lo)) [
  | inl e ↦ rw (e, free_uid) (ground (arith, free_uid-unused us (suc lo) n))
  | inr e ↦ rw (e, free_uid) (inr (omega arith, omega arith, e))
]

free_uid-least :
    (us : List User) (lo n uid : ℕ)
    → lo ≤ uid
    → uid < lo + n
    → (free_uid us lo n ≤ uid) ⊎ (uid_used us uid ≡ true)
unfolding free_uid
free_uid-least us lo zero uid h k = absurd (omega arith)
free_uid-least us lo (suc n) uid h k = elim (Bool-cases (uid_used us lo)) [
  | inl e ↦
      rw (e, free_uid)
        (elim (ℕ_discrete lo uid) [
          | yes d ↦ inr (rw (sym d) e)
          | no d ↦ free_uid-least us (suc lo) n uid (omega arith) (omega arith)
        ])
  | inr e ↦ rw (e, free_uid) (inl h)
]

role_range : (r : Role) → (role_lo r ≤ role_hi r) × (role_hi r < no_uid)
role_range guest = (omega arith, omega arith)
role_range user = (omega arith, omega arith)
role_range admin = (omega arith, omega arith)
role_range system = (omega arith, omega arith)

-- For each user database, role, and user id in the role's range: the id that
-- `posix_role_next_uid` returns is either -1, and then the database uses the id at hand, or it lies
-- in the range, no user has it, and the id at hand is used or not below it.
pub posix_role_next_uid_lem :
    (us : List User) (r : Role) (uid : ℕ)
    → role_lo r ≤ uid
    → uid ≤ role_hi r
    → let next = posix_role_next_uid us r in
      ((next ≡ no_uid) × (uid_used us uid ≡ true))
      ⊎ ((role_lo r ≤ next)
          × (next ≤ role_hi r)
          × (uid_used us next ≡ false)
          × ((next ≤ uid) ⊎ (uid_used us uid ≡ true)))
unfolding posix_role_next_uid
posix_role_next_uid_lem us r uid h k =
    let n = suc (role_hi r) - role_lo r in
    let range = role_range r in
    let least = free_uid-least us (role_lo r) n uid h (omega arith) in
    elim (free_uid-unused us (role_lo r) n) [
      | inl e ↦ inl (e, elim least [ inl l ↦ absurd (omega arith) | inr u ↦ u ])
      | inr (lo, hi, unused) ↦ inr (lo, omega arith, unused, least)
    ]

in_range-uid_to_role :
    (r : Role) (uid : ℕ)
    → r ≢ system
    → role_lo r ≤ uid
    → uid ≤ role_hi r
    → posix_uid_to_role uid ≡ r
unfolding posix_uid_to_role
in_range-uid_to_role guest uid ne h k = ground arith
in_range-uid_to_role user uid ne h k = ground arith
in_range-uid_to_role admin uid ne h k = ground arith
in_range-uid_to_role system uid ne h k = absurd (ne refl)

-- For each role but the system's: the id that `posix_role_next_uid` returns for it is -1 or one that
-- `posix_uid_to_role` sends back to the same role.
pub posix_uid_to_role-posix_role_next_uid :
    (us : List User) (r : Role)
    → r ≢ system
    → (posix_role_next_uid us r ≡ no_uid) ⊎ (posix_uid_to_role (posix_role_next_uid us r) ≡ r)
posix_uid_to_role-posix_role_next_uid us r ne =
    let range = role_range r in
    elim (posix_role_next_uid_lem us r (role_lo r) (omega arith) range.0) [
      | inl (e, _) ↦ inl e
      | inr (lo, hi, _, _) ↦ inr (in_range-uid_to_role r _ ne lo hi)
    ]

no_password-c_str :
    (hash : List ℕ) → (no_password hash ≡ true) ↔ ((c_str hash ≡ []) ⊎ (c_str hash ≡ b'x' ∷ []))
unfolding no_password c_str
no_password-c_str [] = (λ h. inl refl, λ h. refl)
no_password-c_str (c ∷ []) = (ground arith, ground arith)
no_password-c_str (c ∷ d ∷ hash) = (ground arith, ground arith)

int_of-ne : (uid : ℕ) → uid < no_uid → int_of uid ≢ negsuc 0
int_of-ne uid lt e = ground arith

clash : (b : Bool) → b ≡ true → b ≢ false
clash true h k = ground arith
clash false h k = ground arith

security_authenticate-found :
    (mem : Bool) (us : List User) (username password : List ℕ) (u : User)
    → security_lookup_name us username ≡ some u
    → security_authenticate mem us username password ≡ (
        if no_password u.passwd_hash
        then int_of u.uid
        else if is_zero (strcmp (sha256_hex mem password) u.passwd_hash)
        then int_of u.uid
        else negsuc 0)
unfolding security_authenticate
security_authenticate-found mem us username password u found =
    rw (found, security_authenticate) refl

-- For each user that the name finds, with an id below 2 ^ 32 - 1: `security_authenticate` returns the
-- user's id exactly where the stored hash is empty or "x" or is the hash of the password, as strings;
-- otherwise it returns -1.
pub security_authenticate-c_str :
    (mem : Bool) (us : List User) (username password : List ℕ) (u : User)
    → security_lookup_name us username ≡ some u
    → u.uid < no_uid
    → ((security_authenticate mem us username password ≡ int_of u.uid) ↔ (
        ((c_str u.passwd_hash ≡ []) ⊎ (c_str u.passwd_hash ≡ b'x' ∷ []))
        ⊎ (c_str (sha256_hex mem password) ≡ c_str u.passwd_hash)))
      × ((security_authenticate mem us username password ≡ int_of u.uid)
          ⊎ (security_authenticate mem us username password ≡ negsuc 0))
security_authenticate-c_str mem us username password u found lt =
    let np = no_password-c_str u.passwd_hash in
    let cmp = strcmp-c_str (sha256_hex mem password) u.passwd_hash in
    let ne = int_of-ne u.uid lt in
    rw (security_authenticate-found mem us username password u found)
      (elim (Bool-cases (no_password u.passwd_hash)) [
        | inl e ↦ rw e ((λ h. inl (np.0 e), λ h. refl), inl refl)
        | inr e ↦
            rw e (elim (Bool-cases (is_zero (strcmp (sha256_hex mem password) u.passwd_hash))) [
              | inl z ↦ rw z ((λ h. inr (cmp.0 z), λ h. refl), inl refl)
              | inr z ↦ rw z (
                (
                  λ h. absurd (ne (sym h)),
                  λ h. absurd (elim h [ inl x ↦ clash _ (np.1 x) e | inr x ↦ clash _ (cmp.1 x) z ]),
                ),
                inr refl,
              )
            ])
      ])

-- For each user that the name finds, with an id below 2 ^ 32 - 1: where the stored hash is a string
-- that is neither empty nor "x" and has not 64 characters, no password is accepted.
pub security_authenticate-locked :
    (mem : Bool) (us : List User) (username password : List ℕ) (u : User)
    → security_lookup_name us username ≡ some u
    → u.uid < no_uid
    → c_str u.passwd_hash ≢ []
    → c_str u.passwd_hash ≢ b'x' ∷ []
    → length (c_str u.passwd_hash) ≢ 64
    → security_authenticate mem us username password ≡ negsuc 0
security_authenticate-locked mem us username password u found lt ne nx len =
    let lem = security_authenticate-c_str mem us username password u found lt in
    elim lem.1 [
      | inl ok ↦ absurd (elim (lem.0.0 ok) [
        | inl (inl e) ↦ ne e
        | inl (inr e) ↦ nx e
        | inr e ↦ len (sym (ap length e) ∙ length-c_str-sha256_hex mem password)
      ])
      | inr failed ↦ failed
    ]
