-- ===== src/Security/Examples.antt =====
-- Users, passwords and the user database at fixed inputs.
use axiome_os.Prelude.{
  ℕ, ◌≡◌, ◌≢◌, ◌≤◌, ◌⊎◌, ◌↔◌, refl, true, false, some, List, [], ◌∷◌, ◌++◌, arith, length, take,
}
use axiome_os.Prelude.Int.{negsuc}
use axiome_os.KString.{strcmp}
use axiome_os.KString.Laws.{c_str}
use axiome_os.Security.Roles.{user, system}
use axiome_os.Security.Sha.{sha256_hex}
use axiome_os.Security.Users.{User, security_lookup_name, int_of, security_authenticate}
use axiome_os.Security.Users.Laws.{security_authenticate-c_str}
use axiome_os.Security.Passwd.{user_of_fields, parse_passwd_line, security_load_passwd}
use axiome_os.Security.Passwd.Laws.{join, is_field, are_fields, parse_passwd_line-join}
use axiome_os.Security.Passwd.Lines.{text, AreLines, add_lines, security_load_passwd-text}
use axiome_os.Prelude.Members.{is_in}

abbrev ann : List ℕ
ann = b'a' ∷ b'n' ∷ b'n' ∷ []

-- A user whose stored hash has one character that is not 'x'.
abbrev ann_user : User
ann_user = record {
  name = ann;
  uid = 1000;
  gid = 1000;
  role = user;
  passwd_hash = b'*' ∷ [];
  home = b'/' ∷ [];
  shell = b'/' ∷ [];
}

abbrev users : List User
users = ann_user ∷ []

user_not_system : user ≢ system
user_not_system e = ground arith

found_ann : security_lookup_name users ann ≡ some ann_user
unfolding security_lookup_name strcmp
found_ann = refl

security_authenticate-c_str_example :
    ((security_authenticate true users ann ann ≡ int_of 1000) ↔ (
      ((c_str (b'*' ∷ []) ≡ []) ⊎ (c_str (b'*' ∷ []) ≡ b'x' ∷ []))
      ⊎ (c_str (sha256_hex true ann) ≡ c_str (b'*' ∷ []))))
    × ((security_authenticate true users ann ann ≡ int_of 1000)
        ⊎ (security_authenticate true users ann ann ≡ negsuc 0))
security_authenticate-c_str_example =
    security_authenticate-c_str true users ann ann ann_user found_ann (omega arith)

star_not_empty : c_str (b'*' ∷ []) ≢ []
unfolding c_str
star_not_empty e = ground arith

star_not_x : c_str (b'*' ∷ []) ≢ b'x' ∷ []
unfolding c_str
star_not_x e = ground arith

star_short : length (c_str (b'*' ∷ [])) ≢ 64
unfolding c_str
star_short e = absurd (omega arith)

-- ann:x:1000:1000:user:/:/a
abbrev ann_fields : List (List ℕ)
ann_fields =
    ann
    ∷ (b'x' ∷ [])
    ∷ (b'1' ∷ b'0' ∷ b'0' ∷ b'0' ∷ [])
    ∷ (b'1' ∷ b'0' ∷ b'0' ∷ b'0' ∷ [])
    ∷ (b'u' ∷ b's' ∷ b'e' ∷ b'r' ∷ [])
    ∷ (b'/' ∷ [])
    ∷ (b'/' ∷ b'a' ∷ [])
    ∷ []

ann_are_fields : are_fields ann_fields ≡ true
unfolding are_fields is_field
ann_are_fields = refl

ann_fits : length (join ann_fields) ≤ 255
unfolding join
ann_fits = omega arith

parse_passwd_line-join_example :
    (parse_passwd_line users (join ann_fields) ≡ users ++ user_of_fields ann_fields ∷ [])
    × (c_str (user_of_fields ann_fields).name ≡ take 31 (c_str ann))
    × (c_str (user_of_fields ann_fields).passwd_hash ≡ take 64 (c_str (b'x' ∷ [])))
    × (c_str (user_of_fields ann_fields).home ≡ take 127 (c_str (b'/' ∷ [])))
    × (c_str (user_of_fields ann_fields).shell ≡ take 63 (c_str (b'/' ∷ b'a' ∷ [])))
parse_passwd_line-join_example =
    parse_passwd_line-join users ann_fields refl ann_are_fields refl ann_fits (omega arith)

-- Two users on two lines, an empty line between them, and the second without its newline.
abbrev two_lines : List (List ℕ)
two_lines = join ann_fields ∷ [] ∷ []

two_lines_cut : AreLines two_lines × (is_in b'\n' (join ann_fields) ≡ false)
unfolding AreLines is_in join
two_lines_cut = ((refl, (refl, tt)), refl)

security_load_passwd-text_example :
    security_load_passwd (some (text two_lines (join ann_fields)))
    ≡ add_lines [] two_lines (join ann_fields)
security_load_passwd-text_example =
    security_load_passwd-text two_lines (join ann_fields) two_lines_cut.0 two_lines_cut.1
