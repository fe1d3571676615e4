-- ===== src/Security/Passwd/Laws.antt =====
-- What the parser of /etc/passwd takes from a line, and the bounds of the user database.
use axiome_os.Prelude.{
  ℕ, zero, suc, ◌-◌, ◌≤◌, ◌<◌, ◌≡◌, ◌≢◌, refl, ap, ◌∙◌, Bool, true, false, not, ◌&&◌, List, [], ◌∷◌,
  ◌++◌, ◌==◌, length, length-replicate, take_all, get_or, take, drop, replicate, arith,
}
use axiome_os.KString.{first}
use axiome_os.KString.Laws.{c_str, c_str-strncpy}
use axiome_os.Security.Users.{User, max_users}
use axiome_os.Security.Passwd.{
  field_of, after_field, split_fields, user_of_fields, copy_field, parse_passwd_line,
}

-- The fields with a colon between each two.
unfoldable pub join : List (List ℕ) → List ℕ
join [] = []
join (f ∷ []) = f
join (f ∷ g ∷ fs) = f ++ b':' ∷ join (g ∷ fs)

-- No colon and no NUL.
unfoldable pub is_field : List ℕ → Bool
is_field [] = true
is_field (c ∷ s) = not (c == b':') && not (c == 0) && is_field s

unfoldable pub are_fields : List (List ℕ) → Bool
are_fields [] = true
are_fields (f ∷ fs) = is_field f && are_fields fs

field_of-append : (f rest : List ℕ) → is_field f ≡ true → field_of (f ++ b':' ∷ rest) ≡ f
unfolding field_of is_field
field_of-append [] rest h = refl
field_of-append (c ∷ f) rest h = ground (arith, field_of-append f rest)

after_field-append : (f rest : List ℕ) → is_field f ≡ true → after_field (f ++ b':' ∷ rest) ≡ rest
unfolding after_field is_field
after_field-append [] rest h = refl
after_field-append (c ∷ f) rest h = ground (arith, after_field-append f rest)

field_of-last : (f : List ℕ) → is_field f ≡ true → field_of f ≡ f
unfolding field_of is_field
field_of-last [] h = refl
field_of-last (c ∷ f) h = ground (arith, field_of-last f)

after_field-last : (f : List ℕ) → is_field f ≡ true → after_field f ≡ []
unfolding after_field is_field
after_field-last [] h = refl
after_field-last (c ∷ f) h = ground (arith, after_field-last f)

split_fields-cons :
    (n : ℕ) (f rest : List ℕ)
    → is_field f ≡ true
    → split_fields (suc n) (f ++ b':' ∷ rest) ≡ f ∷ split_fields n rest
unfolding split_fields
split_fields-cons n [] rest h = rw (field_of-append [] rest h, after_field-append [] rest h) refl
split_fields-cons n (c ∷ f) rest h =
    rw (field_of-append (c ∷ f) rest h, after_field-append (c ∷ f) rest h) refl

split_fields-last :
    (n : ℕ) (f : List ℕ) → is_field f ≡ true → f ≢ [] → split_fields (suc n) f ≡ f ∷ []
unfolding split_fields
split_fields-last n [] h ne = absurd (ne refl)
split_fields-last zero (c ∷ f) h ne = rw (field_of-last (c ∷ f) h) refl
split_fields-last (suc n) (c ∷ f) h ne =
    rw (field_of-last (c ∷ f) h, after_field-last (c ∷ f) h) refl

c_str-is_field : (f s : List ℕ) → is_field f ≡ true → c_str (f ++ s) ≡ f ++ c_str s
unfolding is_field c_str
c_str-is_field [] s h = refl
c_str-is_field (c ∷ f) s h = ground (arith, c_str-is_field f s)

c_str-field : (f : List ℕ) → is_field f ≡ true → c_str f ≡ f
unfolding is_field c_str
c_str-field [] h = refl
c_str-field (c ∷ f) h = ground (arith, c_str-field f)

are_fields-head : (f : List ℕ) (fs : List (List ℕ)) → are_fields (f ∷ fs) ≡ true → is_field f ≡ true
unfolding are_fields
are_fields-head f fs h = ground arith

are_fields-tail :
    (f : List ℕ) (fs : List (List ℕ)) → are_fields (f ∷ fs) ≡ true → are_fields fs ≡ true
unfolding are_fields
are_fields-tail f fs h = ground arith

-- Whether the last of the fields has a character.
abbrev pub has_last : List (List ℕ) → Bool
has_last [] = false
has_last (f ∷ []) = not (length f == 0)
has_last (f ∷ g ∷ fs) = has_last (g ∷ fs)

nonempty-length : (f : List ℕ) → not (length f == 0) ≡ true → f ≢ []
nonempty-length [] h e = ground arith
nonempty-length (c ∷ f) h e = ground (arith, ap length e)

split_fields-join :
    (n : ℕ) (fs : List (List ℕ))
    → length fs ≤ n
    → are_fields fs ≡ true
    → has_last fs ≡ true
    → split_fields n (join fs) ≡ fs
unfolding join
split_fields-join n [] le h k = absurd (ground arith)
split_fields-join zero (f ∷ fs) le h k = absurd (omega arith)
split_fields-join (suc n) (f ∷ []) le h k =
    split_fields-last n f (are_fields-head f [] h) (nonempty-length f k)
split_fields-join (suc n) (f ∷ g ∷ fs) le h k =
    split_fields-cons n f (join (g ∷ fs)) (are_fields-head f (g ∷ fs) h)
    ∙ ap (λ r. f ∷ r) (split_fields-join n (g ∷ fs) (omega arith) (are_fields-tail f (g ∷ fs) h) k)

c_str-join : (fs : List (List ℕ)) → are_fields fs ≡ true → c_str (join fs) ≡ join fs
unfolding join c_str
c_str-join [] h = refl
c_str-join (f ∷ []) h = c_str-field f (are_fields-head f [] h)
c_str-join (f ∷ g ∷ fs) h =
    c_str-is_field f (b':' ∷ join (g ∷ fs)) (are_fields-head f (g ∷ fs) h)
    ∙ ap (λ r. f ++ b':' ∷ r) (c_str-join (g ∷ fs) (are_fields-tail f (g ∷ fs) h))

first-zeros : (k n : ℕ) → first (drop k (replicate n 0)) ≡ 0
first-zeros zero zero = refl
first-zeros zero (suc n) = refl
first-zeros (suc k) zero = refl
first-zeros (suc k) (suc n) = first-zeros k n

c_str-copy_field :
    (size : ℕ) (s : List ℕ) → 0 < size → c_str (copy_field size s) ≡ take (size - 1) (c_str s)
unfolding copy_field
c_str-copy_field size s h =
    c_str-strncpy (replicate size 0) s (size - 1) (omega (arith, length-replicate {A = ℕ} size 0))
      (first-zeros (size - 1) size)

-- For seven fields of characters that are neither colons nor NULs, the last not empty, that with the
-- six colons make at most 255 characters, and a database that is not full: parsing the line that joins
-- them adds one user, made from exactly these fields, and its name, hash, home and shell are
-- the strings of the fields 0, 1, 5 and 6, cut after 31, 64, 127 and 63 characters.
pub parse_passwd_line-join :
    (us : List User) (fs : List (List ℕ))
    → length fs ≡ 7
    → are_fields fs ≡ true
    → has_last fs ≡ true
    → length (join fs) ≤ 255
    → length us < max_users
    → (parse_passwd_line us (join fs) ≡ us ++ user_of_fields fs ∷ [])
      × (c_str (user_of_fields fs).name ≡ take 31 (c_str (get_or fs 0 [])))
      × (c_str (user_of_fields fs).passwd_hash ≡ take 64 (c_str (get_or fs 1 [])))
      × (c_str (user_of_fields fs).home ≡ take 127 (c_str (get_or fs 5 [])))
      × (c_str (user_of_fields fs).shell ≡ take 63 (c_str (get_or fs 6 [])))
unfolding parse_passwd_line user_of_fields
parse_passwd_line-join us fs seven ok last fits room = (
  rw (c_str-join fs ok, take_all 255 (join fs) fits, split_fields-join 7 fs (omega arith) ok last)
      (ground arith),
  c_str-copy_field 32 _ (omega arith),
  c_str-copy_field 65 _ (omega arith),
  c_str-copy_field 128 _ (omega arith),
  c_str-copy_field 64 _ (omega arith),
)
