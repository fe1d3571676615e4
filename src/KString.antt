-- ===== src/KString.antt =====
-- kernel/string.c. A pointer to characters is the list of the bytes from there on; behind the
-- list's end stands a NUL.
pub mod Laws
use axiome_os.Prelude.{
  ℕ, zero, suc, ◌+◌, ◌%◌, Bool, true, false, not, ◌&&◌, List, [], ◌∷◌, ◌==◌, if◌then◌else◌,
}
use axiome_os.Prelude.Int.{ℤ, pos, sub_ℕ}

-- `*s`
abbrev pub first : List ℕ → ℕ
first [] = 0
first (c ∷ s) = c

-- `s + 1`
abbrev pub next : List ℕ → List ℕ
next [] = []
next (c ∷ s) = s

-- `dst` and `src` apart; what lies behind `n` bytes stays.
pub memcpy : List ℕ → List ℕ → ℕ → List ℕ
memcpy dst src zero = dst
memcpy [] src (suc n) = []
memcpy (d ∷ dst) src (suc n) = first src ∷ memcpy dst (next src) n

pub memset : List ℕ → ℕ → ℕ → List ℕ
memset dst c zero = dst
memset [] c (suc n) = []
memset (d ∷ dst) c (suc n) = c % 256 ∷ memset dst c n

unfoldable pub strlen : List ℕ → ℕ
strlen [] = 0
strlen (c ∷ s) = if c == 0 then 0 else suc (strlen s)

unfoldable pub strcmp : List ℕ → List ℕ → ℤ
strcmp [] b = sub_ℕ 0 (first b)
strcmp (x ∷ a) [] = sub_ℕ x 0
strcmp (x ∷ a) (y ∷ b) = if not (x == 0) && (x == y) then strcmp a b else sub_ℕ x y

pub strncmp : List ℕ → List ℕ → ℕ → ℤ
strncmp a b zero = pos 0
strncmp a b (suc n) =
    let rest = strncmp (next a) (next b) n in
    if not (first a == first b)
    then sub_ℕ (first a) (first b)
    else if first a == 0
    then pos 0
    else rest

-- The bytes up to the NUL and the NUL; a destination that is too short is a fault outside this model.
pub strcpy : List ℕ → List ℕ → List ℕ
strcpy [] src = []
strcpy (d ∷ dst) [] = 0 ∷ dst
strcpy (d ∷ dst) (c ∷ src) = c ∷ (if c == 0 then dst else strcpy dst src)

unfoldable pub strncpy : List ℕ → List ℕ → ℕ → List ℕ
strncpy dst src zero = dst
strncpy [] src (suc n) = []
strncpy (d ∷ dst) src (suc n) = first src ∷ strncpy dst (if first src == 0 then [] else next src) n
