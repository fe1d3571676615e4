-- ===== src/Vfs/Paths.antt =====
-- The string helpers and the path functions of kernel/vfs.c.
pub mod Laws
use axiome_os.Prelude.{
  ℕ, zero, suc, ◌+◌, ◌-◌, Bool, true, false, not, ◌&&◌, ◌||◌, List, [], ◌∷◌, ◌++◌, ltb, leb, ◌==◌,
  if◌then◌else◌, length, get_or, take, drop,
}
use axiome_os.Prelude.Int.{ℤ, sub_ℕ}
use axiome_os.KString.{first, next}

abbrev pub max_name : ℕ
max_name = 255

unfoldable pub vstrlen : List ℕ → ℕ
vstrlen [] = 0
vstrlen (c ∷ s) = if c == 0 then 0 else suc (vstrlen s)

unfoldable pub vstrcmp : List ℕ → List ℕ → ℤ
vstrcmp [] b = sub_ℕ 0 (first b)
vstrcmp (x ∷ a) [] = sub_ℕ x 0
vstrcmp (x ∷ a) (y ∷ b) = if not (x == 0) && (x == y) then vstrcmp a b else sub_ℕ x y

-- The string that is left in the destination.
unfoldable pub vstrncpy : List ℕ → ℕ → List ℕ
vstrncpy s zero = []
vstrncpy [] (suc n) = []
vstrncpy (c ∷ s) (suc n) = if c == 0 then [] else c ∷ vstrncpy s n

unfoldable pub vstrncmp_prefix : List ℕ → List ℕ → ℕ → Bool
vstrncmp_prefix abs prefix zero = true
vstrncmp_prefix abs prefix (suc m) =
    first abs == first prefix && vstrncmp_prefix (next abs) (next prefix) m

-- `g_vfs_aliases`
pub vfs_aliases : List (List ℕ × List ℕ)
vfs_aliases =
    (
      (b'/' ∷ b'b' ∷ b'i' ∷ b'n' ∷ []),
      (b'/' ∷ b'B' ∷ b'i' ∷ b'n' ∷ b'a' ∷ b'r' ∷ b'i' ∷ b'e' ∷ b's' ∷ []),
    )
    ∷ ((b'/' ∷ b'h' ∷ b'o' ∷ b'm' ∷ b'e' ∷ []), (b'/' ∷ b'U' ∷ b's' ∷ b'e' ∷ b'r' ∷ b's' ∷ []))
    ∷ (
      (b'/' ∷ b'd' ∷ b'e' ∷ b'v' ∷ []),
      (b'/' ∷ b'D' ∷ b'e' ∷ b'v' ∷ b'i' ∷ b'c' ∷ b'e' ∷ b's' ∷ []),
    )
    ∷ (
      (b'/' ∷ b't' ∷ b'm' ∷ b'p' ∷ []),
      (b'/' ∷ b'T' ∷ b'e' ∷ b'm' ∷ b'p' ∷ b'o' ∷ b'r' ∷ b'a' ∷ b'r' ∷ b'y' ∷ []),
    )
    ∷ (
      (b'/' ∷ b'e' ∷ b't' ∷ b'c' ∷ []),
      (b'/' ∷ b'S' ∷ b'y' ∷ b's' ∷ b't' ∷ b'e' ∷ b'm' ∷ b'/' ∷ b'C' ∷ b'o' ∷ b'n' ∷ b'f' ∷ b'i'
          ∷ b'g' ∷ b'u' ∷ b'r' ∷ b'a' ∷ b't' ∷ b'i' ∷ b'o' ∷ b'n' ∷ []),
    )
    ∷ (
      (b'/' ∷ b'v' ∷ b'a' ∷ b'r' ∷ []),
      (b'/' ∷ b'S' ∷ b'y' ∷ b's' ∷ b't' ∷ b'e' ∷ b'm' ∷ b'/' ∷ b'V' ∷ b'a' ∷ b'r' ∷ b'i' ∷ b'a'
          ∷ b'b' ∷ b'l' ∷ b'e' ∷ []),
    )
    ∷ (
      (b'/' ∷ b'p' ∷ b'r' ∷ b'o' ∷ b'c' ∷ []),
      (b'/' ∷ b'S' ∷ b'y' ∷ b's' ∷ b't' ∷ b'e' ∷ b'm' ∷ b'/' ∷ b'P' ∷ b'r' ∷ b'o' ∷ b'c' ∷ b'e'
          ∷ b's' ∷ b's' ∷ []),
    )
    ∷ []

-- The loop over the aliases that are left.
pub apply_alias : List (List ℕ × List ℕ) → List ℕ → List ℕ
apply_alias [] abs = abs
apply_alias ((alias, canon) ∷ rest) abs =
    let a = vstrlen alias in
    let later = apply_alias rest abs in
    if not (vstrncmp_prefix abs alias a)
    then later
    else if not (get_or abs a 0 == 0) && not (get_or abs a 0 == b'/')
    then later
    else if leb (319 + a) (vstrlen abs + vstrlen canon)
    then abs
    else canon ++ drop a abs

pub vfs_apply_aliases : List ℕ → List ℕ
vfs_apply_aliases abs = apply_alias vfs_aliases abs

-- The slash between the working directory and the path.
pub with_slash : List ℕ → List ℕ
with_slash out =
    let i = length out in
    if ltb 0 i && not (get_or out (i - 1) 0 == b'/') && ltb i max_name
    then out ++ b'/' ∷ []
    else out

pub absolutize : List ℕ → List ℕ → List ℕ
absolutize path cwd =
    if first path == b'/'
    then vfs_apply_aliases (vstrncpy path max_name)
    else let out = with_slash (vstrncpy cwd max_name) in
      vfs_apply_aliases (out ++ vstrncpy path (max_name - length out))

abbrev pub tmp_path : List ℕ
tmp_path = b'/' ∷ b't' ∷ b'm' ∷ b'p' ∷ []

abbrev pub temporary_path : List ℕ
temporary_path = b'/' ∷ b'T' ∷ b'e' ∷ b'm' ∷ b'p' ∷ b'o' ∷ b'r' ∷ b'a' ∷ b'r' ∷ b'y' ∷ []

pub vfs_path_is_under_tmp : List ℕ → Bool
vfs_path_is_under_tmp abs =
    if vstrncmp_prefix abs tmp_path 4
    then get_or abs 4 0 == 0 || (get_or abs 4 0 == b'/')
    else if vstrncmp_prefix abs temporary_path 10
    then get_or abs 10 0 == 0 || (get_or abs 10 0 == b'/')
    else false

-- `while (i > 0 && abs[i] != '/') i--`
pub last_slash : List ℕ → ℕ → ℕ
last_slash abs zero = zero
last_slash abs (suc i) = if get_or abs (suc i) 0 == b'/' then suc i else last_slash abs i

pub vfs_parent_path : List ℕ → List ℕ
vfs_parent_path abs =
    let len = vstrlen abs in
    if leb len 1
    then b'/' ∷ []
    else let i = last_slash abs (len - 1) in if i == 0 then b'/' ∷ [] else take i abs
