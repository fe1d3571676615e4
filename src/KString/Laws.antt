-- ===== src/KString/Laws.antt =====
-- kernel/string.c against the strings that the pointers stand for.
use axiome_os.Prelude.{
  ℕ, zero, suc, ◌%◌, ◌≤◌, ◌<◌, ◌≡◌, ◌↔◌, refl, ap, true, List, [], ◌∷◌, ◌++◌, arith, ◌==◌,
  if◌then◌else◌, length, take, drop, replicate,
}
use axiome_os.Prelude.Int.{is_zero}
use axiome_os.KString.{first, memcpy, memset, strlen, strcmp, strncmp, strncpy}

-- The string at a pointer: the bytes before the first NUL.
unfoldable pub c_str : List ℕ → List ℕ
c_str [] = []
c_str (c ∷ s) = if c == 0 then [] else c ∷ c_str s

pub length-c_str : (s : List ℕ) → strlen s ≡ length (c_str s)
unfolding strlen c_str
length-c_str [] = refl
length-c_str (c ∷ s) = ground (arith, length-c_str s)

-- `strcmp` returns 0 exactly for equal strings, whatever stands behind their ends.
pub strcmp-c_str : (a b : List ℕ) → (is_zero (strcmp a b) ≡ true) ↔ (c_str a ≡ c_str b)
unfolding strcmp c_str
strcmp-c_str [] [] = (λ h. refl, λ h. refl)
strcmp-c_str [] (y ∷ b) = (ground arith, ground arith)
strcmp-c_str (x ∷ a) [] = (ground arith, ground arith)
strcmp-c_str (x ∷ a) (y ∷ b) = let ih = strcmp-c_str a b in (ground (arith, ih), ground (arith, ih))

-- `strncpy` of at most `n` bytes into a longer array leaves the string's first `n` bytes in it,
-- with a NUL behind them if the array held one at index `n`.
pub c_str-strncpy :
    (dst src : List ℕ) (n : ℕ)
    → n < length dst
    → first (drop n dst) ≡ 0
    → c_str (strncpy dst src n) ≡ take n (c_str src)
unfolding strncpy c_str
c_str-strncpy [] src n lt z = absurd (omega arith)
c_str-strncpy (d ∷ dst) src zero lt z = ground arith
c_str-strncpy (d ∷ dst) [] (suc n) lt z = refl
c_str-strncpy (d ∷ dst) (c ∷ src) (suc n) lt z =
    ground (arith, c_str-strncpy dst src n (omega arith) z)

-- `strncmp` of the first `n` bytes returns 0 exactly where the strings agree on them.
pub strncmp-take :
    (a b : List ℕ) (n : ℕ)
    → (is_zero (strncmp a b n) ≡ true) ↔ (take n (c_str a) ≡ take n (c_str b))
unfolding strncmp c_str
strncmp-take a b zero = (λ h. refl, λ h. refl)
strncmp-take [] [] (suc n) = (λ h. refl, λ h. refl)
strncmp-take [] (y ∷ b) (suc n) = (ground arith, ground arith)
strncmp-take (x ∷ a) [] (suc n) = (ground arith, ground arith)
strncmp-take (x ∷ a) (y ∷ b) (suc n) =
    let ih = strncmp-take a b n in (ground (arith, ih), ground (arith, ih))

-- What `memcpy` and `memset` leave in an array: the first `n` cells are the source's, or the byte,
-- and the rest stays.
pub memcpy-take :
    (dst src : List ℕ) (n : ℕ)
    → n ≤ length dst
    → n ≤ length src
    → memcpy dst src n ≡ take n src ++ drop n dst
unfolding memcpy
memcpy-take dst src zero h k = refl
memcpy-take [] src (suc n) h k = absurd (omega arith)
memcpy-take (d ∷ dst) [] (suc n) h k = absurd (omega arith)
memcpy-take (d ∷ dst) (c ∷ src) (suc n) h k =
    ap (λ s. c ∷ s) (memcpy-take dst src n (omega arith) (omega arith))

pub memset-replicate :
    (dst : List ℕ) (c n : ℕ) → n ≤ length dst → memset dst c n ≡ replicate n (c % 256) ++ drop n dst
unfolding memset
memset-replicate dst c zero h = refl
memset-replicate [] c (suc n) h = absurd (omega arith)
memset-replicate (d ∷ dst) c (suc n) h =
    ap (λ s. c % 256 ∷ s) (memset-replicate dst c n (omega arith))
