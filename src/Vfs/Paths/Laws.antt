-- ===== src/Vfs/Paths/Laws.antt =====
-- The aliases are applied once, and a resolved path fits its buffer.
use axiome_os.Prelude.{
  ℕ, zero, suc, ◌+◌, ◌-◌, ◌≤◌, ◌<◌, ◌≡◌, ◌⊎◌, refl, inl, inr, Bool, true, false, not, ◌&&◌, List,
  [], ◌∷◌, ◌++◌, ltb, leb, ◌==◌, length, length-append, length-drop, get_or, drop, arith, ap,
  if_either, gt_at, lt_at, and_right,
}
use axiome_os.KString.{first, next}
use axiome_os.Vfs.Paths.{
  vstrlen, vstrncpy, vstrncmp_prefix, vfs_aliases, apply_alias, vfs_apply_aliases, with_slash,
  absolutize, max_name,
}

abbrev upper : ℕ → Bool
upper c = leb b'A' c && leb c b'Z'

abbrev lower : ℕ → Bool
lower c = leb b'a' c && leb c b'z'

-- What the table's entries have in common: an alias is a slash and a small letter and more, a
-- canonical name a slash and a capital letter and more.
good : List (List ℕ × List ℕ) → Bool
good [] = true
good ((alias, canon) ∷ rest) =
    (first alias == b'/')
    && lower (first (next alias))
    && upper (get_or canon 1 0)
    && (first canon == b'/')
    && (vstrlen canon == length canon)
    && ltb (length canon) 319
    && good rest

good-vfs_aliases : good vfs_aliases ≡ true
unfolding good vfs_aliases vstrlen
good-vfs_aliases = refl

no_prefix :
    (abs alias : List ℕ)
    → first alias == b'/' ≡ true
    → lower (first (next alias)) ≡ true
    → upper (get_or abs 1 0) ≡ true
    → vstrncmp_prefix abs alias (vstrlen alias) ≡ false
unfolding vstrncmp_prefix vstrlen
no_prefix abs [] s l u = absurd (ground arith)
no_prefix abs (x ∷ []) s l u = absurd (ground arith)
no_prefix [] (x ∷ y ∷ alias) s l u = ground arith
no_prefix (c ∷ []) (x ∷ y ∷ alias) s l u = ground arith
no_prefix (c ∷ d ∷ abs) (x ∷ y ∷ alias) s l u = ground arith

apply_alias-upper :
    (t : List (List ℕ × List ℕ)) (abs : List ℕ)
    → good t ≡ true
    → upper (get_or abs 1 0) ≡ true
    → apply_alias t abs ≡ abs
unfolding apply_alias good
apply_alias-upper [] abs h u = refl
apply_alias-upper ((alias, canon) ∷ rest) abs h u =
    rw (no_prefix abs alias (ground arith) (ground arith) u)
      (apply_alias-upper rest abs (ground arith) u)

get_or-append : (s r : List ℕ) → upper (get_or s 1 0) ≡ true → get_or (s ++ r) 1 0 ≡ get_or s 1 0
get_or-append [] r u = absurd (ground arith)
get_or-append (c ∷ []) r u = absurd (ground arith)
get_or-append (c ∷ d ∷ s) r u = refl

-- A path is left alone, or it gets a canonical name, and the room for it is there.
Renamed : List ℕ → List ℕ → Type 0
Renamed abs r = (r ≡ abs) ⊎ ((upper (get_or r 1 0) ≡ true) × (first r ≡ b'/') × (length r ≤ 318))

same : (abs : List ℕ) → Renamed abs abs
unfolding Renamed
same abs = inl refl

good-sizes :
    (alias canon : List ℕ) (rest : List (List ℕ × List ℕ))
    → good ((alias, canon) ∷ rest) ≡ true
    → (vstrlen canon ≡ length canon) × (length canon < 319)
unfolding good
good-sizes alias canon rest h = (ground arith, ground arith)

Renamed-canon :
    (alias canon : List ℕ) (rest : List (List ℕ × List ℕ)) (abs : List ℕ)
    → good ((alias, canon) ∷ rest) ≡ true
    → vstrlen abs ≡ length abs
    → leb (319 + vstrlen alias) (vstrlen abs + vstrlen canon) ≡ false
    → Renamed abs (canon ++ drop (vstrlen alias) abs)
unfolding good Renamed
Renamed-canon alias [] rest abs h e k = absurd (ground arith)
Renamed-canon alias (c ∷ []) rest abs h e k = absurd (ground arith)
Renamed-canon alias (c ∷ d ∷ canon) rest abs h e k =
    let n = length-append canon (drop (vstrlen alias) abs) in
    let m = length-drop (vstrlen alias) abs in
    let z = good-sizes alias (c ∷ d ∷ canon) rest h in
    let lt = gt_at (319 + vstrlen alias) (vstrlen abs + vstrlen (c ∷ d ∷ canon)) k in
    inr (ground arith, ground arith, omega (arith, n, m, z.0, z.1, lt, e))

good-tail :
    (alias canon : List ℕ) (rest : List (List ℕ × List ℕ))
    → good ((alias, canon) ∷ rest) ≡ true
    → good rest ≡ true
unfolding good
good-tail alias canon rest h = ground arith

Renamed-apply_alias :
    (t : List (List ℕ × List ℕ)) (abs : List ℕ)
    → good t ≡ true
    → vstrlen abs ≡ length abs
    → Renamed abs (apply_alias t abs)
unfolding apply_alias
Renamed-apply_alias [] abs h e = same abs
Renamed-apply_alias ((alias, canon) ∷ rest) abs h e =
    let a = vstrlen alias in
    let ih = Renamed-apply_alias rest abs (good-tail alias canon rest h) e in
    if_either (Renamed abs) (not (vstrncmp_prefix abs alias a)) _ _ (λ u. ih)
      (λ u.
        if_either (Renamed abs) (not (get_or abs a 0 == 0) && not (get_or abs a 0 == b'/')) _ _
          (λ v. ih)
          (λ v.
            if_either (Renamed abs) (leb (319 + a) (vstrlen abs + vstrlen canon)) _ _
              (λ w. same abs) (λ w. Renamed-canon alias canon rest abs h e w)))

-- For each path without a NUL: applying the aliases to the result changes nothing more.
pub vfs_apply_aliases-vfs_apply_aliases :
    (abs : List ℕ)
    → vstrlen abs ≡ length abs
    → vfs_apply_aliases (vfs_apply_aliases abs) ≡ vfs_apply_aliases abs
unfolding vfs_apply_aliases Renamed
vfs_apply_aliases-vfs_apply_aliases abs e =
    elim (Renamed-apply_alias vfs_aliases abs good-vfs_aliases e) [
      | inl same_path ↦ ap (apply_alias vfs_aliases) same_path
      | inr (u, _, _) ↦
          apply_alias-upper vfs_aliases (apply_alias vfs_aliases abs) good-vfs_aliases u
    ]

length-vfs_apply_aliases :
    (abs : List ℕ)
    → vstrlen abs ≡ length abs
    → length abs ≤ max_name
    → length (vfs_apply_aliases abs) < 320
unfolding vfs_apply_aliases Renamed
length-vfs_apply_aliases abs e le = elim (Renamed-apply_alias vfs_aliases abs good-vfs_aliases e) [
  | inl same_path ↦ rw same_path (omega arith)
  | inr (_, _, short) ↦ omega arith
]

length-vstrncpy : (s : List ℕ) (n : ℕ) → length (vstrncpy s n) ≤ n
unfolding vstrncpy
length-vstrncpy s zero = omega arith
length-vstrncpy [] (suc n) = omega arith
length-vstrncpy (c ∷ s) (suc n) = ground (arith, length-vstrncpy s n)

vstrlen-vstrncpy : (s : List ℕ) (n : ℕ) → vstrlen (vstrncpy s n) ≡ length (vstrncpy s n)
unfolding vstrncpy vstrlen
vstrlen-vstrncpy s zero = refl
vstrlen-vstrncpy [] (suc n) = refl
vstrlen-vstrncpy (c ∷ s) (suc n) = ground (arith, vstrlen-vstrncpy s n)

vstrlen-append :
    (s r : List ℕ)
    → vstrlen s ≡ length s
    → vstrlen r ≡ length r
    → vstrlen (s ++ r) ≡ length (s ++ r)
unfolding vstrlen
vstrlen-append [] r h k = k
vstrlen-append (c ∷ s) r h k = ground (arith, vstrlen-append s r)

slash : vstrlen (b'/' ∷ []) ≡ 1
unfolding vstrlen
slash = refl

resolved :
    (abs : List ℕ)
    → vstrlen abs ≡ length abs
    → length abs ≤ max_name
    → (length (vfs_apply_aliases abs) < 320)
      × (vfs_apply_aliases (vfs_apply_aliases abs) ≡ vfs_apply_aliases abs)
resolved abs e le = (length-vfs_apply_aliases abs e le, vfs_apply_aliases-vfs_apply_aliases abs e)

with_slash_lem :
    (s : List ℕ)
    → vstrlen s ≡ length s
    → length s ≤ max_name
    → (vstrlen (with_slash s) ≡ length (with_slash s)) × (length (with_slash s) ≤ max_name)
unfolding with_slash
with_slash_lem s h k =
    if_either (λ r. (vstrlen r ≡ length r) × (length r ≤ max_name))
      (ltb 0 (length s) && not (get_or s (length s - 1) 0 == b'/') && ltb (length s) max_name)
      (s ++ b'/' ∷ []) s
      (λ u.
        let lt = lt_at (length s) max_name (and_right _ _ u) in
        (vstrlen-append s (b'/' ∷ []) h slash, omega (arith, length-append s (b'/' ∷ []), lt)))
      (λ u. (h, k))

-- For each path and working directory: the resolved path and its NUL fit the 320 bytes that
-- the callers have for it, and applying the aliases to it changes nothing more.
pub length-absolutize :
    (path cwd : List ℕ)
    → (length (absolutize path cwd) < 320)
      × (vfs_apply_aliases (absolutize path cwd) ≡ absolutize path cwd)
unfolding absolutize
length-absolutize path cwd =
    if_either (λ r. (length r < 320) × (vfs_apply_aliases r ≡ r)) (first path == b'/') _ _
      (λ u.
        resolved (vstrncpy path max_name) (vstrlen-vstrncpy path max_name)
          (length-vstrncpy path max_name))
      (λ u.
        let w =
          with_slash_lem (vstrncpy cwd max_name) (vstrlen-vstrncpy cwd max_name)
            (length-vstrncpy cwd max_name) in
        let out = with_slash (vstrncpy cwd max_name) in
        let tail = vstrncpy path (max_name - length out) in
        resolved (out ++ tail)
          (vstrlen-append out tail w.0 (vstrlen-vstrncpy path (max_name - length out)))
          (omega
            (arith, w.1, length-append out tail, length-vstrncpy path (max_name - length out))))
