-- ===== src/Vfs/Mounts/Laws.antt =====
-- Which mount a path resolves to.
use axiome_os.Prelude.{
  ℕ, zero, suc, ◌≤◌, ◌≡◌, ◌⊎◌, refl, sym, ap, ◌∙◌, inl, inr, true, Option, none, some, List, [],
  ◌∷◌, leb, get_elem?, arith, Bool-cases, if_either, gt_at, le_at,
}
use axiome_os.Vfs.Paths.{vstrlen}
use axiome_os.Vfs.Mounts.{Super, is_candidate, find_best, mount_find}

option_or : Super → Option Super → Super
option_or d none = d
option_or d (some x) = x

some_inj : {x y : Super} → some x ≡ some y → x ≡ y
unfolding option_or
some_inj {x = x} e = ap (option_or x) e

leb_zero : (a : ℕ) → leb 0 a ≡ true
leb_zero a = ground arith

-- The entry stands in the table and matches the path.
unfoldable pub Matches : List ℕ → List Super → Super → Type 0
Matches abs ms r = (i : ℕ) × (get_elem? ms i ≡ some r) × (is_candidate abs r.mountpoint ≡ true)

abbrev len : Super → ℕ
len sb = vstrlen sb.mountpoint

Matches-cons :
    (abs : List ℕ) (sb : Super) (ms : List Super) (r : Super)
    → Matches abs ms r
    → Matches abs (sb ∷ ms) r
unfolding Matches
Matches-cons abs sb ms r (i, e, c) = (suc i, e, c)

from_head :
    (abs : List ℕ) (sb : Super) (ms : List Super) (r : Super)
    → is_candidate abs sb.mountpoint ≡ true
    → (r ≡ sb) ⊎ Matches abs ms r
    → Matches abs (sb ∷ ms) r
unfolding Matches
from_head abs sb ms r c (inl e) = (0, ap some (sym e), rw e c)
from_head abs sb ms r c (inr m) = Matches-cons abs sb ms r m

-- What the loop over `ms` returns, from the best entry `b`.
abbrev Found : List ℕ → List Super → Super → Super → Type 0
Found abs ms b r =
    (find_best abs ms (some b) (len b) ≡ some r) × (len b ≤ len r) × ((r ≡ b) ⊎ Matches abs ms r)

skipped :
    (abs : List ℕ) (sb : Super) (ms : List Super) (b : Super)
    → (r : Super) × Found abs ms b r
    → (r : Super) × ((find_best abs ms (some b) (len b) ≡ some r)
        × (len b ≤ len r)
        × ((r ≡ b) ⊎ Matches abs (sb ∷ ms) r))
skipped abs sb ms b (r, (found, le, inl e)) = (r, (found, le, inl e))
skipped abs sb ms b (r, (found, le, inr m)) = (r, (found, le, inr (Matches-cons abs sb ms r m)))

-- With a best entry, the loop returns one that is at least as long.
find_best-some : (abs : List ℕ) (ms : List Super) (b : Super) → (r : Super) × Found abs ms b r
unfolding find_best
find_best-some abs [] b = (b, (refl, omega arith, inl refl))
find_best-some abs (sb ∷ ms) b = elim (Bool-cases (is_candidate abs sb.mountpoint)) [
  | inl c ↦ rw c (elim (Bool-cases (leb (len b) (len sb))) [
    | inl l ↦ rw l (
        let (r, (found, le, from)) = find_best-some abs ms sb in
        (r, (found, omega (arith, le_at (len b) (len sb) l), inr (from_head abs sb ms r c from))))
    | inr l ↦ rw l (skipped abs sb ms b (find_best-some abs ms b))
  ])
  | inr c ↦ rw c (skipped abs sb ms b (find_best-some abs ms b))
]

-- From a best entry, the loop returns one that is no shorter than any that matches.
find_best-longest :
    (abs : List ℕ) (ms : List Super) (b : Super) (i : ℕ) (sb : Super)
    → get_elem? ms i ≡ some sb
    → is_candidate abs sb.mountpoint ≡ true
    → (r : Super) × (find_best abs ms (some b) (len b) ≡ some r) × (len sb ≤ len r)
unfolding find_best
find_best-longest abs [] b i sb at c = absurd (ground arith)
find_best-longest abs (m ∷ ms) b zero sb at c =
    let e = some_inj at in
    rw (ap (λ (s : Super). is_candidate abs s.mountpoint) e ∙ c)
      (elim (Bool-cases (leb (len b) (len m))) [
        | inl l ↦ rw l (
            let (r, (found, le, from)) = find_best-some abs ms m in
            (r, found, omega (arith, ap len e)))
        | inr l ↦ rw l (
            let (r, (found, le, from)) = find_best-some abs ms b in
            (r, found, omega (arith, ap len e, gt_at (len b) (len m) l)))
      ])
find_best-longest abs (m ∷ ms) b (suc i) sb at c =
    if_either (λ x. (r : Super) × (x ≡ some r) × (len sb ≤ len r)) (is_candidate abs m.mountpoint) _
      _
      (λ u.
        if_either (λ x. (r : Super) × (x ≡ some r) × (len sb ≤ len r)) (leb (len b) (len m)) _ _
          (λ v. find_best-longest abs ms m i sb at c) (λ v. find_best-longest abs ms b i sb at c))
      (λ u. find_best-longest abs ms b i sb at c)

-- For each mount that matches a path: `mount_find` returns a mount of the table that matches the path
-- and whose mount point is at least as long.
pub mount_find-longest :
    (abs : List ℕ) (ms : List Super) (i : ℕ) (sb : Super)
    → get_elem? ms i ≡ some sb
    → is_candidate abs sb.mountpoint ≡ true
    → (r : Super) × (mount_find ms abs ≡ some r) × (len sb ≤ len r) × Matches abs ms r
unfolding mount_find find_best
mount_find-longest abs [] i sb at c = absurd (ground arith)
mount_find-longest abs (m ∷ ms) zero sb at c =
    let e = some_inj at in
    let cm = ap (λ (s : Super). is_candidate abs s.mountpoint) e ∙ c in
    let (r, (found, le, from)) = find_best-some abs ms m in
    rw (cm, leb_zero (len m)) (r, found, omega (arith, ap len e), from_head abs m ms r cm from)
mount_find-longest abs (m ∷ ms) (suc i) sb at c =
    elim (Bool-cases (is_candidate abs m.mountpoint)) [
      | inl u ↦
          let (r, (found, le, from)) = find_best-some abs ms m in
          let (q, again, lq) = find_best-longest abs ms m i sb at c in
          rw (u, leb_zero (len m))
            (
              r,
              found,
              omega (arith, lq, ap len (some_inj (sym again ∙ found))),
              from_head abs m ms r u from,
            )
      | inr u ↦
          let (r, found, le, from) = mount_find-longest abs ms i sb at c in
          rw u (r, found, le, Matches-cons abs m ms r from)
    ]
