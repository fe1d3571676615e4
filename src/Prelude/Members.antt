-- ===== src/Prelude/Members.antt =====
-- Membership in a list of numbers, lists without repetition, and disjunctions of tests.
use Prim.Native.Nat.{ℕ}
use mathlib.Core.Path.{◌≡◌, refl, sym, ap, ◌∙◌}
use mathlib.Core.Logic.{◌≢◌, ◌⊎◌, inl, inr}
use mathlib.Core.Bool.{Bool, true, false, ◌||◌}
use mathlib.Core.Option.{Option, none, some}
use mathlib.Core.List.{List, [], ◌∷◌, ◌++◌}
use native.Mathlib.Omega.{arith}
use axiome_os.Prelude.Tests.{◌==◌, ==_iff, Bool-cases}

unfoldable pub is_in : ℕ → List ℕ → Bool
is_in x [] = false
is_in x (y ∷ ys) = y == x || is_in x ys

abbrev pub AreDistinct : List ℕ → Type 0
AreDistinct [] = Unit {0}
AreDistinct (x ∷ xs) = (is_in x xs ≡ false) × AreDistinct xs

pub or_left : (a b : Bool) → a || b ≡ false → a ≡ false
or_left true b h = h
or_left false b h = refl

pub or_right : (a b : Bool) → a || b ≡ false → b ≡ false
or_right true b h = absurd (ground arith)
or_right false b h = h

pub or_true : (b : Bool) → b || true ≡ true
or_true true = refl
or_true false = refl

pub or_cases : (a b : Bool) → a || b ≡ true → (a ≡ true) ⊎ (b ≡ true)
or_cases true b h = inl refl
or_cases false b h = inr h

pub is_in-append : (x : ℕ) (xs ys : List ℕ) → is_in x (xs ++ ys) ≡ is_in x xs || is_in x ys
unfolding is_in
is_in-append x [] ys = refl
is_in-append x (y ∷ xs) ys = elim (Bool-cases (y == x)) [
  | inl e ↦ rw e refl
  | inr e ↦ rw e (is_in-append x xs ys)
]

pub ==_self : (i : ℕ) → i == i ≡ true
==_self i = (==_iff i i).1 refl

pub ==_ne : (i j : ℕ) → i ≢ j → i == j ≡ false
==_ne i j h = elim (Bool-cases (i == j)) [ inl e ↦ absurd (h ((==_iff i j).0 e)) | inr e ↦ e ]

pub ne_of : (i j : ℕ) → i == j ≡ false → i ≢ j
ne_of i j e = λ same. absurd (ground arith)

pub apart_ne : (xs : List ℕ) (x y : ℕ) → is_in x xs ≡ true → is_in y xs ≡ false → x ≢ y
apart_ne xs x y h k e = absurd (ground (arith, ap (λ z. is_in z xs) e))

pub snoc-AreDistinct :
    (x : ℕ) (xs : List ℕ) → AreDistinct xs → is_in x xs ≡ false → AreDistinct (xs ++ x ∷ [])
unfolding is_in
snoc-AreDistinct x [] d h = (refl, tt)
snoc-AreDistinct x (y ∷ xs) d h =
    let ne : (y == x) ≡ false = or_left (y == x) (is_in x xs) h in
    let rest : is_in x xs ≡ false = or_right (y == x) (is_in x xs) h in
    let swapped : (x == y) ≡ false = ground arith in
    (is_in-append y xs (x ∷ []) ∙ rw d.0 (rw swapped refl), snoc-AreDistinct x xs d.1 rest)

pub in_grown : (i j : ℕ) (xs : List ℕ) → is_in j (xs ++ i ∷ []) ≡ true → j ≢ i → is_in j xs ≡ true
unfolding is_in
in_grown i j xs m ne = elim (Bool-cases (is_in j xs)) [
  | inl e ↦ e
  | inr e ↦
      let at : (i == j) || false ≡ true =
        sym (ap (λ c. c || ((i == j) || false)) e) ∙ sym (is_in-append j xs (i ∷ [])) ∙ m in
      absurd (ne (ground arith))
]

pub stays_in : (i j : ℕ) (xs : List ℕ) → is_in j xs ≡ true → is_in j (xs ++ i ∷ []) ≡ true
stays_in i j xs m = is_in-append j xs (i ∷ []) ∙ rw m refl

pub is_in_last : (i : ℕ) (xs : List ℕ) → is_in i (xs ++ i ∷ []) ≡ true
unfolding is_in
is_in_last i [] = rw (==_self i) refl
is_in_last i (x ∷ xs) = rw (is_in_last i xs) (or_true (x == i))

value_of : Option ℕ → ℕ → ℕ
value_of none d = d
value_of (some i) d = i

pub some_inj : {i j : ℕ} → some i ≡ some j → i ≡ j
unfolding value_of
some_inj {i = i} e = ap (λ o. value_of o i) e
