-- ===== src/Sched/Lists.antt =====
-- Lists of threads without repetition, under the changes that kernel/sched.c makes of them.
use axiome_os.Prelude.{
  ℕ, ◌≡◌, ◌≢◌, refl, sym, ap, ◌∙◌, inl, inr, Bool, true, false, ◌||◌, some, List, [], ◌∷◌, arith,
  ◌==◌, ==_iff, if◌then◌else◌, Bool-cases, if_either,
}
use axiome_os.Sched.{ring_find}
use axiome_os.Sched.Children.{drop_first}
use axiome_os.Prelude.Members.{some_inj, ==_ne, is_in, AreDistinct}

pub is_in-drop_first :
    (z x : ℕ) (xs : List ℕ) → is_in x (drop_first z xs) ≡ true → is_in x xs ≡ true
unfolding is_in drop_first
is_in-drop_first z x [] h = h
is_in-drop_first z x (y ∷ xs) h = elim (Bool-cases (y == x)) [
  | inl e ↦ rw e refl
  | inr e ↦ rw e (elim (Bool-cases (y == z)) [
    | inl f ↦ sym (ap (λ b. is_in x (if b then xs else y ∷ drop_first z xs)) f) ∙ h
    | inr f ↦ is_in-drop_first z x xs (
        sym (ap (λ b. b || is_in x (drop_first z xs)) e)
        ∙ sym (ap (λ b. is_in x (if b then xs else y ∷ drop_first z xs)) f)
        ∙ h)
  ])
]

pub out-drop_first :
    (z x : ℕ) (xs : List ℕ) → is_in x xs ≡ false → is_in x (drop_first z xs) ≡ false
out-drop_first z x xs h = elim (Bool-cases (is_in x (drop_first z xs))) [
  | inl e ↦ absurd (ground (arith, is_in-drop_first z x xs e))
  | inr e ↦ e
]

pub kept_in : (z x : ℕ) (xs : List ℕ) → is_in x xs ≡ true → x ≢ z → is_in x (drop_first z xs) ≡ true
unfolding is_in drop_first
kept_in z x [] m ne = absurd (ground arith)
kept_in z x (y ∷ xs) m ne = elim (Bool-cases (y == z)) [
  | inl e ↦
      let other : y == x ≡ false = ground arith in
      ap (λ b. is_in x (if b then xs else y ∷ drop_first z xs)) e
      ∙ sym (ap (λ b. b || is_in x xs) other)
      ∙ m
  | inr e ↦
      ap (λ b. is_in x (if b then xs else y ∷ drop_first z xs)) e ∙ elim (Bool-cases (y == x)) [
        | inl f ↦ rw f refl
        | inr f ↦ rw f (kept_in z x xs (sym (ap (λ b. b || is_in x xs) f) ∙ m) ne)
      ]
]

pub drop_first_self : (z : ℕ) (xs : List ℕ) → AreDistinct xs → is_in z (drop_first z xs) ≡ false
unfolding is_in drop_first
drop_first_self z [] d = refl
drop_first_self z (y ∷ xs) d = elim (Bool-cases (y == z)) [
  | inl e ↦
      let same = (==_iff y z).0 e in
      ap (λ b. is_in z (if b then xs else y ∷ drop_first z xs)) e
      ∙ sym (ap (λ w. is_in w xs) same)
      ∙ d.0
  | inr e ↦
      ap (λ b. is_in z (if b then xs else y ∷ drop_first z xs)) e
      ∙ ap (λ b. b || is_in z (drop_first z xs)) e
      ∙ drop_first_self z xs d.1
]

pub drop_first-AreDistinct : (z : ℕ) (xs : List ℕ) → AreDistinct xs → AreDistinct (drop_first z xs)
unfolding is_in drop_first
drop_first-AreDistinct z [] d = d
drop_first-AreDistinct z (y ∷ xs) d =
    if_either AreDistinct (y == z) xs (y ∷ drop_first z xs) (λ e. d.1)
      (λ e. (out-drop_first z y xs d.0, drop_first-AreDistinct z xs d.1))

pub ring_find-passes :
    (test : ℕ → Bool) (xs : List ℕ) (i : ℕ)
    → ring_find test xs ≡ some i
    → (test i ≡ true) × (is_in i xs ≡ true)
unfolding ring_find is_in
ring_find-passes test [] i h = absurd (ground arith)
ring_find-passes test (x ∷ xs) i h = elim (Bool-cases (test x)) [
  | inl e ↦
      let same : x ≡ i = some_inj (sym (ap (λ b. if b then some x else ring_find test xs) e) ∙ h) in
      (sym (ap test same) ∙ e, rw ((==_iff x i).1 same) refl)
  | inr e ↦
      let later =
        ring_find-passes test xs i
          (sym (ap (λ b. if b then some x else ring_find test xs) e) ∙ h) in
      (later.0, elim (Bool-cases (x == i)) [ inl f ↦ rw f refl | inr f ↦ rw f later.1 ])
]

-- A walk that meets one that passes finds one.
pub ring_find-finds :
    (test : ℕ → Bool) (xs : List ℕ) (i : ℕ)
    → is_in i xs ≡ true
    → test i ≡ true
    → (k : ℕ) × (ring_find test xs ≡ some k)
unfolding ring_find is_in
ring_find-finds test [] i m t = absurd (ground arith)
ring_find-finds test (x ∷ xs) i m t = elim (Bool-cases (test x)) [
  | inl e ↦ (x, ap (λ b. if b then some x else ring_find test xs) e)
  | inr e ↦
      let other : x == i ≡ false = ==_ne x i (λ same. absurd (ground (arith, ap test same))) in
      let later = ring_find-finds test xs i (sym (ap (λ b. b || is_in i xs) other) ∙ m) t in
      (later.0, ap (λ b. if b then some x else ring_find test xs) e ∙ later.1)
]
