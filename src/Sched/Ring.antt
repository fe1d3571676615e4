-- ===== src/Sched/Ring.antt =====
-- The walk of kernel/sched.c along the ring, from the successor of a thread round to the thread.
use axiome_os.Prelude.{
  ℕ, ◌≡◌, refl, sym, ap, ◌∙◌, inl, inr, true, false, ◌||◌, Option, none, some, List, [], ◌∷◌, ◌++◌,
  arith, ◌==◌, ==_iff, if◌then◌else◌, Bool-cases,
}
use mathlib.Core.List.{append-nil, append_assoc}
use mathlib.Core.Path.{subst}
use axiome_os.Sched.Switch.{is_empty, following}
use axiome_os.Prelude.Members.{
  is_in, or_true, or_left, or_right, ==_self, is_in-append, AreDistinct,
}

-- The ring is cut at `old`, and what follows it comes first.
pub record IsCut (old : ℕ) (before is found : List ℕ) : Type 0 where
  pub left : List ℕ
  pub right : List ℕ
  pub whole : is ≡ left ++ old ∷ right
  pub turned : found ≡ right ++ (before ++ left)

list_of : Option (List ℕ) → List ℕ
list_of none = []
list_of (some l) = l

pub following-IsCut :
    (old : ℕ) (before is found : List ℕ)
    → following old before is ≡ some found
    → IsCut old before is found
unfolding following list_of
following-IsCut old before [] found e = absurd (ground arith)
following-IsCut old before (x ∷ xs) found e = elim (Bool-cases (x == old)) [
  | inl f ↦ record {
    left = [];
    right = xs;
    whole = ap (λ y. y ∷ xs) ((==_iff x old).0 f);
    turned =
        sym (
          ap list_of (
            sym (ap (λ b. if b then some (xs ++ before) else following old (before ++ x ∷ []) xs) f)
            ∙ e))
        ∙ ap (λ l. xs ++ l) (sym (append-nil before));
  }
  | inr f ↦
      let c : IsCut old (before ++ x ∷ []) xs found =
        following-IsCut old (before ++ x ∷ []) xs found (
          sym (ap (λ b. if b then some (xs ++ before) else following old (before ++ x ∷ []) xs) f)
          ∙ e) in
      record {
        left = x ∷ c.left;
        right = c.right;
        whole = ap (λ l. x ∷ l) c.whole;
        turned = c.turned ∙ ap (λ l. c.right ++ l) (append_assoc before (x ∷ []) c.left);
      }
]

pub following_at :
    (old : ℕ) (before left right : List ℕ)
    → is_in old left ≡ false
    → following old before (left ++ old ∷ right) ≡ some (right ++ (before ++ left))
unfolding following is_in
following_at old before [] right out =
    rw (==_self old) (ap (λ l. some (right ++ l)) (sym (append-nil before)))
following_at old before (x ∷ left) right out = rw (or_left (x == old) (is_in old left) out) (
    following_at old (before ++ x ∷ []) left right (or_right (x == old) (is_in old left) out)
    ∙ ap (λ l. some (right ++ l)) (append_assoc before (x ∷ []) left))

-- A member splits its list, the first time it is in it.
pub record IsSplit (x : ℕ) (xs : List ℕ) : Type 0 where
  pub left : List ℕ
  pub right : List ℕ
  pub whole : xs ≡ left ++ x ∷ right
  pub first : is_in x left ≡ false

pub split : (x : ℕ) (xs : List ℕ) → is_in x xs ≡ true → IsSplit x xs
unfolding is_in
split x [] m = absurd (ground arith)
split x (y ∷ ys) m = elim (Bool-cases (y == x)) [
  | inl e ↦ record {
    left = [];
    right = ys;
    whole = ap (λ z. z ∷ ys) ((==_iff y x).0 e);
    first = refl;
  }
  | inr e ↦
      let s : IsSplit x ys = split x ys (sym (ap (λ b. b || is_in x ys) e) ∙ m) in
      record {
        left = y ∷ s.left;
        right = s.right;
        whole = ap (λ l. y ∷ l) s.whole;
        first = ap (λ b. b || is_in x s.left) e ∙ s.first;
      }
]

-- Those that are met on the walk are those of the ring.
pub cut_in :
    (old i : ℕ) (is found : List ℕ)
    → IsCut old [] is found
    → is_in i (found ++ old ∷ []) ≡ is_in i is
unfolding is_in
cut_in old i is found c =
    ap (λ l. is_in i (l ++ old ∷ [])) c.turned
    ∙ is_in-append i (c.right ++ c.left) (old ∷ [])
    ∙ ap (λ b. b || ((old == i) || false)) (is_in-append i c.right c.left)
    ∙ ground arith
    ∙ sym (is_in-append i c.left (old ∷ c.right))
    ∙ sym (ap (is_in i) c.whole)

head_of : ℕ → List ℕ → ℕ
head_of d [] = d
head_of d (x ∷ xs) = x

tail_of : List ℕ → List ℕ
tail_of [] = []
tail_of (x ∷ xs) = xs

-- A list that is put together in two ways: the member lies in the first part or in the second.
pub data HasMember (x : ℕ) (before later right left : List ℕ) : Type 0 where
  in_right :
      (m : List ℕ)
      → right ≡ before ++ x ∷ m
      → later ≡ m ++ left
      → HasMember x before later right left
  in_left :
      (m : List ℕ)
      → before ≡ right ++ m
      → left ≡ m ++ x ∷ later
      → HasMember x before later right left

member_of :
    (x : ℕ) (before later right left : List ℕ)
    → before ++ x ∷ later ≡ right ++ left
    → HasMember x before later right left
unfolding head_of tail_of
member_of x before later [] left e = in_left before refl (sym e)
member_of x [] later (y ∷ right) left e =
    in_right right (ap (λ z. z ∷ right) (sym (ap (head_of 0) e))) (ap tail_of e)
member_of x (b ∷ before) later (y ∷ right) left e =
    elim (member_of x before later right left (ap tail_of e)) [
      | in_right m f g ↦
          in_right m (ap (λ l. y ∷ l) f ∙ ap (λ z. z ∷ before ++ x ∷ m) (sym (ap (head_of 0) e))) g
      | in_left m f g ↦
          in_left m (ap (λ l. b ∷ l) f ∙ ap (λ z. z ∷ right ++ m) (ap (head_of 0) e)) g
    ]

pub distinct_left : (x : ℕ) (xs ys : List ℕ) → AreDistinct (xs ++ x ∷ ys) → is_in x xs ≡ false
unfolding is_in
distinct_left x [] ys d = refl
distinct_left x (y ∷ xs) ys d = elim (Bool-cases (y == x)) [
  | inl e ↦
      let same : (x == y) ≡ true = (==_iff x y).1 (sym ((==_iff y x).0 e)) in
      let here : is_in y (xs ++ x ∷ ys) ≡ true =
        is_in-append y xs (x ∷ ys) ∙ rw same (or_true (is_in y xs)) in
      absurd (ground (arith, here, d.0))
  | inr e ↦ rw e (distinct_left x xs ys d.1)
]

-- The walk from a thread that was met on the walk before.
pub following_turn :
    (old x : ℕ) (is before later : List ℕ)
    → AreDistinct is
    → following old [] is ≡ some (before ++ x ∷ later)
    → following x [] is ≡ some (later ++ old ∷ before)
following_turn old x is before later d e =
    let c : IsCut old [] is (before ++ x ∷ later) = following-IsCut old [] is _ e in
    elim (member_of x before later c.right c.left c.turned) [
      | in_right m f g ↦
          let whole : is ≡ (c.left ++ old ∷ before) ++ x ∷ m =
            c.whole
            ∙ ap (λ l. c.left ++ old ∷ l) f
            ∙ sym (append_assoc c.left (old ∷ before) (x ∷ m)) in
          ap (following x []) whole
          ∙ following_at x [] (c.left ++ old ∷ before) m
              (distinct_left x (c.left ++ old ∷ before) m (subst AreDistinct whole d))
          ∙ ap some (sym (append_assoc m c.left (old ∷ before)))
          ∙ ap (λ l. some (l ++ old ∷ before)) (sym g)
      | in_left m f g ↦
          let whole : is ≡ m ++ x ∷ (later ++ old ∷ c.right) =
            c.whole ∙ ap (λ l. l ++ old ∷ c.right) g ∙ append_assoc m (x ∷ later) (old ∷ c.right) in
          ap (following x []) whole
          ∙ following_at x [] m (later ++ old ∷ c.right)
              (distinct_left x m (later ++ old ∷ c.right) (subst AreDistinct whole d))
          ∙ ap some (append_assoc later (old ∷ c.right) m)
          ∙ ap (λ l. some (later ++ old ∷ l)) (sym f)
    ]

pub not_empty :
    (old : ℕ) (is found : List ℕ) → following old [] is ≡ some found → is_empty is ≡ false
unfolding following is_empty
not_empty old [] found e = absurd (ground arith)
not_empty old (x ∷ xs) found e = refl
