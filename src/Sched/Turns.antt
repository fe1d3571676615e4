-- ===== src/Sched/Turns.antt =====
-- Who runs after one yield of kernel/sched.c, and who is overtaken.
use mathlib.Core.List.{append_assoc}
use mathlib.Core.Path.{subst}
use axiome_os.Prelude.{
  ℕ, ◌<◌, ◌≡◌, ◌≢◌, refl, sym, ap, ◌∙◌, inl, inr, Bool, true, false, Option, some, List, [], ◌∷◌,
  ◌++◌, length, length-append, arith, ◌==◌, ==_iff, if◌then◌else◌, Bool-cases,
}
use axiome_os.Sched.{ready, Sched, update, quantum_max, ring_find}
use axiome_os.Sched.Switch.{
  following, is_ready, ready_in, choose, next_of, or_idle, switch_to, switch_if, rotate, yield_on,
}
use axiome_os.Prelude.Members.{AreDistinct, ==_ne, ne_of}
use axiome_os.Sched.Ring.{not_empty, following_turn}

-- The first thread that passes, of those up to one that does.
pub data IsFound (test : ℕ → Bool) (before : List ℕ) (t : ℕ) (later : List ℕ) : Type 0 where
  here : ring_find test (before ++ t ∷ later) ≡ some t → IsFound test before t later
  earlier :
      (x : ℕ) (passed rest : List ℕ)
      → before ≡ passed ++ x ∷ rest
      → ring_find test (before ++ t ∷ later) ≡ some x
      → IsFound test before t later

pub IsFound-up_to :
    (test : ℕ → Bool) (before : List ℕ) (t : ℕ) (later : List ℕ)
    → test t ≡ true
    → IsFound test before t later
unfolding ring_find
IsFound-up_to test [] t later e = here (ap (λ b. if b then some t else ring_find test later) e)
IsFound-up_to test (b ∷ before) t later e =
    let pick : Bool → Option ℕ = λ c. if c then some b else ring_find test (before ++ t ∷ later) in
    elim (Bool-cases (test b)) [
      | inl f ↦ earlier b [] before refl (ap pick f)
      | inr f ↦ elim (IsFound-up_to test before t later e) [
        | here g ↦ here (ap pick f ∙ g)
        | earlier x passed rest g h ↦
            earlier x (b ∷ passed) rest (ap (λ l. b ∷ l) g) (ap pick f ∙ h)
      ]
    ]

-- The old thread waits for its next turn.
abbrev pub set_aside : Sched → Sched
set_aside n =
    update n.current (record (n.threads n.current) { state = ready; quantum = quantum_max }) n

abbrev pub chosen : List ℕ → Sched → ℕ
chosen found n = or_idle (ring_find (ready_in (set_aside n)) (found ++ n.current ∷ []))

pub rotate_at :
    (n : Sched) (found : List ℕ)
    → following n.current [] n.ring ≡ some found
    → rotate n ≡ some (switch_to (chosen found n) (set_aside n))
unfolding rotate next_of choose switch_if update
rotate_at n found e = rw e refl

pub yield_on_at :
    (n : Sched) (found : List ℕ)
    → following n.current [] n.ring ≡ some found
    → yield_on n ≡ some (switch_to (chosen found n) (set_aside n))
unfolding yield_on
yield_on_at n found e =
    ap (λ b. if b then some n else rotate n) (not_empty n.current n.ring found e)
    ∙ rotate_at n found e

-- A thread that is ready, with those that come before it when the current thread yields.
pub record IsAhead (t : ℕ) (before later : List ℕ) (n : Sched) : Type 0 where
  pub distinct : AreDistinct n.ring
  pub other : t ≢ n.current
  pub is_due : (n.threads t).state ≡ ready
  pub lives : n.init_dead ≡ false
  pub order : following n.current [] n.ring ≡ some (before ++ t ∷ later)

pub data Progress (t : ℕ) (before : List ℕ) (n : Sched) : Type 0 where
  runs : n.current ≡ t → Progress t before n
  nearer :
      (before' later' : List ℕ)
      → length before' < length before
      → IsAhead t before' later' n
      → Progress t before n

pub ready_still : (t : ℕ) (n : Sched) → t ≢ n.current → ready_in (set_aside n) t ≡ ready_in n t
unfolding update
ready_still t n ne = rw (==_ne t n.current ne) refl

pub chosen_is :
    (t x : ℕ) (before later : List ℕ) (n : Sched)
    → ring_find (ready_in (set_aside n)) (before ++ t ∷ (later ++ n.current ∷ [])) ≡ some x
    → chosen (before ++ t ∷ later) n ≡ x
unfolding or_idle
chosen_is t x before later n e =
    ap (λ l. or_idle (ring_find (ready_in (set_aside n)) l))
      (append_assoc before (t ∷ later) (n.current ∷ []))
    ∙ ap or_idle e

pub overtaken :
    (t x : ℕ) (passed rest later : List ℕ) (n : Sched)
    → IsAhead t (passed ++ x ∷ rest) later n
    → t ≢ x
    → IsAhead t rest (later ++ n.current ∷ passed) (switch_to x (set_aside n))
unfolding switch_to update
overtaken t x passed rest later n a ne = record {
  distinct = a.distinct;
  other = ne;
  is_due = rw (==_ne t x ne) (rw (==_ne t n.current a.other) a.is_due);
  lives = a.lives;
  order =
      following_turn n.current x n.ring passed (rest ++ t ∷ later) a.distinct
        (a.order ∙ ap some (append_assoc passed (x ∷ rest) (t ∷ later)))
      ∙ ap some (append_assoc rest (t ∷ later) (n.current ∷ passed));
}

pub Progress-by :
    (t x : ℕ) (passed rest before later : List ℕ) (n : Sched)
    → before ≡ passed ++ x ∷ rest
    → IsAhead t before later n
    → Progress t before (switch_to x (set_aside n))
unfolding switch_to
Progress-by t x passed rest before later n e a = elim (Bool-cases (t == x)) [
  | inl f ↦ runs (sym ((==_iff t x).0 f))
  | inr f ↦
      nearer rest (later ++ n.current ∷ passed)
        (omega (arith, ap length e, length-append passed (x ∷ rest)))
        (overtaken t x passed rest later n (subst (λ l. IsAhead t l later n) e a) (ne_of t x f))
]

pub progress :
    (t : ℕ) (before later : List ℕ) (n : Sched)
    → IsAhead t before later n
    → Progress t before (switch_to (chosen (before ++ t ∷ later) n) (set_aside n))
unfolding switch_to is_ready
progress t before later n a =
    let P : ℕ → Type 0 = λ x. Progress t before (switch_to x (set_aside n)) in
    elim (IsFound-up_to (ready_in (set_aside n)) before t (later ++ n.current ∷ [])
      (ready_still t n a.other ∙ ap is_ready a.is_due)) [
        | here e ↦ runs (chosen_is t t before later n e)
        | earlier x passed rest f e ↦
            subst P (sym (chosen_is t x before later n e))
              (Progress-by t x passed rest before later n f a)
      ]
