-- ===== src/Sched/Sound/Steps.antt =====
-- The operations of kernel/sched.c keep the threads sound.
use axiome_os.Prelude.{
  ℕ, ◌≡◌, refl, sym, ap, ◌∙◌, inl, inr, Bool, true, false, ◌||◌, Option, none, some, List, [], ◌∷◌,
  arith, ◌==◌, ==_iff, if◌then◌else◌, Bool-cases, if_either,
}
use axiome_os.Sched.{Release, Thread, Sched, update, idle_thread}
use axiome_os.Sched.Children.{
  release, reap_list, reap_zombies, is_orphan, drop_first, sched_reap_zombie,
}
use axiome_os.Prelude.Members.{is_in, AreDistinct, or_true}
use axiome_os.Sched.Lists.{is_in-drop_first, drop_first-AreDistinct}
use axiome_os.Sched.Sound.{IsParked, IsSound, Becomes, Becomes-self, woken-IsSound, woken-IsParked}

-- An update that wakes at most.
changes :
    (i : ℕ) (t : Thread) (n : Sched) (j : ℕ)
    → Becomes (n.threads i).state t.state
    → Becomes (n.threads j).state ((update i t n).threads j).state
unfolding update
changes i t n j b = elim (Bool-cases (j == i)) [
  | inl e ↦ rw e (rw ((==_iff j i).0 e) b)
  | inr e ↦ rw e (Becomes-self (n.threads j).state)
]

pub update-IsSound :
    (i : ℕ) (t : Thread) (n : Sched)
    → Becomes (n.threads i).state t.state
    → IsSound n
    → IsSound (update i t n)
unfolding update
update-IsSound i t n b v = woken-IsSound n (update i t n).threads (λ j. changes i t n j b) v

pub update-IsParked :
    (i : ℕ) (t : Thread) (n : Sched)
    → Becomes (n.threads i).state t.state
    → IsParked n
    → IsParked (update i t n)
unfolding update
update-IsParked i t n b v = woken-IsParked n (update i t n).threads (λ j. changes i t n j b) v

pub fewer_zombies :
    (n : Sched) (zs : List ℕ)
    → AreDistinct zs
    → ((i : ℕ) → is_in i zs ≡ true → is_in i n.zombies ≡ true)
    → IsSound n
    → IsSound (record n { zombies = zs })
fewer_zombies n zs d sub v =
    let gone : (i : ℕ) → is_in i n.zombies ≡ false → is_in i zs ≡ false = λ i out.
      elim (Bool-cases (is_in i zs)) [ inl e ↦ absurd (ground (arith, sub i e)) | inr e ↦ e ] in
    record {
      ring_distinct = v.ring_distinct;
      zombies_distinct = d;
      apart = λ i m. gone i (v.apart i m);
      idle_out = v.idle_out;
      idle_alive = gone idle_thread v.idle_alive;
      current_in = v.current_in;
      current_runs = v.current_runs;
      waiting = v.waiting;
      dead = λ i m. v.dead i (sub i m);
    }

-- The fields that say nothing of the threads.
pub other-IsSound :
    (o : Option ℕ) (d : Bool) (r : List Release) (n : Sched)
    → IsSound n
    → IsSound (record n { init_thread = o; init_dead = d; released = r })
other-IsSound o d r n v = record {
  ring_distinct = v.ring_distinct;
  zombies_distinct = v.zombies_distinct;
  apart = v.apart;
  idle_out = v.idle_out;
  idle_alive = v.idle_alive;
  current_in = v.current_in;
  current_runs = v.current_runs;
  waiting = v.waiting;
  dead = v.dead;
}

release-IsSound : (z : ℕ) (n : Sched) → IsSound n → IsSound (release z n)
unfolding release update
release-IsSound z n v =
    let t : Thread = record (n.threads z) { stack_base = none; mmu = none } in
    other-IsSound n.init_thread n.init_dead (release z n).released (update z t n)
      (update-IsSound z t n (Becomes-self (n.threads z).state) v)

pub sched_reap_zombie-IsSound :
    (z : Option ℕ) (n : Sched) → IsSound n → IsSound (sched_reap_zombie z n)
unfolding sched_reap_zombie
sched_reap_zombie-IsSound none n v = v
sched_reap_zombie-IsSound (some z) n v =
    release-IsSound z (record n { zombies = drop_first z n.zombies })
      (fewer_zombies n (drop_first z n.zombies)
        (drop_first-AreDistinct z n.zombies v.zombies_distinct)
        (λ i m. is_in-drop_first z i n.zombies m) v)

release_if-IsSound :
    (b : Bool) (z : ℕ) (n : Sched) → IsSound n → IsSound (if b then release z n else n)
release_if-IsSound b z n v =
    if_either IsSound b (release z n) n (λ e. release-IsSound z n v) (λ e. v)

reap_list-IsSound : (zs : List ℕ) (n : Sched) → IsSound n → IsSound (reap_list zs n).1
unfolding reap_list
reap_list-IsSound [] n v = v
reap_list-IsSound (z ∷ zs) n v =
    reap_list-IsSound zs (if is_orphan z n then release z n else n)
      (release_if-IsSound (is_orphan z n) z n v)

pub zombies-reap_list : (zs : List ℕ) (n : Sched) → (reap_list zs n).1.zombies ≡ n.zombies
unfolding reap_list release update
zombies-reap_list [] n = refl
zombies-reap_list (z ∷ zs) n =
    zombies-reap_list zs (if is_orphan z n then release z n else n)
    ∙ if_either (λ m. m.zombies ≡ n.zombies) (is_orphan z n) (release z n) n (λ e. refl) (λ e. refl)

-- The threads that are kept are some of those given.
kept_in : (zs : List ℕ) (n : Sched) (i : ℕ) → is_in i (reap_list zs n).0 ≡ true → is_in i zs ≡ true
unfolding reap_list is_in
kept_in [] n i m = m
kept_in (z ∷ zs) n i m =
    let next : Sched = if is_orphan z n then release z n else n in
    let later : is_in i (reap_list zs next).0 ≡ true → z == i || is_in i zs ≡ true =
      λ h. rw (kept_in zs next i h) (or_true (z == i)) in
    elim (Bool-cases (z == i)) [
      | inl e ↦ rw e refl
      | inr e ↦
          if_either (λ l. is_in i l ≡ true → z == i || is_in i zs ≡ true) (is_orphan z n)
            (reap_list zs next).0 (z ∷ (reap_list zs next).0) (λ f. later)
            (λ f h. later (sym (ap (λ b. b || is_in i (reap_list zs next).0) e) ∙ h)) m
    ]

kept-AreDistinct : (zs : List ℕ) (n : Sched) → AreDistinct zs → AreDistinct (reap_list zs n).0
unfolding reap_list is_in
kept-AreDistinct [] n d = tt
kept-AreDistinct (z ∷ zs) n d =
    let next : Sched = if is_orphan z n then release z n else n in
    if_either AreDistinct (is_orphan z n) (reap_list zs next).0 (z ∷ (reap_list zs next).0)
      (λ e. kept-AreDistinct zs next d.1)
      (λ e. (
        elim (Bool-cases (is_in z (reap_list zs next).0)) [
          | inl f ↦ absurd (ground (arith, kept_in zs next z f, d.0))
          | inr f ↦ f
        ],
        kept-AreDistinct zs next d.1,
      ))

pub reap_zombies-IsSound : (n : Sched) → IsSound n → IsSound (reap_zombies n)
unfolding reap_zombies
reap_zombies-IsSound n v =
    fewer_zombies (reap_list n.zombies n).1 (reap_list n.zombies n).0
      (kept-AreDistinct n.zombies n v.zombies_distinct)
      (λ i m. ap (is_in i) (zombies-reap_list n.zombies n) ∙ kept_in n.zombies n i m)
      (reap_list-IsSound n.zombies n v)
