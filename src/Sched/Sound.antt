-- ===== src/Sched/Sound.antt =====
-- What holds of the threads of kernel/sched.c at all times: only the current thread runs, the ring
-- and the list of zombies share no thread, and the idle thread is in neither.
pub mod Steps
pub mod Moves
pub mod Exits
pub mod Reach
use axiome_os.Prelude.{
  ℕ, zero, suc, ◌≡◌, ◌≢◌, refl, sym, ap, ◌∙◌, inl, inr, Bool, true, false, ◌||◌, Option, none, some,
  List, [], ◌∷◌, ◌++◌, arith, ◌==◌, ==_iff, if◌then◌else◌, Bool-cases, if_either,
}
use axiome_os.Sched.{
  Status, ready, running, blocked, zombie, Thread, Sched, update, insert, idle_thread, quantum_max,
}
use axiome_os.Sched.Switch.{switch_to, switch_if}
use axiome_os.Prelude.Members.{
  is_in, AreDistinct, is_in-append, ==_self, ==_ne, ne_of, or_true, or_cases, apart_ne,
  snoc-AreDistinct, in_grown, stays_in,
}

-- The state of a thread that waits in the ring.
abbrev pub IsWaiting : Status → Type 0
IsWaiting ready = Unit {0}
IsWaiting running = ⊥
IsWaiting blocked = Unit {0}
IsWaiting zombie = ⊥

-- What holds between two threads too, when no one runs.
pub record IsParked (n : Sched) : Type 0 where
  pub ring_distinct : AreDistinct n.ring
  pub zombies_distinct : AreDistinct n.zombies
  pub apart : (i : ℕ) → is_in i n.ring ≡ true → is_in i n.zombies ≡ false
  pub idle_out : is_in idle_thread n.ring ≡ false
  pub idle_alive : is_in idle_thread n.zombies ≡ false
  pub waiting : (i : ℕ) → is_in i n.ring ≡ true → IsWaiting (n.threads i).state
  pub dead : (i : ℕ) → is_in i n.zombies ≡ true → (n.threads i).state ≡ zombie

pub record IsSound (n : Sched) : Type 0 where
  pub ring_distinct : AreDistinct n.ring
  pub zombies_distinct : AreDistinct n.zombies
  pub apart : (i : ℕ) → is_in i n.ring ≡ true → is_in i n.zombies ≡ false
  pub idle_out : is_in idle_thread n.ring ≡ false
  pub idle_alive : is_in idle_thread n.zombies ≡ false
  pub current_in : is_in n.current n.ring || n.current == idle_thread ≡ true
  pub current_runs : (n.threads n.current).state ≡ running
  pub waiting : (i : ℕ) → is_in i n.ring ≡ true → i ≢ n.current → IsWaiting (n.threads i).state
  pub dead : (i : ℕ) → is_in i n.zombies ≡ true → (n.threads i).state ≡ zombie

pub update_self : (i : ℕ) (t : Thread) (n : Sched) → (update i t n).threads i ≡ t
unfolding update
update_self i t n = rw (==_self i) refl

pub update_ne : (i j : ℕ) (t : Thread) (n : Sched) → j ≢ i → (update i t n).threads j ≡ n.threads j
unfolding update
update_ne i j t n h = rw (==_ne j i h) refl

-- A member of the ring or the idle thread is not a zombie.
pub alive :
    (n : Sched) (i : ℕ)
    → ((j : ℕ) → is_in j n.ring ≡ true → is_in j n.zombies ≡ false)
    → is_in idle_thread n.zombies ≡ false
    → is_in i n.ring || i == idle_thread ≡ true
    → is_in i n.zombies ≡ false
alive n i a b h = elim (Bool-cases (is_in i n.ring)) [
  | inl e ↦ a i e
  | inr e ↦
      let same : i ≡ idle_thread =
        (==_iff i idle_thread).0 (sym (ap (λ c. c || i == idle_thread) e) ∙ h) in
      ap (λ j. is_in j n.zombies) same ∙ b
]

pub switch_to-IsSound :
    (i : ℕ) (n : Sched)
    → IsParked n
    → is_in i n.ring || i == idle_thread ≡ true
    → IsSound (switch_to i n)
unfolding switch_to update
switch_to-IsSound i n v h = record {
  ring_distinct = v.ring_distinct;
  zombies_distinct = v.zombies_distinct;
  apart = v.apart;
  idle_out = v.idle_out;
  idle_alive = v.idle_alive;
  current_in = h;
  current_runs = rw (==_self i) refl;
  waiting = λ j m ne. rw (==_ne j i ne) (v.waiting j m);
  dead = λ j m.
      rw (==_ne j i (apart_ne n.zombies j i m (alive n i v.apart v.idle_alive h))) (v.dead j m);
}

-- The current thread is set aside with a state in which it waits.
pub parked :
    (t : Thread) (n : Sched) → IsWaiting t.state → IsSound n → IsParked (update n.current t n)
unfolding update
parked t n w v = record {
  ring_distinct = v.ring_distinct;
  zombies_distinct = v.zombies_distinct;
  apart = v.apart;
  idle_out = v.idle_out;
  idle_alive = v.idle_alive;
  waiting = λ j m. elim (Bool-cases (j == n.current)) [
    | inl e ↦ rw e w
    | inr e ↦ rw e (v.waiting j m (λ same. absurd (ground (arith, (==_iff j n.current).1 same))))
  ];
  dead = λ j m.
      rw
        (==_ne j n.current
          (apart_ne n.zombies j n.current m (alive n n.current v.apart v.idle_alive v.current_in)))
        (v.dead j m);
}

-- How the state of a thread can change while it is not switched to or from: it is woken at most.
abbrev pub Becomes : Status → Status → Type 0
Becomes ready s = s ≡ ready
Becomes running s = s ≡ running
Becomes blocked s = IsWaiting s
Becomes zombie s = s ≡ zombie

pub still_waits : (s s' : Status) → Becomes s s' → IsWaiting s → IsWaiting s'
still_waits ready s' b w = rw b tt
still_waits running s' b w = absurd w
still_waits blocked s' b w = b
still_waits zombie s' b w = absurd w

pub still_runs : (s s' : Status) → Becomes s s' → s ≡ running → s' ≡ running
still_runs ready s' b e = b ∙ e
still_runs running s' b e = b
still_runs blocked s' b e = absurd (ground arith)
still_runs zombie s' b e = b ∙ e

pub still_dead : (s s' : Status) → Becomes s s' → s ≡ zombie → s' ≡ zombie
still_dead ready s' b e = b ∙ e
still_dead running s' b e = b ∙ e
still_dead blocked s' b e = absurd (ground arith)
still_dead zombie s' b e = b

pub Becomes-self : (s : Status) → Becomes s s
Becomes-self ready = refl
Becomes-self running = refl
Becomes-self blocked = tt
Becomes-self zombie = refl

-- A change of the threads that wakes at most keeps the rest.
pub woken-IsSound :
    (n : Sched) (f : ℕ → Thread)
    → ((i : ℕ) → Becomes (n.threads i).state (f i).state)
    → IsSound n
    → IsSound (record n { threads = f })
woken-IsSound n f b v = record {
  ring_distinct = v.ring_distinct;
  zombies_distinct = v.zombies_distinct;
  apart = v.apart;
  idle_out = v.idle_out;
  idle_alive = v.idle_alive;
  current_in = v.current_in;
  current_runs = still_runs _ _ (b n.current) v.current_runs;
  waiting = λ j m ne. still_waits _ _ (b j) (v.waiting j m ne);
  dead = λ j m. still_dead _ _ (b j) (v.dead j m);
}

pub woken-IsParked :
    (n : Sched) (f : ℕ → Thread)
    → ((i : ℕ) → Becomes (n.threads i).state (f i).state)
    → IsParked n
    → IsParked (record n { threads = f })
woken-IsParked n f b v = record {
  ring_distinct = v.ring_distinct;
  zombies_distinct = v.zombies_distinct;
  apart = v.apart;
  idle_out = v.idle_out;
  idle_alive = v.idle_alive;
  waiting = λ j m. still_waits _ _ (b j) (v.waiting j m);
  dead = λ j m. still_dead _ _ (b j) (v.dead j m);
}

abbrev pub IsFresh : ℕ → Sched → Type 0
IsFresh i n = (is_in i n.ring ≡ false) × (is_in i n.zombies ≡ false) × (i ≢ idle_thread)

pub insert-IsSound :
    (i : ℕ) (t : Thread) (n : Sched)
    → IsFresh i n
    → t.state ≡ ready
    → IsSound n
    → IsSound (insert i t n)
unfolding insert update is_in
insert-IsSound i t n (out, not_dead, ne_idle) st v =
    let ne_cur : n.current ≢ i = λ same. elim (or_cases _ _ v.current_in) [
      | inl m ↦ apart_ne n.ring n.current i m out same
      | inr m ↦ ne_idle (sym same ∙ (==_iff n.current idle_thread).0 m)
    ] in
    record {
      ring_distinct = snoc-AreDistinct i n.ring v.ring_distinct out;
      zombies_distinct = v.zombies_distinct;
      apart = λ j m. elim (Bool-cases (j == i)) [
        | inl e ↦ ap (λ k. is_in k n.zombies) ((==_iff j i).0 e) ∙ not_dead
        | inr e ↦ v.apart j (in_grown i j n.ring m (ne_of j i e))
      ];
      idle_out =
          is_in-append idle_thread n.ring (i ∷ [])
          ∙ rw v.idle_out (rw (==_ne i idle_thread ne_idle) refl);
      idle_alive = v.idle_alive;
      current_in = elim (or_cases _ _ v.current_in) [
        | inl m ↦ rw (stays_in i n.current n.ring m) refl
        | inr m ↦ rw m (or_true _)
      ];
      current_runs = rw (==_ne n.current i ne_cur) v.current_runs;
      waiting = λ j m ne. elim (Bool-cases (j == i)) [
        | inl e ↦ rw e (rw st tt)
        | inr e ↦ rw e (v.waiting j (in_grown i j n.ring m (ne_of j i e)) ne)
      ];
      dead = λ j m. rw (==_ne j i (apart_ne n.zombies j i m not_dead)) (v.dead j m);
    }
