-- ===== src/Sched/Sound/Moves.antt =====
-- The wake-ups and the switches of kernel/sched.c keep the threads sound.
use axiome_os.Prelude.{
  ℕ, ◌+◌, ◌%◌, ◌^◌, ◌≡◌, refl, sym, ◌∙◌, true, false, ◌||◌, Option, none, some, List, [], ◌∷◌, ◌++◌,
  arith, ◌==◌, if_either, and_left,
}
use axiome_os.Sched.{
  Status, ready, running, blocked, zombie, Thread, Sched, update, idle_thread, quantum_max,
  ring_find,
}
use axiome_os.Sched.Children.{reap_zombies, sched_reap_zombie}
use axiome_os.Sched.Switch.{
  switch_if, switch_to, run_next, run_if, woken, with_state, is_blocked, sched_wake, wake_due,
  is_due, tick_list, sched_tick, choose, following, next_of, or_idle, ready_in, rotate, yield_on,
  is_empty, sched_check_init, sched_yield, sched_suspend, sched_sleep_ns,
}
use axiome_os.Prelude.Members.{is_in, or_true}
use axiome_os.Sched.Lists.{ring_find-passes}
use axiome_os.Sched.Ring.{following-IsCut, cut_in}
use axiome_os.Sched.Sound.{IsParked, IsSound, Becomes, Becomes-self, parked, switch_to-IsSound}
use axiome_os.Sched.Sound.Steps.{
  update-IsSound, update-IsParked, sched_reap_zombie-IsSound, reap_zombies-IsSound, other-IsSound,
}

-- What holds of the state after an operation that may fault.
abbrev pub Leaves : (Sched → Type 0) → Option Sched → Type 0
Leaves P none = Unit {0}
Leaves P (some n) = P n

waits_when_blocked : (s : Status) → is_blocked s ≡ true → Becomes s ready
unfolding is_blocked
waits_when_blocked ready e = refl
waits_when_blocked running e = absurd (ground arith)
waits_when_blocked blocked e = tt
waits_when_blocked zombie e = absurd (ground arith)

woken-Becomes : (t : Thread) → Becomes t.state (woken t).state
unfolding woken with_state
woken-Becomes t =
    if_either (λ r. Becomes t.state r.state) (is_blocked t.state) (record t { state = ready }) t
      (λ e. waits_when_blocked t.state e) (λ e. Becomes-self t.state)

wake_due-Becomes : (now : ℕ) (t : Thread) → Becomes t.state (wake_due now t).state
unfolding wake_due is_due
wake_due-Becomes now t =
    if_either (λ r. Becomes t.state r.state) (is_due now t)
      (record t { state = ready; sleep_deadline_ns = 0 }) t
      (λ e. waits_when_blocked t.state (and_left _ _ (and_left _ _ e))) (λ e. Becomes-self t.state)

pub sched_wake-IsSound : (i : Option ℕ) (n : Sched) → IsSound n → IsSound (sched_wake i n)
unfolding sched_wake
sched_wake-IsSound none n v = v
sched_wake-IsSound (some i) n v = update-IsSound i _ n (woken-Becomes (n.threads i)) v

pub sched_wake-IsParked : (i : Option ℕ) (n : Sched) → IsParked n → IsParked (sched_wake i n)
unfolding sched_wake
sched_wake-IsParked none n v = v
sched_wake-IsParked (some i) n v = update-IsParked i _ n (woken-Becomes (n.threads i)) v

tick_list-IsSound : (now : ℕ) (is : List ℕ) (n : Sched) → IsSound n → IsSound (tick_list now is n)
unfolding tick_list
tick_list-IsSound now [] n v = v
tick_list-IsSound now (i ∷ is) n v =
    tick_list-IsSound now is _ (update-IsSound i _ n (wake_due-Becomes now (n.threads i)) v)

pub sched_tick-IsSound : (now : ℕ) (n : Sched) → IsSound n → IsSound (sched_tick now n)
unfolding sched_tick
sched_tick-IsSound now n v =
    tick_list-IsSound now n.ring _
      (update-IsSound n.current _ n (Becomes-self (n.threads n.current).state) v)

-- The thread that follows is in the ring, or it is the idle one.
abbrev IsChosen : Sched → Option ℕ → Type 0
IsChosen n none = Unit {0}
IsChosen n (some i) = is_in i n.ring || i == idle_thread ≡ true

or_idle_chosen :
    (n : Sched) (o : Option ℕ)
    → ((i : ℕ) → o ≡ some i → is_in i n.ring ≡ true)
    → is_in (or_idle o) n.ring || or_idle o == idle_thread ≡ true
unfolding or_idle
or_idle_chosen n none h = or_true (is_in idle_thread n.ring)
or_idle_chosen n (some i) h = rw (h i refl) refl

IsChosen-of :
    (old : ℕ) (n : Sched) (o : Option (List ℕ))
    → following old [] n.ring ≡ o
    → IsChosen n (choose old n o)
unfolding choose
IsChosen-of old n none e = tt
IsChosen-of old n (some found) e =
    or_idle_chosen n (ring_find (ready_in n) (found ++ old ∷ [])) (λ i f.
      sym (cut_in old i n.ring found (following-IsCut old [] n.ring found e))
      ∙ (ring_find-passes (ready_in n) (found ++ old ∷ []) i f).1)

next_of-IsChosen : (old : ℕ) (n : Sched) → IsChosen n (next_of old n)
unfolding next_of
next_of-IsChosen old n = IsChosen-of old n (following old [] n.ring) refl

-- The ring decides, whatever the threads are.
IsChosen-too :
    (n : Sched) (f : ℕ → Thread) (o : Option ℕ)
    → IsChosen n o
    → IsChosen (record n { threads = f }) o
IsChosen-too n f none c = tt
IsChosen-too n f (some i) c = c

switched-IsSound :
    (o : Option ℕ) (n : Sched) → IsParked n → IsChosen n o → Leaves IsSound (switch_if o n)
unfolding switch_if
switched-IsSound none n v c = tt
switched-IsSound (some i) n v c = switch_to-IsSound i n v c

rotate-IsSound : (n : Sched) → IsSound n → Leaves IsSound (rotate n)
unfolding rotate
rotate-IsSound n v =
    let t : Thread = record (n.threads n.current) { state = ready; quantum = quantum_max } in
    switched-IsSound (next_of n.current (update n.current t n)) (update n.current t n)
      (parked t n tt v) (next_of-IsChosen n.current (update n.current t n))

pub yield_on-IsSound : (n : Sched) → IsSound n → Leaves IsSound (yield_on n)
unfolding yield_on
yield_on-IsSound n v =
    if_either (Leaves IsSound) (is_empty n.ring) (some n) (rotate n) (λ e. v)
      (λ e. rotate-IsSound n v)

pub run_next-IsSound :
    (i : ℕ) (n : Sched)
    → IsParked n
    → is_in i n.ring || i == idle_thread ≡ true
    → Leaves IsSound (run_next i n)
unfolding run_next
run_next-IsSound i n v c =
    if_either (Leaves IsSound) (i == idle_thread) none (some (switch_to i n)) (λ e. tt)
      (λ e. switch_to-IsSound i n v c)

run_if-IsSound :
    (o : Option ℕ) (n : Sched) → IsParked n → IsChosen n o → Leaves IsSound (run_if o n)
unfolding run_if
run_if-IsSound none n v c = tt
run_if-IsSound (some i) n v c = run_next-IsSound i n v c

pub sched_suspend-IsSound : (n : Sched) → IsSound n → Leaves IsSound (sched_suspend n)
unfolding sched_suspend with_state update
sched_suspend-IsSound n v =
    let t : Thread = record (n.threads n.current) { state = blocked } in
    if_either (Leaves IsSound) (is_empty n.ring) (some n)
      (run_if (next_of n.current n) (update n.current t n)) (λ e. v)
      (λ e. run_if-IsSound (next_of n.current n) (update n.current t n) (parked t n tt v) (
        IsChosen-too n (update n.current t n).threads (next_of n.current n)
          (next_of-IsChosen n.current n)))

pub sched_sleep_ns-IsSound :
    (now ns : ℕ) (n : Sched) → IsSound n → Leaves IsSound (sched_sleep_ns now ns n)
unfolding sched_sleep_ns
sched_sleep_ns-IsSound now ns n v =
    let t : Thread = record (n.threads n.current) { sleep_deadline_ns = (now + ns) % 2 ^ 64 } in
    if_either (Leaves IsSound) (ns == 0) (some n) (sched_suspend (update n.current t n)) (λ e. v)
      (λ e.
        sched_suspend-IsSound (update n.current t n)
          (update-IsSound n.current t n (Becomes-self (n.threads n.current).state) v))

-- An interface of `kernel_respawn_init`: it keeps the threads sound.
abbrev pub Keeps : (Sched → Sched) → Type 0
Keeps respawn = (n : Sched) → IsSound n → IsSound (respawn n)

pub sched_check_init-IsSound :
    (respawn : Sched → Sched) (n : Sched)
    → Keeps respawn
    → IsSound n
    → IsSound (sched_check_init respawn n)
unfolding sched_check_init
sched_check_init-IsSound respawn n k v =
    let m : Sched = record n { init_dead = false } in
    let r : Sched = sched_reap_zombie n.init_thread m in
    if_either IsSound n.init_dead (respawn (record r { init_thread = none })) n
      (λ e. k _ (
        other-IsSound none r.init_dead r.released r (
          sched_reap_zombie-IsSound n.init_thread m
            (other-IsSound n.init_thread false n.released n v))))
      (λ e. v)

pub sched_yield-IsSound :
    (respawn : Sched → Sched) (n : Sched)
    → Keeps respawn
    → IsSound n
    → Leaves IsSound (sched_yield respawn n)
unfolding sched_yield
sched_yield-IsSound respawn n k v =
    yield_on-IsSound _
      (sched_check_init-IsSound respawn (reap_zombies n) k (reap_zombies-IsSound n v))
