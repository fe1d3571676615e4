-- ===== src/Sched/Sleep.antt =====
-- A thread that sleeps by `sched_sleep_ns` of kernel/sched.c, under the ticks of the timer.
use axiome_os.Prelude.{
  ℕ, ◌+◌, ◌%◌, ◌^◌, ◌<◌, ◌≤◌, ◌≡◌, ◌≢◌, refl, sym, ap, ◌∙◌, true, false, Option, none, some, List,
  [], ◌∷◌, ◌++◌, arith, ◌==◌, if◌then◌else◌,
}
use axiome_os.Sched.{
  Status, ready, running, blocked, zombie, Thread, Sched, update, ring_find, idle_thread,
}
use axiome_os.Sched.Switch.{
  switch_to, run_next, run_if, with_state, is_ready, ready_in, or_idle, choose, next_of, following,
  sched_suspend, sched_sleep_ns, sched_tick,
}
use axiome_os.Prelude.Members.{is_in, ==_self, ==_ne, apart_ne}
use axiome_os.Sched.Lists.{ring_find-passes, ring_find-finds}
use axiome_os.Sched.Ring.{not_empty, following_at, following-IsCut, cut_in, split, IsSplit}
use axiome_os.Sched.Sound.{IsSound, Becomes-self}
use axiome_os.Sched.Sound.Steps.{update-IsSound}
use axiome_os.Sched.Sound.Exits.{runs_in_ring}
use axiome_os.Sched.Ticks.{IsAsleep, tick-IsAsleep, tick_wakes}

-- Ticks at the given times, in their order.
unfoldable pub ticks : List ℕ → Sched → Sched
ticks [] n = n
ticks (now ∷ later) n = ticks later (sched_tick now n)

abbrev pub AreBefore : ℕ → List ℕ → Type 0
AreBefore deadline [] = Unit {0}
AreBefore deadline (now ∷ later) = (now < deadline) × AreBefore deadline later

ticks-IsAsleep :
    (i deadline : ℕ) (times : List ℕ) (n : Sched)
    → AreBefore deadline times
    → IsAsleep i deadline n
    → IsAsleep i deadline (ticks times n)
unfolding ticks
ticks-IsAsleep i deadline [] n b a = a
ticks-IsAsleep i deadline (now ∷ later) n b a =
    ticks-IsAsleep i deadline later (sched_tick now n) b.1 (tick-IsAsleep now i deadline n b.0 a)

runs_not_ready : running ≢ ready
unfolding is_ready
runs_not_ready e = absurd (let f : false ≡ true = ap is_ready e in ground (arith, f))

only_ready : (s : Status) → is_ready s ≡ true → s ≡ ready
unfolding is_ready
only_ready ready e = refl
only_ready running e = absurd (ground arith)
only_ready blocked e = absurd (ground arith)
only_ready zombie e = absurd (ground arith)

abbrev blocked_now : Sched → Sched
blocked_now n = update n.current (with_state blocked (n.threads n.current)) n

suspend_at :
    (n : Sched) (found : List ℕ) (next : ℕ)
    → following n.current [] n.ring ≡ some found
    → ring_find (ready_in n) (found ++ n.current ∷ []) ≡ some next
    → next ≢ idle_thread
    → sched_suspend n ≡ some (switch_to next (blocked_now n))
unfolding sched_suspend next_of choose run_if run_next or_idle
suspend_at n found next e picked ne =
    let go : Option ℕ → Option Sched = λ o. run_if o (blocked_now n) in
    ap (λ b. if b then some n else go (choose n.current n (following n.current [] n.ring)))
      (not_empty n.current n.ring found e)
    ∙ ap (λ o. go (choose n.current n o)) e
    ∙ ap (λ o. run_next (or_idle o) (blocked_now n)) picked
    ∙ ap (λ b. if b then none else some (switch_to next (blocked_now n)))
        (==_ne next idle_thread ne)

blocked-IsAsleep :
    (deadline next : ℕ) (n : Sched)
    → is_in n.current n.ring ≡ true
    → n.current ≢ next
    → (n.threads n.current).sleep_deadline_ns ≡ deadline
    → IsAsleep n.current deadline (switch_to next (blocked_now n))
unfolding switch_to update with_state
blocked-IsAsleep deadline next n here other e = record {
  member = here;
  state_blocked = rw (==_ne n.current next other) (rw (==_self n.current) refl);
  deadline_set = rw (==_ne n.current next other) (rw (==_self n.current) e);
}

-- The state after the thread `i` of `n` went to sleep: another thread, that was ready, runs.
record IsSwitched (i deadline : ℕ) (n m : Sched) : Type 0 where
  next_in : is_in m.current n.ring ≡ true
  next_other : m.current ≢ i
  next_ready : (n.threads m.current).state ≡ ready
  sleeps : IsAsleep i deadline m

suspended-IsSwitched :
    (deadline other : ℕ) (n : Sched)
    → IsSound n
    → n.current ≢ idle_thread
    → is_in other n.ring ≡ true
    → (n.threads other).state ≡ ready
    → (n.threads n.current).sleep_deadline_ns ≡ deadline
    → (m : Sched) × (sched_suspend n ≡ some m) × IsSwitched n.current deadline n m
unfolding switch_to is_ready
suspended-IsSwitched deadline other n v ne in_ring is e =
    let here : is_in n.current n.ring ≡ true = runs_in_ring n v ne in
    let s : IsSplit n.current n.ring = split n.current n.ring here in
    let found : List ℕ = s.right ++ s.left in
    let walk : following n.current [] n.ring ≡ some found =
      ap (following n.current []) s.whole ∙ following_at n.current [] s.left s.right s.first in
    let cut = following-IsCut n.current [] n.ring found walk in
    let picked =
      ring_find-finds (ready_in n) (found ++ n.current ∷ []) other
        (cut_in n.current other n.ring found cut ∙ in_ring) (ap is_ready is) in
    let next : ℕ = picked.0 in
    let passes = ring_find-passes (ready_in n) (found ++ n.current ∷ []) next picked.1 in
    let next_in : is_in next n.ring ≡ true =
      sym (cut_in n.current next n.ring found cut) ∙ passes.1 in
    let state : (n.threads next).state ≡ ready = only_ready (n.threads next).state passes.0 in
    let differs : next ≢ n.current = λ same.
      runs_not_ready (sym v.current_runs ∙ sym (ap (λ i. (n.threads i).state) same) ∙ state) in
    (
      switch_to next (blocked_now n),
      suspend_at n found next walk picked.1 (apart_ne n.ring next idle_thread next_in v.idle_out),
      record {
        next_in = next_in;
        next_other = differs;
        next_ready = state;
        sleeps = blocked-IsAsleep deadline next n here (λ same. differs (sym same)) e;
      },
    )

-- In a sound state, the thread that runs, not the idle one, sleeps for `ns` nanoseconds, not 0, from
-- `now` on, with no overflow of the deadline, and another thread of the ring is ready: the call
-- switches to another thread of the ring that was ready, the sleeper is blocked after any ticks at
-- times before the deadline, and ready after a further tick at the deadline or later.
pub sched_tick-sched_sleep_ns :
    (now ns other : ℕ) (times : List ℕ) (wake_time : ℕ) (n : Sched)
    → IsSound n
    → n.current ≢ idle_thread
    → is_in other n.ring ≡ true
    → other ≢ n.current
    → (n.threads other).state ≡ ready
    → 0 < ns
    → now + ns < 2 ^ 64
    → AreBefore (now + ns) times
    → now + ns ≤ wake_time
    → (m : Sched) × (sched_sleep_ns now ns n ≡ some m)
      × (is_in m.current n.ring ≡ true)
      × (m.current ≢ n.current)
      × ((n.threads m.current).state ≡ ready)
      × (((ticks times m).threads n.current).state ≡ blocked)
      × (((sched_tick wake_time (ticks times m)).threads n.current).state ≡ ready)
unfolding sched_sleep_ns update
sched_tick-sched_sleep_ns now ns other times wake_time n v ne in_ring differs is pos fits before
      le =
    let t : Thread = record (n.threads n.current) { sleep_deadline_ns = (now + ns) % 2 ^ 64 } in
    let set : ((update n.current t n).threads n.current).sleep_deadline_ns ≡ now + ns =
      rw (==_self n.current) (omega arith) in
    let w : IsSound (update n.current t n) =
      update-IsSound n.current t n (Becomes-self (n.threads n.current).state) v in
    let still : ((update n.current t n).threads other).state ≡ ready =
      rw (==_ne other n.current differs) is in
    let s = suspended-IsSwitched (now + ns) other (update n.current t n) w ne in_ring still set in
    let switched = s.2 in
    let a : IsAsleep n.current (now + ns) (ticks times s.0) =
      ticks-IsAsleep n.current (now + ns) times s.0 before switched.sleeps in
    let some_time : (ns == 0) ≡ false = ground arith in
    let was_ready : (n.threads s.0.current).state ≡ ready =
      sym (
        ap (λ b. (if b then t else n.threads s.0.current).state)
          (==_ne s.0.current n.current switched.next_other))
      ∙ switched.next_ready in
    (
      s.0,
      ap (λ b. if b then some n else sched_suspend (update n.current t n)) some_time ∙ s.1,
      switched.next_in,
      switched.next_other,
      was_ready,
      a.state_blocked,
      tick_wakes wake_time n.current (now + ns) (ticks times s.0) (omega arith) le a,
    )
