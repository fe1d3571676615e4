-- ===== src/Sched/Switch.antt =====
-- kernel/sched.c: the choice of the thread that runs next, by yielding, blocking and exiting, and
-- the wake-ups. Where the code follows a link that is null, or switches to
-- the idle thread, which has no stack, the result is none.
use axiome_os.Prelude.{
  ℕ, ◌+◌, ◌-◌, ◌%◌, ◌^◌, leb, Bool, true, false, not, ◌&&◌, ◌||◌, Option, none, some, List, [], ◌∷◌,
  ◌++◌, ◌==◌, if◌then◌else◌,
}
use axiome_os.Prelude.Members.{is_in}
use axiome_os.Sched.{
  Status, ready, running, blocked, zombie, Thread, Sched, update, ring_find, thread_find_by_pid,
  idle_thread, quantum_max,
}
use axiome_os.Sched.Children.{reap_zombies, sched_reap_zombie, drop_first}

unfoldable pub is_ready : Status → Bool
is_ready ready = true
is_ready running = false
is_ready blocked = false
is_ready zombie = false

unfoldable pub is_blocked : Status → Bool
is_blocked ready = false
is_blocked running = false
is_blocked blocked = true
is_blocked zombie = false

-- `kernel_respawn_init` is given.
unfoldable pub sched_check_init : (Sched → Sched) → Sched → Sched
sched_check_init respawn n =
    if n.init_dead
    then respawn (record (sched_reap_zombie n.init_thread (record n { init_dead = false })) {
      init_thread = none;
    })
    else n

-- The ring from the successor of `old` round to its predecessor, `before` what was passed so far. A
-- thread outside of the ring has no successor.
unfoldable pub following : ℕ → List ℕ → List ℕ → Option (List ℕ)
following old before [] = none
following old before (x ∷ xs) =
    let rest = following old (before ++ x ∷ []) xs in if x == old then some (xs ++ before) else rest

abbrev pub ready_in : Sched → ℕ → Bool
ready_in n i = is_ready (n.threads i).state

unfoldable pub or_idle : Option ℕ → ℕ
or_idle none = idle_thread
or_idle (some i) = i

-- The walk along the ring: the first thread that is ready, `old` as the last one, or the idle one.
unfoldable pub choose : ℕ → Sched → Option (List ℕ) → Option ℕ
choose old n none = none
choose old n (some is) = some (or_idle (ring_find (ready_in n) (is ++ old ∷ [])))

unfoldable pub next_of : ℕ → Sched → Option ℕ
next_of old n = choose old n (following old [] n.ring)

unfoldable pub switch_to : ℕ → Sched → Sched
switch_to next n =
    record (update next (record (n.threads next) { state = running; quantum = quantum_max }) n) {
      current = next;
    }

unfoldable pub switch_if : Option ℕ → Sched → Option Sched
switch_if none n = none
switch_if (some next) n = some (switch_to next n)

-- The idle thread has no stack: a switch to it runs nothing, and the result is none.
unfoldable pub run_next : ℕ → Sched → Option Sched
run_next next n = if next == idle_thread then none else some (switch_to next n)

unfoldable pub run_if : Option ℕ → Sched → Option Sched
run_if none n = none
run_if (some next) n = run_next next n

unfoldable pub is_empty : List ℕ → Bool
is_empty [] = true
is_empty (x ∷ xs) = false

unfoldable pub with_state : Status → Thread → Thread
with_state s t = record t { state = s }

unfoldable pub rotate : Sched → Option Sched
rotate n =
    let m : Sched =
      update n.current (record (n.threads n.current) { state = ready; quantum = quantum_max }) n in
    switch_if (next_of n.current m) m

unfoldable pub yield_on : Sched → Option Sched
yield_on n = if is_empty n.ring then some n else rotate n

unfoldable pub sched_yield : (Sched → Sched) → Sched → Option Sched
sched_yield respawn n = yield_on (sched_check_init respawn (reap_zombies n))

-- The thread is chosen before the old one is marked.
unfoldable pub sched_suspend : Sched → Option Sched
sched_suspend n =
    if is_empty n.ring
    then some n
    else run_if (next_of n.current n)
        (update n.current (with_state blocked (n.threads n.current)) n)

-- The deadline is a `uint64_t`.
unfoldable pub sched_sleep_ns : (now ns : ℕ) → Sched → Option Sched
sched_sleep_ns now ns n =
    if ns == 0
    then some n
    else sched_suspend (
        update n.current (record (n.threads n.current) { sleep_deadline_ns = (now + ns) % 2 ^ 64 })
          n)

unfoldable pub woken : Thread → Thread
woken t = if is_blocked t.state then with_state ready t else t

unfoldable pub sched_wake : Option ℕ → Sched → Sched
sched_wake none n = n
sched_wake (some i) n = update i (woken (n.threads i)) n

unfoldable pub is_due : ℕ → Thread → Bool
is_due now t = is_blocked t.state && not (t.sleep_deadline_ns == 0) && leb t.sleep_deadline_ns now

unfoldable pub wake_due : ℕ → Thread → Thread
wake_due now t = if is_due now t then record t { state = ready; sleep_deadline_ns = 0 } else t

unfoldable pub tick_list : ℕ → List ℕ → Sched → Sched
tick_list now [] n = n
tick_list now (i ∷ is) n = tick_list now is (update i (wake_due now (n.threads i)) n)

unfoldable pub sched_tick : ℕ → Sched → Sched
sched_tick now n =
    let t : Thread = n.threads n.current in
    tick_list now n.ring (update n.current (record t { quantum = t.quantum - 1 }) n)

-- The part of `timer_irq_wrapper` in isr_handlers.c that schedules.
unfoldable pub timer_irq_wrapper : (Sched → Sched) → ℕ → Sched → Option Sched
timer_irq_wrapper respawn now n =
    let m : Sched = sched_tick now n in
    if (m.threads m.current).quantum == 0 then sched_yield respawn m else some m

-- Out of the ring; with no other thread in it the head is cleared.
unfoldable pub unlink : ℕ → List ℕ → Option (List ℕ)
unlink i is = if is_empty is || is_in i is then some (drop_first i is) else none

unfoldable pub head_or_idle : List ℕ → ℕ
head_or_idle [] = idle_thread
head_or_idle (x ∷ xs) = x

unfoldable pub is_init : Option ℕ → ℕ → Bool
is_init none i = false
is_init (some t) i = t == i

-- The thread that exits is in the list of zombies; its parent is woken and the head of the ring runs.
unfoldable pub exit_on : ℕ → Option (List ℕ) → Sched → Option Sched
exit_on self none n = none
exit_on self (some is) n =
    let parent_pid = (n.threads self).parent_pid in
    let m : Sched = record n { ring = is; zombies = self ∷ n.zombies } in
    let w : Sched = sched_wake (thread_find_by_pid parent_pid m) m in run_next (head_or_idle is) w

-- The open files of the thread are not in the model.
unfoldable pub sched_exit : ℕ → Sched → Option Sched
sched_exit status n =
    let self = n.current in
    let t : Thread = n.threads self in
    let m : Sched = update self (record t { state = zombie; exit_status = status }) n in
    exit_on self (unlink self n.ring)
      (record m { init_dead = n.init_dead || is_init n.init_thread self })
