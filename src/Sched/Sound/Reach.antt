-- ===== src/Sched/Sound/Reach.antt =====
-- The states that the threads of kernel/sched.c come to, from `sched_init` by its operations.
use axiome_os.Prelude.{ℕ, ◌≡◌, ◌≢◌, refl, Option, none, some, List, arith}
use mathlib.Core.Path.{subst}
use axiome_os.Sched.{
  Sched, Space, idle_thread, sched_init, sched_spawn, sched_spawn_user_in, sched_mark_init,
}
use axiome_os.Sched.Children.{sched_reap_zombie}
use axiome_os.Sched.Switch.{
  sched_yield, sched_suspend, sched_sleep_ns, sched_wake, sched_tick, sched_exit,
}
use axiome_os.Prelude.Members.{is_in}
use axiome_os.Sched.Sound.{IsFresh, IsSound, insert-IsSound}
use axiome_os.Sched.Sound.Steps.{sched_reap_zombie-IsSound, other-IsSound}
use axiome_os.Sched.Sound.Moves.{
  Leaves, Keeps, sched_yield-IsSound, sched_suspend-IsSound, sched_sleep_ns-IsSound,
  sched_wake-IsSound, sched_tick-IsSound,
}
use axiome_os.Sched.Sound.Exits.{sched_exit-IsSound}

-- The address that `kmalloc` gives is not that of a thread that is in use.
abbrev pub AreFresh : Option ℕ → Sched → Type 0
AreFresh none n = Unit {0}
AreFresh (some i) n = IsFresh i n

-- One operation; the idle thread, whose function is a loop, does not exit.
pub data Step (respawn : Sched → Sched) : Sched → Sched → Type 0 where
  spawn :
      (i stack : Option ℕ) (name : List ℕ) (n : Sched)
      → AreFresh i n
      → Step respawn n (sched_spawn i stack name n).1
  spawn_user :
      (i stack : Option ℕ) (mmu : Space) (name : List ℕ) (n : Sched)
      → AreFresh i n
      → Step respawn n (sched_spawn_user_in i stack mmu name n).1
  mark_init : (t : Option ℕ) (n : Sched) → Step respawn n (sched_mark_init t n)
  yield : (n m : Sched) → sched_yield respawn n ≡ some m → Step respawn n m
  suspend : (n m : Sched) → sched_suspend n ≡ some m → Step respawn n m
  sleep : (now ns : ℕ) (n m : Sched) → sched_sleep_ns now ns n ≡ some m → Step respawn n m
  wake : (t : Option ℕ) (n : Sched) → Step respawn n (sched_wake t n)
  tick : (now : ℕ) (n : Sched) → Step respawn n (sched_tick now n)
  exit :
      (status : ℕ) (n m : Sched)
      → n.current ≢ idle_thread
      → sched_exit status n ≡ some m
      → Step respawn n m
  reap : (z : Option ℕ) (n : Sched) → Step respawn n (sched_reap_zombie z n)

pub data Reachable (respawn : Sched → Sched) : Sched → Type 0 where
  start : Reachable respawn sched_init
  next : (n m : Sched) → Reachable respawn n → Step respawn n m → Reachable respawn m

sched_init-IsSound : IsSound sched_init
unfolding sched_init is_in
sched_init-IsSound = record {
  ring_distinct = (refl, tt);
  zombies_distinct = tt;
  apart = λ i m. refl;
  idle_out = refl;
  idle_alive = refl;
  current_in = refl;
  current_runs = refl;
  waiting = λ i m ne. absurd (ground arith);
  dead = λ i m. absurd (ground arith);
}

spawn-IsSound :
    (i stack : Option ℕ) (name : List ℕ) (n : Sched)
    → AreFresh i n
    → IsSound n
    → IsSound (sched_spawn i stack name n).1
unfolding sched_spawn
spawn-IsSound none stack name n f v = v
spawn-IsSound (some i) none name n f v = other-IsSound n.init_thread n.init_dead _ n v
spawn-IsSound (some i) (some stack) name n f v = insert-IsSound i _ n f refl v

spawn_user-IsSound :
    (i stack : Option ℕ) (mmu : Space) (name : List ℕ) (n : Sched)
    → AreFresh i n
    → IsSound n
    → IsSound (sched_spawn_user_in i stack mmu name n).1
unfolding sched_spawn_user_in
spawn_user-IsSound none stack mmu name n f v = v
spawn_user-IsSound (some i) none mmu name n f v = other-IsSound n.init_thread n.init_dead _ n v
spawn_user-IsSound (some i) (some stack) mmu name n f v = insert-IsSound i _ n f refl v

left_by : (o : Option Sched) (m : Sched) → o ≡ some m → Leaves IsSound o → Leaves IsSound (some m)
left_by o m e v = subst (Leaves IsSound) e v

mark_init-IsSound : (t : Option ℕ) (n : Sched) → IsSound n → IsSound (sched_mark_init t n)
unfolding sched_mark_init
mark_init-IsSound t n v = other-IsSound t n.init_dead n.released n v

step-IsSound :
    {respawn : Sched → Sched} {n m : Sched}
    → Keeps respawn
    → Step respawn n m
    → IsSound n
    → IsSound m
step-IsSound k (spawn i stack name n f) v = spawn-IsSound i stack name n f v
step-IsSound k (spawn_user i stack mmu name n f) v = spawn_user-IsSound i stack mmu name n f v
step-IsSound k (mark_init t n) v = mark_init-IsSound t n v
step-IsSound k (yield n m e) v = left_by _ m e (sched_yield-IsSound _ n k v)
step-IsSound k (suspend n m e) v = left_by _ m e (sched_suspend-IsSound n v)
step-IsSound k (sleep now ns n m e) v = left_by _ m e (sched_sleep_ns-IsSound now ns n v)
step-IsSound k (wake t n) v = sched_wake-IsSound t n v
step-IsSound k (tick now n) v = sched_tick-IsSound now n v
step-IsSound k (exit status n m ne e) v = left_by _ m e (sched_exit-IsSound status n ne v)
step-IsSound k (reap z n) v = sched_reap_zombie-IsSound z n v

-- In every state that is reached from `sched_init`, by operations in which `kmalloc` gives addresses
-- that no thread has and the respawning of init keeps the threads sound, the ring and the list of
-- zombies have no thread twice and none in common, the idle thread is in neither, the current thread
-- is in the ring or the idle one and is the only thread of the ring that runs, the others of the ring
-- are ready or blocked, and those of the list of zombies are zombies.
pub threads-IsSound :
    (respawn : Sched → Sched) (n : Sched) → Keeps respawn → Reachable respawn n → IsSound n
threads-IsSound respawn n k start = sched_init-IsSound
threads-IsSound respawn _ k (next m p r s) = step-IsSound k s (threads-IsSound respawn m k r)
