-- ===== src/Sched/Examples.antt =====
-- The properties of the threads at concrete states: main, a shell, and a child of the shell.
use axiome_os.Prelude.{◌≡◌, ◌≢◌, refl, true, some, [], ◌∷◌, arith, length}
use axiome_os.Sched.{
  ready, blocked, Thread, Sched, user_root, sched_init, sched_spawn, sched_spawn_user_in,
  main_thread, update, insert, idle_thread,
}
use axiome_os.Sched.Switch.{sched_sleep_ns, sched_tick, switch_to}
use axiome_os.Prelude.Members.{is_in}
use axiome_os.Sched.Sound.{IsSound}
use axiome_os.Sched.Sound.Moves.{Keeps}
use axiome_os.Sched.Sound.Reach.{Reachable, start, next, spawn, spawn_user, threads-IsSound}
use axiome_os.Sched.Fair.{RunsWithin, sched_yield-RunsWithin}
use axiome_os.Sched.Sleep.{ticks, sched_tick-sched_sleep_ns}

-- A respawning that fails.
abbrev respawn : Sched → Sched
respawn n = n

respawn-Keeps : Keeps respawn
respawn-Keeps n v = v

abbrev with_worker : Sched
with_worker = (sched_spawn (some 5) (some 100) (119 ∷ []) sched_init).1

abbrev with_child : Sched
with_child = (sched_spawn_user_in (some 6) (some 108) (user_root 3) (99 ∷ []) with_worker).1

with_child-Reachable : Reachable respawn with_child
unfolding sched_spawn sched_spawn_user_in sched_init insert is_in update
with_child-Reachable =
    next _ _
      (next _ _ start (spawn (some 5) (some 100) (119 ∷ []) sched_init (refl, refl, ground arith)))
      (spawn_user (some 6) (some 108) (user_root 3) (99 ∷ []) with_worker
        (refl, refl, ground arith))

threads-IsSound_example : IsSound with_child
threads-IsSound_example = threads-IsSound respawn with_child respawn-Keeps with_child-Reachable

with_child-IsSound : IsSound with_child
with_child-IsSound = threads-IsSound respawn with_child respawn-Keeps with_child-Reachable

main_runs : with_child.current ≢ idle_thread
unfolding sched_spawn sched_spawn_user_in sched_init insert update
main_runs = λ e. absurd (ground arith)

sched_yield-RunsWithin_example : RunsWithin respawn 6 (length with_child.ring) with_child
unfolding sched_spawn sched_spawn_user_in sched_init insert is_in update
sched_yield-RunsWithin_example =
    sched_yield-RunsWithin respawn with_child 6 with_child-IsSound main_runs refl refl refl

-- The child runs, its parent waits.
abbrev main_blocked : Thread
main_blocked = record (with_child.threads with_child.current) { state = blocked }

abbrev exiting : Sched
exiting = switch_to 6 (update with_child.current main_blocked with_child)

sched_tick-sched_sleep_ns_example :
    (m : Sched) × (sched_sleep_ns 1000 50 with_child ≡ some m)
    × (is_in m.current with_child.ring ≡ true)
    × (m.current ≢ main_thread)
    × ((with_child.threads m.current).state ≡ ready)
    × (((ticks (1010 ∷ 1049 ∷ []) m).threads main_thread).state ≡ blocked)
    × (((sched_tick 1050 (ticks (1010 ∷ 1049 ∷ []) m)).threads main_thread).state ≡ ready)
unfolding sched_spawn_user_in insert update sched_spawn sched_init is_in
sched_tick-sched_sleep_ns_example =
    sched_tick-sched_sleep_ns 1000 50 6 (1010 ∷ 1049 ∷ []) 1050 with_child with_child-IsSound
      main_runs refl (ground arith) refl (omega arith) (omega arith)
      (omega arith, (omega arith, tt)) (omega arith)
