-- ===== src/Sched/Wait.antt =====
-- kernel/syscall.c: waiting for a child to exit.
use axiome_os.Prelude.{ℕ, Option, none, some, if◌then◌else◌}
use axiome_os.Prelude.Int.{ℤ}
use axiome_os.Sched.{Sched}
use axiome_os.Sched.Children.{sched_child_zombie, sched_has_child, sched_reap_zombie}
use axiome_os.Sched.Switch.{sched_suspend}

-- What one round of the loop of `sys_waitpid` does: it returns the pid and the status of a child, or
-- -1, or it blocks and is at the head of the loop when it runs again.
pub data Waited : Type 0 where
  reaped : (pid status : ℕ) → Sched → Waited
  no_child : Waited
  asleep : Option Sched → Waited

unfoldable pub wait_on : Option ℕ → ℕ → Sched → Waited
wait_on none self_pid n = if sched_has_child self_pid n then asleep (sched_suspend n) else no_child
wait_on (some z) self_pid n =
    reaped (n.threads z).pid (n.threads z).exit_status (sched_reap_zombie (some z) n)

unfoldable pub sys_waitpid : ℤ → Sched → Waited
sys_waitpid pid_filter n =
    let self_pid = (n.threads n.current).pid in
    wait_on (sched_child_zombie self_pid pid_filter n) self_pid n
