-- ===== src/Sched.antt =====
-- kernel/sched.c and kernel/sched.h: the threads, the ring of those that can run, and the creation
-- of a thread. A thread is named by the address of its structure, which is a number here.
pub mod Switch
pub mod Lists
pub mod Ring
pub mod Alike
pub mod Turns
pub mod Fair
pub mod Sound
pub mod Children
pub mod Wait
pub mod Laws
pub mod Ticks
pub mod Sleep
mod Examples
use axiome_os.Prelude.{
  ℕ, zero, suc, ◌+◌, ◌-◌, ◌^◌, Bool, true, false, ◌&&◌, ◌||◌, Option, none, some, List, [], ◌∷◌,
  ◌++◌, take, ◌==◌, if◌then◌else◌,
}
use axiome_os.Prelude.Int.{ℤ, pos, negsuc}
use axiome_os.Security.Roles.{Role, user, system, any_of, user_caps}

pub data Status : Type 0 where
  ready running blocked zombie : Status

abbrev pub quantum_max : ℕ
quantum_max = 10

-- The security context of a thread.
pub record Creds : Type 0 where
  pub uid : ℕ
  pub euid : ℕ
  pub suid : ℕ
  pub gid : ℕ
  pub egid : ℕ
  pub sgid : ℕ
  pub role : Role
  pub caps_eff : ℕ
  pub caps_prm : ℕ
  pub caps_inh : ℕ

-- An address space, by its handle.
pub data Space : Type 0 where
  kernel_root : Space
  user_root : ℕ → Space

-- `struct thread` without the saved registers, the links, the open files, the signals and the
-- channels. The name is without its final zero; no stack is none.
pub record Thread : Type 0 where
  pub pid : ℕ
  pub parent_pid : ℕ
  pub exit_status : ℕ
  pub state : Status
  pub quantum : ℕ
  pub sleep_deadline_ns : ℕ
  pub stack_base : Option ℕ
  pub mmu : Option Space
  pub name : List ℕ
  pub creds : Creds

-- What is given back: the frames of a stack, an address space, the structure of a thread.
pub data Release : Type 0 where
  stack_frames : ℕ → Release
  root : Option Space → Release
  memory : ℕ → Release

-- The state of the module: `ring` has the threads from `ready_head` on along `next`, `zombies` those
-- from `zombie_head` on, and `released` what was given back so far.
pub record Sched : Type 0 where
  pub threads : ℕ → Thread
  pub ring : List ℕ
  pub zombies : List ℕ
  pub current : ℕ
  pub next_pid : ℕ
  pub init_thread : Option ℕ
  pub init_dead : Bool
  pub released : List Release

-- The two threads that are not allocated.
abbrev pub main_thread : ℕ
main_thread = 0

abbrev pub idle_thread : ℕ
idle_thread = 1

abbrev pub system_creds : Creds
system_creds = record {
  uid = 0;
  euid = 0;
  suid = 0;
  gid = 0;
  egid = 0;
  sgid = 0;
  role = system;
  caps_eff = 2 ^ 32 - 1;
  caps_prm = 2 ^ 32 - 1;
  caps_inh = 2 ^ 32 - 1;
}

unfoldable pub user_creds : Creds
user_creds = record {
  uid = 0;
  euid = 0;
  suid = 0;
  gid = 0;
  egid = 0;
  sgid = 0;
  role = user;
  caps_eff = any_of user_caps;
  caps_prm = any_of user_caps;
  caps_inh = any_of user_caps;
}

unfoldable pub update : ℕ → Thread → Sched → Sched
update i t n = record n { threads = λ j. if j == i then t else n.threads j }

-- The state before `sched_init` is given: the statics are zero.
abbrev blank : Thread
blank = record {
  pid = 0;
  parent_pid = 0;
  exit_status = 0;
  state = ready;
  quantum = 0;
  sleep_deadline_ns = 0;
  stack_base = none;
  mmu = none;
  name = [];
  creds = record system_creds { role = Role.guest; caps_eff = 0; caps_prm = 0; caps_inh = 0 };
}

-- The characters of "main" and "idle".
abbrev name_main : List ℕ
name_main = 109 ∷ 97 ∷ 105 ∷ 110 ∷ []

abbrev name_idle : List ℕ
name_idle = 105 ∷ 100 ∷ 108 ∷ 101 ∷ []

unfoldable pub sched_init : Sched
sched_init = record {
  threads = λ i.
      if i == main_thread
      then record blank {
        pid = 1;
        state = running;
        quantum = quantum_max;
        mmu = some kernel_root;
        name = name_main;
        creds = system_creds;
      }
      else if i == idle_thread
      then record blank {
        pid = 2;
        quantum = quantum_max;
        mmu = some kernel_root;
        name = name_idle;
        creds = system_creds;
      }
      else blank;
  ring = main_thread ∷ [];
  zombies = [];
  current = main_thread;
  next_pid = 3;
  init_thread = none;
  init_dead = false;
  released = [];
}

-- A new thread joins the ring before its head, which is its end.
unfoldable pub insert : ℕ → Thread → Sched → Sched
insert i t n = record (update i t n) { ring = n.ring ++ i ∷ []; next_pid = suc n.next_pid }

-- The structure is not cleared when it is allocated: the deadline stays what the memory held.
abbrev pub spawned : ℕ → ℕ → Space → ℕ → Creds → List ℕ → Sched → Thread
spawned i stack mmu parent_pid creds name n = record {
  pid = n.next_pid;
  parent_pid = parent_pid;
  exit_status = 0;
  state = ready;
  quantum = quantum_max;
  sleep_deadline_ns = (n.threads i).sleep_deadline_ns;
  stack_base = some stack;
  mmu = some mmu;
  name = take 15 name;
  creds = creds;
}

-- `allocated` is what `kmalloc` gives, `stack` what `pmm_alloc_frames` gives.
unfoldable pub sched_spawn : (allocated stack : Option ℕ) → List ℕ → Sched → Option ℕ × Sched
sched_spawn none stack name n = (none, n)
sched_spawn (some i) none name n = (none, record n { released = n.released ++ memory i ∷ [] })
sched_spawn (some i) (some stack) name n =
    (some i, insert i (spawned i stack kernel_root 0 user_creds name n) n)

-- The child of the current thread, with its security context.
unfoldable pub sched_spawn_user_in :
    (allocated stack : Option ℕ) → Space → List ℕ → Sched → Option ℕ × Sched
sched_spawn_user_in none stack mmu name n = (none, n)
sched_spawn_user_in (some i) none mmu name n =
    (none, record n { released = n.released ++ memory i ∷ [] })
sched_spawn_user_in (some i) (some stack) mmu name n =
    let parent : Thread = n.threads n.current in
    (some i, insert i (spawned i stack mmu parent.pid parent.creds name n) n)

unfoldable pub ring_find : (ℕ → Bool) → List ℕ → Option ℕ
ring_find test [] = none
ring_find test (i ∷ is) = let rest = ring_find test is in if test i then some i else rest

abbrev pub has_pid : Sched → ℕ → ℕ → Bool
has_pid n pid i = (n.threads i).pid == pid

unfoldable pub thread_find_by_pid : ℕ → Sched → Option ℕ
thread_find_by_pid pid n =
    if pid == 0
    then none
    else if has_pid n pid n.current
    then some n.current
    else if has_pid n pid main_thread
    then some main_thread
    else if has_pid n pid idle_thread
    then some idle_thread
    else ring_find (has_pid n pid) n.ring

unfoldable pub sched_find_by_pid : ℤ → Sched → Option ℕ
sched_find_by_pid (pos pid) n = thread_find_by_pid pid n
sched_find_by_pid (negsuc k) n = none

unfoldable pub sched_mark_init : Option ℕ → Sched → Sched
sched_mark_init t n = record n { init_thread = t }

unfoldable pub sched_is_protected : ℕ → Bool
sched_is_protected t = t == main_thread || t == idle_thread

-- What `sched_protected_kill` does: let the kill proceed, refuse it, or panic.
pub data Verdict : Type 0 where
  proceed refuse panic : Verdict

unfoldable pub is_system : Role → Bool
is_system Role.guest = false
is_system user = false
is_system Role.admin = false
is_system system = true

unfoldable pub killer_may : Option Role → Verdict
killer_may none = panic
killer_may (some r) = if is_system r then panic else refuse

unfoldable pub sched_protected_kill : ℕ → Option ℕ → Sched → Verdict
sched_protected_kill victim none n = if sched_is_protected victim then killer_may none else proceed
sched_protected_kill victim (some killer) n =
    if sched_is_protected victim then killer_may (some (n.threads killer).creds.role) else proceed
