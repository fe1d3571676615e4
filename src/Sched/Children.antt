-- ===== src/Sched/Children.antt =====
-- kernel/sched.c: the list of threads that have exited, and the children of a process.
use axiome_os.Prelude.{
  ℕ, zero, suc, Bool, true, false, ◌&&◌, ◌||◌, Option, none, some, List, [], ◌∷◌, ◌++◌, take, ◌==◌,
  if◌then◌else◌,
}
use axiome_os.Prelude.Int.{ℤ, pos, negsuc}
use axiome_os.Sched.{
  Status, Thread, Release, stack_frames, root, memory, Sched, update, ring_find, thread_find_by_pid,
  main_thread, idle_thread,
}

unfoldable pub frames_of : Option ℕ → List Release
frames_of none = []
frames_of (some stack) = stack_frames stack ∷ []

-- The end of `reap_zombies` and of `sched_reap_zombie`: what the thread has is given back.
unfoldable pub release : ℕ → Sched → Sched
release z n =
    let t : Thread = n.threads z in
    record (update z (record t { stack_base = none; mmu = none }) n) {
      released = n.released ++ frames_of t.stack_base ++ root t.mmu ∷ memory z ∷ [];
    }

unfoldable pub drop_first : ℕ → List ℕ → List ℕ
drop_first z [] = []
drop_first z (x ∷ xs) = let rest = drop_first z xs in if x == z then xs else x ∷ rest

unfoldable pub sched_reap_zombie : Option ℕ → Sched → Sched
sched_reap_zombie none n = n
sched_reap_zombie (some z) n = release z (record n { zombies = drop_first z n.zombies })

unfoldable pub is_gone : Option ℕ → Bool
is_gone none = true
is_gone (some t) = false

-- No one is left to wait for the thread.
unfoldable pub is_orphan : ℕ → Sched → Bool
is_orphan z n =
    let parent_pid = (n.threads z).parent_pid in
    parent_pid == 0 || is_gone (thread_find_by_pid parent_pid n)

unfoldable pub reap_list : List ℕ → Sched → List ℕ × Sched
reap_list [] n = ([], n)
reap_list (z ∷ zs) n =
    let gone = is_orphan z n in
    let rest = reap_list zs (if gone then release z n else n) in
    (if gone then rest.0 else z ∷ rest.0, rest.1)

unfoldable pub reap_zombies : Sched → Sched
reap_zombies n = let r = reap_list n.zombies n in record (r.1) { zombies = r.0 }

-- Filters of 0 or less take every pid.
unfoldable pub passes_filter : ℤ → ℕ → Bool
passes_filter (pos zero) pid = true
passes_filter (pos (suc k)) pid = pid == suc k
passes_filter (negsuc k) pid = true

unfoldable pub is_child_of : ℕ → ℤ → Thread → Bool
is_child_of parent_pid pid_filter t = t.parent_pid == parent_pid && passes_filter pid_filter t.pid

unfoldable pub sched_child_zombie : ℕ → ℤ → Sched → Option ℕ
sched_child_zombie parent_pid pid_filter n =
    ring_find (λ z. is_child_of parent_pid pid_filter (n.threads z)) n.zombies

unfoldable pub any : (ℕ → Bool) → List ℕ → Bool
any test [] = false
any test (x ∷ xs) = test x || any test xs

unfoldable pub sched_has_child : ℕ → Sched → Bool
sched_has_child parent_pid n =
    let test : ℕ → Bool = λ i. (n.threads i).parent_pid == parent_pid in
    any test n.ring || any test n.zombies

-- `struct proc_info`, with the state as it is.
pub record ProcInfo : Type 0 where
  pub pid : ℕ
  pub parent_pid : ℕ
  pub state : Status
  pub uid : ℕ
  pub name : List ℕ

unfoldable pub info_of : Thread → ProcInfo
info_of t = record {
  pid = t.pid;
  parent_pid = t.parent_pid;
  state = t.state;
  uid = t.creds.uid;
  name = take 15 t.name;
}

unfoldable pub is_fixed : ℕ → Bool
is_fixed i = i == main_thread || i == idle_thread

-- The threads of a list that are not yet told of.
unfoldable pub others : ℕ → List ℕ → List ℕ
others cur [] = []
others cur (i ∷ is) = let rest = others cur is in if is_fixed i || i == cur then rest else i ∷ rest

unfoldable pub listed : Sched → List ℕ
listed n =
    main_thread ∷ idle_thread ∷ (if is_fixed n.current then [] else n.current ∷ [])
    ++ others n.current n.ring
    ++ others n.current n.zombies

unfoldable pub infos : Sched → List ℕ → List ProcInfo
infos n [] = []
infos n (i ∷ is) = info_of (n.threads i) ∷ infos n is

-- The entries that a buffer of `max` entries is given, the first ones.
unfoldable pub sched_enum_procs : ℕ → Sched → List ProcInfo
sched_enum_procs max n = take max (infos n (listed n))

-- The threads that `sched_foreach` calls its function on, in order.
unfoldable pub sched_foreach : Sched → List ℕ
sched_foreach n =
    n.current ∷ (if main_thread == n.current then [] else main_thread ∷ [])
    ++ (if idle_thread == n.current then [] else idle_thread ∷ [])
    ++ others n.current n.ring
