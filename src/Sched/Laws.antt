-- ===== src/Sched/Laws.antt =====
-- What kernel/sched.c promises a parent of its children, and a thread that sleeps.
use axiome_os.Prelude.{ℕ, ◌≡◌}
use axiome_os.Sched.{Status, Thread, Sched}

-- A field that waking and switching do not write.
record IsLasting (f : Thread → ℕ) : Type 0 where
  lasts : (t : Thread) (s : Status) (q : ℕ) → f (record t { state = s; quantum = q }) ≡ f t

-- The state in which the thread `p` is in the kernel again.
abbrev pub resumed : ℕ → Sched → Sched
resumed p n = record n { current = p }
