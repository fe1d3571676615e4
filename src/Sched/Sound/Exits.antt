-- ===== src/Sched/Sound/Exits.antt =====
-- `sched_exit` of kernel/sched.c keeps the threads sound.
use axiome_os.Prelude.{
  ℕ, ◌≡◌, ◌≢◌, refl, sym, ap, ◌∙◌, inl, inr, Bool, true, false, ◌||◌, Option, none, some, List, [],
  ◌∷◌, ◌==◌, ==_iff, Bool-cases, arith, if◌then◌else◌,
}
use axiome_os.Sched.{zombie, Thread, Sched, update, idle_thread, thread_find_by_pid}
use axiome_os.Sched.Children.{drop_first}
use axiome_os.Sched.Switch.{
  switch_to, run_next, sched_wake, sched_exit, exit_on, unlink, head_or_idle, is_empty, is_init,
}
use axiome_os.Prelude.Members.{is_in, ==_self, ==_ne, ne_of, or_true, or_cases, apart_ne}
use axiome_os.Sched.Lists.{
  is_in-drop_first, out-drop_first, drop_first_self, kept_in, drop_first-AreDistinct,
}
use axiome_os.Sched.Sound.{IsParked, IsSound}
use axiome_os.Sched.Sound.Moves.{Leaves, sched_wake-IsParked, run_next-IsSound}

-- The thread that runs is in the ring, unless it is the idle one.
pub runs_in_ring : (n : Sched) → IsSound n → n.current ≢ idle_thread → is_in n.current n.ring ≡ true
runs_in_ring n v ne = elim (or_cases _ _ v.current_in) [
  | inl m ↦ m
  | inr e ↦ absurd (ne ((==_iff n.current idle_thread).0 e))
]

exited-IsParked :
    (t : Thread) (d : Bool) (n : Sched)
    → t.state ≡ zombie
    → n.current ≢ idle_thread
    → IsSound n
    → IsParked (record (update n.current t n) {
      ring = drop_first n.current n.ring;
      zombies = n.current ∷ n.zombies;
      init_dead = d;
    })
unfolding update is_in
exited-IsParked t d n z ne v =
    let self = n.current in
    let here : is_in self n.ring ≡ true = runs_in_ring n v ne in
    let gone : is_in self (drop_first self n.ring) ≡ false =
      drop_first_self self n.ring v.ring_distinct in
    let other : (i : ℕ) → is_in i (drop_first self n.ring) ≡ true → i ≢ self =
      λ i m. apart_ne (drop_first self n.ring) i self m gone in
    record {
      ring_distinct = drop_first-AreDistinct self n.ring v.ring_distinct;
      zombies_distinct = (v.apart self here, v.zombies_distinct);
      apart = λ i m.
          rw (==_ne self i (λ e. other i m (sym e))) (v.apart i (is_in-drop_first self i n.ring m));
      idle_out = out-drop_first self idle_thread n.ring v.idle_out;
      idle_alive = rw (==_ne self idle_thread ne) v.idle_alive;
      waiting = λ i m.
          rw (==_ne i self (other i m))
            (v.waiting i (is_in-drop_first self i n.ring m) (other i m));
      dead = λ i m. elim (Bool-cases (i == self)) [
        | inl e ↦ rw e z
        | inr e ↦ rw e (
            v.dead i (
              sym (
                ap (λ b. b || is_in i n.zombies) (==_ne self i (λ same. ne_of i self e (sym same))))
              ∙ m))
      ];
    }

head_in : (is : List ℕ) → is_in (head_or_idle is) is || head_or_idle is == idle_thread ≡ true
unfolding is_in head_or_idle
head_in [] = refl
head_in (x ∷ xs) = rw (==_self x) refl

head_member : (x : ℕ) (is : List ℕ) → is_in x is ≡ true → is_in (head_or_idle is) is ≡ true
unfolding is_in head_or_idle
head_member x [] m = absurd (ground arith)
head_member x (y ∷ is) m = rw (==_self y) refl

ring-sched_wake : (o : Option ℕ) (n : Sched) → (sched_wake o n).ring ≡ n.ring
unfolding sched_wake update
ring-sched_wake none n = refl
ring-sched_wake (some i) n = refl

pub unlink_member : (i : ℕ) (is : List ℕ) → is_in i is ≡ true → unlink i is ≡ some (drop_first i is)
unfolding unlink
unlink_member i is m = rw m (rw (or_true (is_empty is)) refl)

-- The state when the thread is a zombie, before its parent is woken.
abbrev pub exited : ℕ → Sched → Sched
exited status n =
    record (update n.current (record (n.threads n.current) { state = zombie; exit_status = status })
      n) {
        ring = drop_first n.current n.ring;
        zombies = n.current ∷ n.zombies;
        init_dead = n.init_dead || is_init n.init_thread n.current;
      }

abbrev pub parent_of : ℕ → Sched → Option ℕ
parent_of status n =
    thread_find_by_pid ((exited status n).threads n.current).parent_pid (exited status n)

abbrev pub after_exit : ℕ → Sched → Sched
after_exit status n =
    switch_to (head_or_idle (drop_first n.current n.ring))
      (sched_wake (parent_of status n) (exited status n))

sched_exit_on :
    (status : ℕ) (n : Sched)
    → is_in n.current n.ring ≡ true
    → sched_exit status n
      ≡ run_next
          (head_or_idle (drop_first n.current n.ring))
          (sched_wake (parent_of status n) (exited status n))
unfolding sched_exit exit_on update
sched_exit_on status n m = rw (unlink_member n.current n.ring m) refl

-- A thread that is in the ring stays there, so that the idle thread is not what runs next.
head_not_idle :
    (other : ℕ) (n : Sched)
    → IsSound n
    → is_in other n.ring ≡ true
    → other ≢ n.current
    → head_or_idle (drop_first n.current n.ring) == idle_thread ≡ false
head_not_idle other n v m ne =
    let is : List ℕ = drop_first n.current n.ring in
    let idle_out : is_in idle_thread is ≡ false =
      out-drop_first n.current idle_thread n.ring v.idle_out in
    let head : is_in (head_or_idle is) is ≡ true =
      head_member other is (kept_in n.current other n.ring m ne) in
    ==_ne (head_or_idle is) idle_thread (apart_ne is (head_or_idle is) idle_thread head idle_out)

pub sched_exit_at :
    (status other : ℕ) (n : Sched)
    → IsSound n
    → is_in n.current n.ring ≡ true
    → is_in other n.ring ≡ true
    → other ≢ n.current
    → sched_exit status n ≡ some (after_exit status n)
unfolding run_next
sched_exit_at status other n v m in_ring ne =
    sched_exit_on status n m
    ∙ ap (λ b. if b then none else some (after_exit status n)) (head_not_idle other n v in_ring ne)

pub sched_exit-IsSound :
    (status : ℕ) (n : Sched)
    → n.current ≢ idle_thread
    → IsSound n
    → Leaves IsSound (sched_exit status n)
unfolding update
sched_exit-IsSound status n ne v =
    let t : Thread = record (n.threads n.current) { state = zombie; exit_status = status } in
    let is : List ℕ = drop_first n.current n.ring in
    let o : Option ℕ = parent_of status n in
    rw (sched_exit_on status n (runs_in_ring n v ne)) (
      run_next-IsSound (head_or_idle is) (sched_wake o (exited status n))
        (sched_wake-IsParked o (exited status n)
          (exited-IsParked t (exited status n).init_dead n refl ne v))
        (ap (λ l. is_in (head_or_idle is) l || head_or_idle is == idle_thread)
            (ring-sched_wake o (exited status n))
          ∙ head_in is))
