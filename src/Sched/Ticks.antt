-- ===== src/Sched/Ticks.antt =====
-- A sleeping thread under a tick of the timer of kernel/sched.c.
use axiome_os.Prelude.{
  ℕ, ◌-◌, ◌<◌, ◌≤◌, ◌≡◌, refl, sym, ap, ◌∙◌, inl, inr, true, false, not, ◌&&◌, ◌||◌, List, [], ◌∷◌,
  arith, leb, ◌==◌, ==_iff, if◌then◌else◌, Bool-cases, if_either,
}
use axiome_os.Sched.{ready, blocked, Thread, Sched, update}
use axiome_os.Sched.Switch.{is_blocked, is_due, wake_due, tick_list, sched_tick}
use axiome_os.Prelude.Members.{is_in, ==_ne, ne_of}

-- A sleeper in the ring, with its deadline.
pub record IsAsleep (i deadline : ℕ) (n : Sched) : Type 0 where
  pub member : is_in i n.ring ≡ true
  pub state_blocked : (n.threads i).state ≡ blocked
  pub deadline_set : (n.threads i).sleep_deadline_ns ≡ deadline

pub is_due_at :
    (now deadline : ℕ) (t : Thread)
    → t.state ≡ blocked
    → t.sleep_deadline_ns ≡ deadline
    → is_due now t ≡ (not (deadline == 0) && leb deadline now)
unfolding is_due is_blocked
is_due_at now deadline t e f =
    ap (λ s. is_blocked s && not (t.sleep_deadline_ns == 0) && leb t.sleep_deadline_ns now) e
    ∙ ap (λ d. not (d == 0) && leb d now) f

pub wake_due_not : (now : ℕ) (t : Thread) → is_due now t ≡ false → wake_due now t ≡ t
unfolding wake_due
wake_due_not now t e =
    ap (λ b. if b then record t { state = ready; sleep_deadline_ns = 0 } else t) e

pub wake_due_so : (now : ℕ) (t : Thread) → is_due now t ≡ true → (wake_due now t).state ≡ ready
unfolding wake_due
wake_due_so now t e =
    ap (λ b. (if b then record t { state = ready; sleep_deadline_ns = 0 } else t).state) e

-- A thread that is not due is left alone.
pub tick_list_keeps :
    (now i : ℕ) (is : List ℕ) (n : Sched)
    → is_due now (n.threads i) ≡ false
    → (tick_list now is n).threads i ≡ n.threads i
unfolding tick_list update
tick_list_keeps now i [] n e = refl
tick_list_keeps now i (j ∷ is) n e =
    let m : Sched = update j (wake_due now (n.threads j)) n in
    let same : m.threads i ≡ n.threads i = elim (Bool-cases (i == j)) [
      | inl f ↦
          let eq : j ≡ i = sym ((==_iff i j).0 f) in
          rw f (ap (λ k. wake_due now (n.threads k)) eq ∙ wake_due_not now (n.threads i) e)
      | inr f ↦ rw f refl
    ] in
    tick_list_keeps now i is m (ap (is_due now) same ∙ e) ∙ same

pub not_due_when_ready : (now : ℕ) (t : Thread) → t.state ≡ ready → is_due now t ≡ false
unfolding is_due is_blocked
not_due_when_ready now t e =
    ap (λ s. is_blocked s && not (t.sleep_deadline_ns == 0) && leb t.sleep_deadline_ns now) e

pub tick_list_wakes :
    (now i : ℕ) (is : List ℕ) (n : Sched)
    → is_in i is ≡ true
    → is_due now (n.threads i) ≡ true
    → ((tick_list now is n).threads i).state ≡ ready
unfolding tick_list update is_in
tick_list_wakes now i [] n m e = absurd (ground arith)
tick_list_wakes now i (j ∷ is) n m e =
    let w : Sched = update j (wake_due now (n.threads j)) n in
    elim (Bool-cases (j == i)) [
      | inl f ↦
          let eq : j ≡ i = (==_iff j i).0 f in
          let woke : (w.threads i).state ≡ ready =
            rw ((==_iff i j).1 (sym eq))
              (ap (λ k. (wake_due now (n.threads k)).state) eq ∙ wake_due_so now (n.threads i) e) in
          ap (λ t. t.state) (tick_list_keeps now i is w (not_due_when_ready now (w.threads i) woke))
          ∙ woke
      | inr f ↦
          let same : w.threads i ≡ n.threads i = rw (==_ne i j (λ q. ne_of j i f (sym q))) refl in
          tick_list_wakes now i is w (sym (ap (λ b. b || is_in i is) f) ∙ m)
            (ap (is_due now) same ∙ e)
    ]

-- The state when the quantum of the current thread is counted down.
abbrev pub counted : Sched → Sched
counted n =
    update n.current (record (n.threads n.current) { quantum = (n.threads n.current).quantum - 1 })
      n

pub counted-IsAsleep :
    (i deadline : ℕ) (n : Sched) → IsAsleep i deadline n → IsAsleep i deadline (counted n)
unfolding update
counted-IsAsleep i deadline n a =
    let t : Thread = record (n.threads n.current) { quantum = (n.threads n.current).quantum - 1 } in
    record {
      member = a.member;
      state_blocked =
          if_either (λ r. r.state ≡ blocked) (i == n.current) t (n.threads i)
            (λ e. ap (λ k. (n.threads k).state) (sym ((==_iff i n.current).0 e)) ∙ a.state_blocked)
            (λ e. a.state_blocked);
      deadline_set =
          if_either (λ r. r.sleep_deadline_ns ≡ deadline) (i == n.current) t (n.threads i)
            (λ e.
              ap (λ k. (n.threads k).sleep_deadline_ns) (sym ((==_iff i n.current).0 e))
              ∙ a.deadline_set)
            (λ e. a.deadline_set);
    }

pub ring-tick_list : (now : ℕ) (is : List ℕ) (n : Sched) → (tick_list now is n).ring ≡ n.ring
unfolding tick_list update
ring-tick_list now [] n = refl
ring-tick_list now (i ∷ is) n = ring-tick_list now is (update i (wake_due now (n.threads i)) n)

pub early : (deadline now : ℕ) → now < deadline → not (deadline == 0) && leb deadline now ≡ false
early deadline now lt = ground arith

pub late :
    (deadline now : ℕ)
    → 0 < deadline
    → deadline ≤ now
    → not (deadline == 0) && leb deadline now ≡ true
late deadline now pos le = ground arith

pub tick-IsAsleep :
    (now i deadline : ℕ) (n : Sched)
    → now < deadline
    → IsAsleep i deadline n
    → IsAsleep i deadline (sched_tick now n)
unfolding sched_tick update
tick-IsAsleep now i deadline n lt a =
    let c : IsAsleep i deadline (counted n) = counted-IsAsleep i deadline n a in
    let same : (sched_tick now n).threads i ≡ (counted n).threads i =
      tick_list_keeps now i n.ring (counted n) (
        is_due_at now deadline ((counted n).threads i) c.state_blocked c.deadline_set
        ∙ early deadline now lt) in
    record {
      member = ap (is_in i) (ring-tick_list now n.ring (counted n)) ∙ a.member;
      state_blocked = ap (λ t. t.state) same ∙ c.state_blocked;
      deadline_set = ap (λ t. t.sleep_deadline_ns) same ∙ c.deadline_set;
    }

pub tick_wakes :
    (now i deadline : ℕ) (n : Sched)
    → 0 < deadline
    → deadline ≤ now
    → IsAsleep i deadline n
    → ((sched_tick now n).threads i).state ≡ ready
unfolding sched_tick
tick_wakes now i deadline n pos le a =
    let c : IsAsleep i deadline (counted n) = counted-IsAsleep i deadline n a in
    tick_list_wakes now i n.ring (counted n) a.member (
      is_due_at now deadline ((counted n).threads i) c.state_blocked c.deadline_set
      ∙ late deadline now pos le)
