-- ===== src/Sched/Alike.antt =====
-- Reaping the zombies changes nothing of what decides which thread of kernel/sched.c runs.
use axiome_os.Prelude.{
  ℕ, ◌≡◌, refl, sym, ap, ◌∙◌, Bool, none, List, [], ◌∷◌, ◌==◌, ==_iff, if◌then◌else◌, if_either,
}
use axiome_os.Sched.{Sched, update}
use axiome_os.Sched.Children.{release, reap_list, reap_zombies, is_orphan}

-- What decides who runs.
pub record IsAlike (n m : Sched) : Type 0 where
  pub ring_same : m.ring ≡ n.ring
  pub current_same : m.current ≡ n.current
  pub dead_same : m.init_dead ≡ n.init_dead
  pub state_same : (i : ℕ) → (m.threads i).state ≡ (n.threads i).state

state-release : (z i : ℕ) (n : Sched) → ((release z n).threads i).state ≡ (n.threads i).state
unfolding release update
state-release z i n =
    if_either (λ t. t.state ≡ (n.threads i).state) (i == z)
      (record (n.threads z) { stack_base = none; mmu = none }) (n.threads i)
      (λ e. ap (λ j. (n.threads j).state) (sym ((==_iff i z).0 e))) (λ e. refl)

release_if-IsAlike : (b : Bool) (z : ℕ) (n : Sched) → IsAlike n (if b then release z n else n)
unfolding release update
release_if-IsAlike b z n =
    if_either (IsAlike n) b (release z n) n
      (λ e. record {
        ring_same = refl;
        current_same = refl;
        dead_same = refl;
        state_same = λ i. state-release z i n;
      })
      (λ e. record {
        ring_same = refl;
        current_same = refl;
        dead_same = refl;
        state_same = λ i. refl;
      })

IsAlike-trans : (n m k : Sched) → IsAlike n m → IsAlike m k → IsAlike n k
IsAlike-trans n m k a b = record {
  ring_same = b.ring_same ∙ a.ring_same;
  current_same = b.current_same ∙ a.current_same;
  dead_same = b.dead_same ∙ a.dead_same;
  state_same = λ i. b.state_same i ∙ a.state_same i;
}

reap_list-IsAlike : (zs : List ℕ) (n : Sched) → IsAlike n (reap_list zs n).1
unfolding reap_list
reap_list-IsAlike [] n = record {
  ring_same = refl;
  current_same = refl;
  dead_same = refl;
  state_same = λ i. refl;
}
reap_list-IsAlike (z ∷ zs) n =
    let next : Sched = if is_orphan z n then release z n else n in
    IsAlike-trans n next (reap_list zs next).1 (release_if-IsAlike (is_orphan z n) z n)
      (reap_list-IsAlike zs next)

pub reap_zombies-IsAlike : (n : Sched) → IsAlike n (reap_zombies n)
unfolding reap_zombies
reap_zombies-IsAlike n =
    let a : IsAlike n (reap_list n.zombies n).1 = reap_list-IsAlike n.zombies n in
    record {
      ring_same = a.ring_same;
      current_same = a.current_same;
      dead_same = a.dead_same;
      state_same = a.state_same;
    }
