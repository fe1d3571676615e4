-- ===== src/Sched/Fair.antt =====
-- The order in which the threads of kernel/sched.c run when each yields.
use mathlib.Core.Path.{subst}
use axiome_os.Prelude.{
  ℕ, zero, suc, ◌<◌, ◌≡◌, ◌≢◌, sym, ap, ◌∙◌, Bool, true, false, some, List, [], ◌∷◌, ◌++◌, length,
  length-append, arith, ◌==◌, if◌then◌else◌,
}
use axiome_os.Sched.{ready, Sched, idle_thread}
use axiome_os.Sched.Children.{reap_zombies}
use axiome_os.Sched.Switch.{following, switch_to, yield_on, sched_yield, sched_check_init}
use axiome_os.Prelude.Members.{is_in, AreDistinct, ==_ne, is_in-append}
use axiome_os.Sched.Ring.{following_at, split, IsSplit, IsCut, following-IsCut, cut_in}
use axiome_os.Sched.Sound.Exits.{runs_in_ring}
use axiome_os.Sched.Sound.{IsSound}
use axiome_os.Sched.Alike.{IsAlike, reap_zombies-IsAlike}
use axiome_os.Sched.Turns.{runs, nearer, set_aside, chosen, yield_on_at, IsAhead, progress}

-- The thread runs now, or after some yields, at most so many.
pub data RunsWithin (respawn : Sched → Sched) (t : ℕ) : ℕ → Sched → Type 0 where
  now : {k : ℕ} {n : Sched} → n.current ≡ t → RunsWithin respawn t k n
  later :
      {k : ℕ} {n m : Sched}
      → sched_yield respawn n ≡ some m
      → RunsWithin respawn t k m
      → RunsWithin respawn t (suc k) n

reaped :
    (t : ℕ) (before after : List ℕ) (n : Sched)
    → IsAhead t before after n
    → IsAhead t before after (reap_zombies n)
reaped t before after n a =
    let r : IsAlike n (reap_zombies n) = reap_zombies-IsAlike n in
    record {
      distinct = subst AreDistinct (sym r.ring_same) a.distinct;
      other = λ e. a.other (e ∙ r.current_same);
      is_due = r.state_same t ∙ a.is_due;
      lives = r.dead_same ∙ a.lives;
      order =
          ap (λ i. following i [] (reap_zombies n).ring) r.current_same
          ∙ ap (following n.current []) r.ring_same
          ∙ a.order;
    }

if_false : (b : Bool) (x y : Sched) → b ≡ false → (if b then x else y) ≡ y
if_false b x y e = ap (λ c. if c then x else y) e

no_respawn :
    (respawn : Sched → Sched) (n : Sched) → n.init_dead ≡ false → sched_check_init respawn n ≡ n
unfolding sched_check_init
no_respawn respawn n e = if_false n.init_dead _ n e

sched_yield_at :
    (respawn : Sched → Sched) (n : Sched) (found : List ℕ)
    → (reap_zombies n).init_dead ≡ false
    → following (reap_zombies n).current [] (reap_zombies n).ring ≡ some found
    → sched_yield respawn n
      ≡ some (switch_to (chosen found (reap_zombies n)) (set_aside (reap_zombies n)))
unfolding sched_yield
sched_yield_at respawn n found e f =
    ap yield_on (no_respawn respawn (reap_zombies n) e) ∙ yield_on_at (reap_zombies n) found f

reaches :
    (respawn : Sched → Sched) (t k : ℕ) (before after : List ℕ) (n : Sched)
    → length before < k
    → IsAhead t before after n
    → RunsWithin respawn t k n
reaches respawn t zero before after n lt a = absurd (omega arith)
reaches respawn t (suc k) before after n lt a =
    let b : IsAhead t before after (reap_zombies n) = reaped t before after n a in
    later (sched_yield_at respawn n (before ++ t ∷ after) b.lives b.order)
      (elim (progress t before after (reap_zombies n) b) [
        | runs e ↦ now e
        | nearer before' after' less c ↦ reaches respawn t k before' after' _ (omega arith) c
      ])

met :
    (old t : ℕ) (is found : List ℕ)
    → is_in t is ≡ true
    → t ≢ old
    → following old [] is ≡ some found
    → is_in t found ≡ true
unfolding is_in
met old t is found m ne e =
    let back : is_in t (found ++ old ∷ []) ≡ true =
      cut_in old t is found (following-IsCut old [] is found e) ∙ m in
    let last : (old == t) ≡ false = ==_ne old t (λ same. ne (sym same)) in
    ground (arith, sym (is_in-append t found (old ∷ [])) ∙ back, last)

length_before :
    (t : ℕ) (old : ℕ) (is found before after : List ℕ)
    → following old [] is ≡ some found
    → found ≡ before ++ t ∷ after
    → length before < length is
length_before t old is found before after e f =
    let c : IsCut old [] is found = following-IsCut old [] is found e in
    omega (
      arith,
      ap length c.whole,
      ap length c.turned,
      ap length f,
      length-append c.left (old ∷ c.right),
      length-append c.right c.left,
      length-append before (t ∷ after),
    )

-- When the current thread, one of the ring, and those after it yield one after the other, and init
-- has not exited, each thread of the ring that is ready runs after at most as many yields as the ring
-- has threads: none of these yields follows a null link.
pub sched_yield-RunsWithin :
    (respawn : Sched → Sched) (n : Sched) (t : ℕ)
    → IsSound n
    → n.current ≢ idle_thread
    → n.init_dead ≡ false
    → is_in t n.ring ≡ true
    → (n.threads t).state ≡ ready
    → RunsWithin respawn t (length n.ring) n
sched_yield-RunsWithin respawn n t v not_idle lives m due =
    let s : IsSplit n.current n.ring = split n.current n.ring (runs_in_ring n v not_idle) in
    let found : List ℕ = s.right ++ s.left in
    let walk : following n.current [] n.ring ≡ some found =
      ap (following n.current []) s.whole ∙ following_at n.current [] s.left s.right s.first in
    let other : t ≢ n.current =
      λ e. absurd (ground (arith, sym due ∙ ap (λ i. (n.threads i).state) e ∙ v.current_runs)) in
    let p : IsSplit t found = split t found (met n.current t n.ring found m other walk) in
    reaches respawn t (length n.ring) p.left p.right n
      (length_before t n.current n.ring found p.left p.right walk p.whole)
      (record {
        distinct = v.ring_distinct;
        other = other;
        is_due = due;
        lives = lives;
        order = walk ∙ ap some p.whole;
      })
