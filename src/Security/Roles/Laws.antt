-- ===== src/Security/Roles/Laws.antt =====
-- How the roles are ordered by what they may do.
use axiome_os.Prelude.{ℕ, ◌≡◌, ◌<◌, refl, Bool, true, not, ◌&&◌, ◌||◌, some, arith, ◌==◌, ltb}
use axiome_os.Prelude.Bits.{holds_below, holds_below-lt}
use axiome_os.Security.Roles.{
  Role, guest, user, admin, system, cap, role_caps, Thread, sec_check_cap,
}

-- A thread that has just been given a role's capabilities.
abbrev pub with_role : Role → Thread
with_role r = record { role = r; caps_eff = role_caps r; euid = 0; egid = 0 }

abbrev has : Role → ℕ → Bool
has r k = sec_check_cap (some (with_role r)) (cap k)

-- For one capability: what a user may do an admin may, an admin may do all that is named but the
-- guests' write, and a guest may do nothing that a user may not, but that write.
abbrev ordered : ℕ → Bool
ordered k =
    (not (has user k) || has admin k)
    && (not (has guest k) || has user k || (k == 23))
    && ((has admin k || not (ltb k 23)))
    && has system k

ordered_table : holds_below ordered 64 ≡ true
unfolding holds_below sec_check_cap role_caps
ordered_table = refl

-- For each of the 64 capability bits, of threads with their roles' capabilities: the check passes
-- for an admin where it passes for a user; for a guest it passes only where it does for a user, or
-- at the bit of the guests' own write capability, which no other of the three has; for an admin it
-- passes at each of the first 23; and for the system role at every bit.
pub sec_check_cap-role_caps :
    (k : ℕ)
    → k < 64
    → let may = λ (r : Role). sec_check_cap (some (with_role r)) (cap k) in
      ((not (may user) || may admin) ≡ true)
      × ((not (may guest) || (may user || (k == 23))) ≡ true)
      × ((may admin || not (ltb k 23)) ≡ true)
      × (may system ≡ true)
sec_check_cap-role_caps k lt = let h = holds_below-lt ordered 64 ordered_table k lt in ground arith
