-- ===== src/Boot/Mmap/Laws.antt =====
-- No usable memory is left in a reserved range, and none is gained.
use axiome_os.Prelude.{
  ℕ, ◌+◌, ◌%◌, ◌^◌, ◌≤◌, ◌<◌, ◌≡◌, refl, Bool, true, false, not, ◌&&◌, ◌||◌, List, [], ◌∷◌, ltb,
  leb, ◌==◌, if◌then◌else◌, arith, if_either, and_left, and_right, lt_at,
}
use axiome_os.Boot.Mmap.{Entry, mem_usable, add64, mmap_max_addr}

-- Whether the address lies in a usable entry.
abbrev pub usable_in : ℕ → Entry → Bool
usable_in a e = (e.type == mem_usable) && leb e.base a && ltb a (e.base + e.len)

abbrev pub usable_at : ℕ → List Entry → Bool
usable_at a [] = false
usable_at a (e ∷ es) = usable_in a e || usable_at a es

abbrev pub is_outside : ℕ → ℕ → ℕ → Bool
is_outside a base reserved = ltb a base || leb (base + reserved) a

-- No entry runs past the end of the address space.
abbrev pub fits : List Entry → Bool
fits [] = true
fits (e ∷ es) = ltb (e.base + e.len) (2 ^ 64) && fits es

small64 : (n : ℕ) → n < 2 ^ 64 → n % 2 ^ 64 ≡ n
small64 n h = omega arith

max_step :
    (a t m : ℕ) (e : Entry) (u : Bool)
    → (e.base + e.len) % 2 ^ 64 ≡ e.base + e.len
    → (not (e.type == 1) || leb (add64 e.base e.len) t) ≡ true
    → t ≤ m
    → (not u || ltb a m) ≡ true
    → (not (usable_in a e || u) || ltb a m) ≡ true
max_step a t m e u small h le k = ground arith

-- For each map whose entries stay below 2 ^ 64 and each address: one that lies in a usable entry is
-- below the end that `mmap_max_addr` gives.
pub mmap_max_addr-usable_at :
    (a top : ℕ) (es : List Entry)
    → fits es ≡ true
    → (top ≤ mmap_max_addr top es) × ((not (usable_at a es) || ltb a (mmap_max_addr top es)) ≡ true)
unfolding mmap_max_addr
mmap_max_addr-usable_at a top [] h = (omega arith, refl)
mmap_max_addr-usable_at a top (e ∷ es) h =
    let ee : (e.base + e.len) % 2 ^ 64 ≡ e.base + e.len = small64 _ (lt_at _ _ (and_left _ _ h)) in
    let end = add64 e.base e.len in
    let step =
      if_either (λ t. (top ≤ t) × ((not (e.type == 1) || leb end t) ≡ true))
        (e.type == 1 && ltb top end) end top (λ u. ground arith) (λ u. ground arith) in
    let ih =
      mmap_max_addr-usable_at a (if e.type == 1 && ltb top end then end else top) es
        (and_right _ _ h) in
    (omega (arith, step.0, ih.0), max_step a _ _ e _ ee step.1 ih.0 ih.1)
