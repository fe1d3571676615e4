-- ===== src/Net/Arp/Insert.antt =====
-- An insertion as a whole, and how long its entry lasts.
use axiome_os.Prelude.{
  ℕ, zero, suc, ◌+◌, ◌%◌, ◌^◌, ◌<◌, ◌≡◌, ◌≢◌, refl, sym, ap, ◌∙◌, inl, inr, Bool, true, false, not,
  ◌&&◌, Option, none, some, List, [], ◌∷◌, leb, ◌==◌, length, arith, Bool-cases, and_left,
}
use axiome_os.Net.Arp.{
  Entry, knows, oldest, insert_free, insert_new, arp_cache_insert, arp_lookup, arp_tick, tick_entry,
  timeout_ticks,
}
use axiome_os.Net.Arp.Laws.{
  entry_of, entry_of_here, entry_of_skip, mac_of, arp_lookup-entry_of, IsInserted, Others, Updated,
  Filled, Updated-update_first, Filled-update_first, IsInserted-set, oldest_low, all_valid,
}

IsInserted-insert_free :
    (ip : ℕ) (mac : List ℕ) (es : List Entry) (o : Option (List Entry))
    → 0 < length es
    → entry_of ip es ≡ none
    → Filled ip mac es o
    → IsInserted ip mac (insert_free ip mac es o)
unfolding insert_free Filled
IsInserted-insert_free ip mac es (some fs) room h f = f.0
IsInserted-insert_free ip mac es none room h f =
    IsInserted-set ip mac es (oldest es) h (oldest_low es room)

IsInserted-insert_new :
    (ip : ℕ) (mac : List ℕ) (es : List Entry) (o : Option (List Entry))
    → 0 < length es
    → Updated ip mac es o
    → IsInserted ip mac (insert_new ip mac es o)
unfolding insert_new Updated
IsInserted-insert_new ip mac es (some fs) room u = u.0
IsInserted-insert_new ip mac es none room u =
    IsInserted-insert_free ip mac es _ room u (Filled-update_first ip mac es u)

pub IsInserted-arp_cache_insert :
    (ip : ℕ) (mac : List ℕ) (es : List Entry)
    → 0 < length es
    → IsInserted ip mac (arp_cache_insert ip mac es)
unfolding arp_cache_insert
IsInserted-arp_cache_insert ip mac es room =
    IsInserted-insert_new ip mac es _ room (Updated-update_first ip mac es)

both : {b : Bool} → b ≡ false → b ≡ true → ⊥
both h k = absurd (ground arith)

Others-insert_free :
    (ip : ℕ) (mac : List ℕ) (es : List Entry) (o : Option (List Entry))
    → all_valid es ≡ false
    → Filled ip mac es o
    → Others ip es (insert_free ip mac es o)
unfolding insert_free Filled
Others-insert_free ip mac es (some fs) a f = f.1
Others-insert_free ip mac es none a f = absurd (both a f)

Others-insert_new :
    (ip : ℕ) (mac : List ℕ) (es : List Entry) (o : Option (List Entry))
    → all_valid es ≡ false
    → Updated ip mac es o
    → Others ip es (insert_new ip mac es o)
unfolding insert_new Updated
Others-insert_new ip mac es (some fs) a u = u.1
Others-insert_new ip mac es none a u =
    Others-insert_free ip mac es _ a (Filled-update_first ip mac es u)

-- For each cache that is not all in use, and each other address: an insertion leaves what the cache
-- gives for the other address as it was, whether the entry was refreshed or is new.
pub arp_lookup-arp_cache_insert_ne :
    (ip other : ℕ) (mac : List ℕ) (es : List Entry)
    → all_valid es ≡ false
    → other ≢ ip
    → arp_lookup other (arp_cache_insert ip mac es) ≡ arp_lookup other es
unfolding arp_cache_insert Others
arp_lookup-arp_cache_insert_ne ip other mac es a ne =
    arp_lookup-entry_of other _
    ∙ ap mac_of (Others-insert_new ip mac es _ a (Updated-update_first ip mac es) other ne)
    ∙ sym (arp_lookup-entry_of other es)

-- The cache after so many ticks.
pub after_ticks : ℕ → List Entry → List Entry
after_ticks zero es = es
after_ticks (suc n) es = after_ticks n (arp_tick es)

older : Entry → Entry
older e = record e { age = suc e.age }

valid_tick : (e : Entry) → e.valid ≡ true → suc e.age < timeout_ticks → tick_entry e ≡ older e
unfolding tick_entry older
valid_tick e v lt =
    let a : (e.age + 1) % 2 ^ 32 ≡ suc e.age = omega arith in
    let l : leb timeout_ticks (suc e.age) ≡ false = ground arith in rw (v, a, l) refl

right_false : (b c : Bool) → c ≡ false → b && c ≡ false
right_false true c h = h
right_false false c h = refl

-- A tick makes no entry known.
tick_knows : (ip : ℕ) (e : Entry) → knows ip e ≡ false → knows ip (tick_entry e) ≡ false
unfolding knows tick_entry
tick_knows ip e k = elim (Bool-cases e.valid) [
  | inl v ↦ rw v (
      right_false (not (leb timeout_ticks ((e.age + 1) % 2 ^ 32))) (e.ip == ip)
        (sym (ap (λ b. b && e.ip == ip) v) ∙ k))
  | inr v ↦ rw v refl
]

some_or : Entry → Option Entry → Entry
some_or d none = d
some_or d (some e) = e

some_inj : {x y : Entry} → some x ≡ some y → x ≡ y
unfolding some_or
some_inj {x = x} e = ap (some_or x) e

knows_valid : (ip : ℕ) (e : Entry) → knows ip e ≡ true → e.valid ≡ true
unfolding knows
knows_valid ip e k = and_left e.valid (e.ip == ip) k

knows-older : (ip : ℕ) (e : Entry) → knows ip e ≡ true → knows ip (older e) ≡ true
unfolding knows older
knows-older ip e k = k

entry_of-arp_tick :
    (ip : ℕ) (es : List Entry) (e : Entry)
    → entry_of ip es ≡ some e
    → suc e.age < timeout_ticks
    → entry_of ip (arp_tick es) ≡ some (older e)
unfolding arp_tick entry_of
entry_of-arp_tick ip [] e h lt = absurd (ground arith)
entry_of-arp_tick ip (d ∷ es) e h lt = elim (Bool-cases (knows ip d)) [
  | inl k ↦
      let same : d ≡ e = some_inj (sym (entry_of_here ip d es k) ∙ h) in
      let ages : d.age ≡ e.age = ap (λ x. x.age) same in
      rw (valid_tick d (knows_valid ip d k) (omega (arith, ages))) (
        entry_of_here ip (older d) (arp_tick es) (knows-older ip d k)
        ∙ ap (λ x. some (older x)) same)
  | inr k ↦
      rw (tick_knows ip d k) (entry_of-arp_tick ip es e (sym (entry_of_skip ip d es k) ∙ h) lt)
]

entry_of-after_ticks :
    (n ip : ℕ) (es : List Entry) (e : Entry)
    → entry_of ip es ≡ some e
    → e.age + n < timeout_ticks
    → (f : Entry) × ((entry_of ip (after_ticks n es) ≡ some f) × (f.mac ≡ e.mac))
unfolding after_ticks older
entry_of-after_ticks zero ip es e h lt = (e, (h, refl))
entry_of-after_ticks (suc n) ip es e h lt =
    let r =
      entry_of-after_ticks n ip (arp_tick es) (older e) (entry_of-arp_tick ip es e h (omega arith))
        (omega arith) in
    (r.0, (r.1.0, r.1.1))

-- For each cache with an entry at least: what is inserted for an address is what the cache gives for
-- it, at once and after fewer than 300 ticks.
pub arp_lookup-arp_cache_insert :
    (n ip : ℕ) (mac : List ℕ) (es : List Entry)
    → 0 < length es
    → n < 300
    → arp_lookup ip (after_ticks n (arp_cache_insert ip mac es)) ≡ some mac
unfolding mac_of
arp_lookup-arp_cache_insert n ip mac es room lt =
    let h = IsInserted-arp_cache_insert ip mac es room in
    let r = entry_of-after_ticks n ip _ h.found h.is_found (omega (arith, h.found_age)) in
    arp_lookup-entry_of ip _ ∙ ap mac_of r.1.0 ∙ ap some (r.1.1 ∙ h.found_mac)
