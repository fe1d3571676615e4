-- ===== src/Net/Arp/Laws.antt =====
-- What the cache gives after an insertion.
use axiome_os.Prelude.{
  ℕ, zero, suc, ◌+◌, ◌<◌, ◌≡◌, ◌≢◌, refl, sym, ap, ◌∙◌, inl, inr, Bool, true, false, not, ◌&&◌,
  Option, none, some, List, [], ◌∷◌, ltb, ◌==◌, ==_iff, if◌then◌else◌, if_either, length, set,
  arith, Bool-cases, and_right,
}
use axiome_os.Net.Arp.{
  Entry, knows, update_first, with_head, oldest_loop, oldest, new_entry, arp_lookup,
}

-- The first valid entry for an address.
unfoldable pub entry_of : ℕ → List Entry → Option Entry
entry_of ip [] = none
entry_of ip (e ∷ es) = let rest = entry_of ip es in if knows ip e then some e else rest

unfoldable pub mac_of : Option Entry → Option (List ℕ)
mac_of none = none
mac_of (some e) = some e.mac

pub arp_lookup-entry_of : (ip : ℕ) (es : List Entry) → arp_lookup ip es ≡ mac_of (entry_of ip es)
unfolding arp_lookup entry_of mac_of
arp_lookup-entry_of ip [] = refl
arp_lookup-entry_of ip (e ∷ es) = elim (Bool-cases (knows ip e)) [
  | inl k ↦ rw k refl
  | inr k ↦ rw k (arp_lookup-entry_of ip es)
]

-- The first entry for the address is a new one with the hardware address.
pub record IsInserted (ip : ℕ) (mac : List ℕ) (fs : List Entry) : Type 0 where
  pub found : Entry
  pub is_found : entry_of ip fs ≡ some found
  pub found_mac : found.mac ≡ mac
  pub found_age : found.age ≡ 0

-- Every other address is found as it was.
unfoldable pub Others : ℕ → List Entry → List Entry → Type 0
Others ip es fs = (other : ℕ) → other ≢ ip → entry_of other fs ≡ entry_of other es

and_no : (b : Bool) → b && false ≡ false
and_no true = refl
and_no false = refl

knows_ip : (ip : ℕ) (e : Entry) → knows ip e ≡ true → e.ip ≡ ip
unfolding knows
knows_ip ip e k = (==_iff e.ip ip).0 (and_right e.valid (e.ip == ip) k)

knows_other : (ip other : ℕ) (e : Entry) → e.ip ≡ ip → other ≢ ip → knows other e ≡ false
unfolding knows
knows_other ip other e same ne = elim (Bool-cases (e.ip == other)) [
  | inl k ↦ absurd (ne (sym ((==_iff e.ip other).0 k) ∙ same))
  | inr k ↦ rw k (and_no e.valid)
]

-- What a pass over the cache gives that looks for the address.
unfoldable pub Updated : ℕ → List ℕ → List Entry → Option (List Entry) → Type 0
Updated ip mac es none = entry_of ip es ≡ none
Updated ip mac es (some fs) = IsInserted ip mac fs × Others ip es fs

-- An entry before that does not know the address changes nothing.
pub entry_of_skip :
    (ip : ℕ) (e : Entry) (es : List Entry)
    → knows ip e ≡ false
    → entry_of ip (e ∷ es) ≡ entry_of ip es
unfolding entry_of
entry_of_skip ip e es k = rw k refl

pub entry_of_here :
    (ip : ℕ) (e : Entry) (es : List Entry) → knows ip e ≡ true → entry_of ip (e ∷ es) ≡ some e
unfolding entry_of
entry_of_here ip e es k = rw k refl

IsInserted-skip :
    (ip : ℕ) (mac : List ℕ) (e : Entry) (fs : List Entry)
    → knows ip e ≡ false
    → IsInserted ip mac fs
    → IsInserted ip mac (e ∷ fs)
IsInserted-skip ip mac e fs k h = record {
  found = h.found;
  is_found = entry_of_skip ip e fs k ∙ h.is_found;
  found_mac = h.found_mac;
  found_age = h.found_age;
}

-- The same first entry, and others kept behind it.
Others-cons :
    (ip : ℕ) (e : Entry) (es fs : List Entry) → Others ip es fs → Others ip (e ∷ es) (e ∷ fs)
unfolding Others entry_of
Others-cons ip e es fs h other ne = ap (λ r. if knows other e then some e else r) (h other ne)

-- Two first entries that both know none of the other addresses.
Others-swap :
    (ip : ℕ) (e f : Entry) (es : List Entry)
    → ((other : ℕ) → other ≢ ip → knows other e ≡ false)
    → ((other : ℕ) → other ≢ ip → knows other f ≡ false)
    → Others ip (e ∷ es) (f ∷ es)
unfolding Others
Others-swap ip e f es he hf other ne =
    entry_of_skip other f es (hf other ne) ∙ sym (entry_of_skip other e es (he other ne))

abbrev pub refreshed : List ℕ → Entry → Entry
refreshed mac e = record e { mac = mac; age = 0 }

Updated-with_head :
    (ip : ℕ) (mac : List ℕ) (e : Entry) (es : List Entry) (o : Option (List Entry))
    → knows ip e ≡ false
    → Updated ip mac es o
    → Updated ip mac (e ∷ es) (with_head e o)
unfolding Updated
Updated-with_head ip mac e es none k h = entry_of_skip ip e es k ∙ h
Updated-with_head ip mac e es (some fs) k h =
    (IsInserted-skip ip mac e fs k h.0, Others-cons ip e es fs h.1)

pub Updated-update_first :
    (ip : ℕ) (mac : List ℕ) (es : List Entry)
    → Updated ip mac es (update_first (knows ip) (refreshed mac) es)
unfolding Updated update_first entry_of knows
Updated-update_first ip mac [] = refl
Updated-update_first ip mac (e ∷ es) =
    if_either (Updated ip mac (e ∷ es)) (knows ip e) (some (refreshed mac e ∷ es))
      (with_head e (update_first (knows ip) (refreshed mac) es))
      (λ k.
        let same = knows_ip ip e k in
        (
          record {
            found = refreshed mac e;
            is_found = entry_of_here ip (refreshed mac e) es k;
            found_mac = refl;
            found_age = refl;
          },
          Others-swap ip e (refreshed mac e) es (λ other ne. knows_other ip other e same ne)
              (λ other ne. knows_other ip other (refreshed mac e) same ne),
        ))
      (λ k. Updated-with_head ip mac e es _ k (Updated-update_first ip mac es))

some_differs : {A : Type 0} {x : A} → some x ≡ none → ⊥
some_differs e = absurd (ground arith)

-- Every entry is in use.
unfoldable pub all_valid : List Entry → Bool
all_valid [] = true
all_valid (e ∷ es) = e.valid && all_valid es

unfoldable pub Filled : ℕ → List ℕ → List Entry → Option (List Entry) → Type 0
Filled ip mac es none = all_valid es ≡ true
Filled ip mac es (some fs) = IsInserted ip mac fs × Others ip es fs

none_head :
    (ip : ℕ) (e : Entry) (es : List Entry)
    → entry_of ip (e ∷ es) ≡ none
    → (knows ip e ≡ false) × (entry_of ip es ≡ none)
none_head ip e es h = elim (Bool-cases (knows ip e)) [
  | inl k ↦ absurd (some_differs (sym (entry_of_here ip e es k) ∙ h))
  | inr k ↦ (k, sym (entry_of_skip ip e es k) ∙ h)
]

new_knows : (ip : ℕ) (mac : List ℕ) → knows ip (new_entry ip mac) ≡ true
unfolding knows
new_knows ip mac = (==_iff ip ip).1 refl

new_IsInserted :
    (ip : ℕ) (mac : List ℕ) (es : List Entry) → IsInserted ip mac (new_entry ip mac ∷ es)
new_IsInserted ip mac es = record {
  found = new_entry ip mac;
  is_found = entry_of_here ip (new_entry ip mac) es (new_knows ip mac);
  found_mac = refl;
  found_age = refl;
}

Filled-with_head :
    (ip : ℕ) (mac : List ℕ) (e : Entry) (es : List Entry) (o : Option (List Entry))
    → e.valid ≡ true
    → knows ip e ≡ false
    → Filled ip mac es o
    → Filled ip mac (e ∷ es) (with_head e o)
unfolding Filled all_valid
Filled-with_head ip mac e es none v k h = rw v h
Filled-with_head ip mac e es (some fs) v k h =
    (IsInserted-skip ip mac e fs k h.0, Others-cons ip e es fs h.1)

not_valid : (b : Bool) → not b ≡ true → b ≡ false
not_valid true h = sym h
not_valid false h = refl

is_valid : (b : Bool) → not b ≡ false → b ≡ true
is_valid true h = refl
is_valid false h = sym h

invalid_knows : (ip : ℕ) (e : Entry) → e.valid ≡ false → knows ip e ≡ false
unfolding knows
invalid_knows ip e v = rw v refl

pub Filled-update_first :
    (ip : ℕ) (mac : List ℕ) (es : List Entry)
    → entry_of ip es ≡ none
    → Filled ip mac es (update_first (λ e. not e.valid) (λ e. new_entry ip mac) es)
unfolding Filled update_first all_valid
Filled-update_first ip mac [] h = refl
Filled-update_first ip mac (e ∷ es) h =
    let n = none_head ip e es h in
    if_either (Filled ip mac (e ∷ es)) (not e.valid) (some (new_entry ip mac ∷ es))
      (with_head e (update_first (λ e. not e.valid) (λ e. new_entry ip mac) es))
      (λ v. (
        new_IsInserted ip mac es,
        Others-swap ip e (new_entry ip mac) es
            (λ other ne. invalid_knows other e (not_valid e.valid v))
            (λ other ne. knows_other ip other (new_entry ip mac) refl ne),
      ))
      (λ v.
        Filled-with_head ip mac e es _ (is_valid e.valid v) n.0 (Filled-update_first ip mac es n.1))

pub IsInserted-set :
    (ip : ℕ) (mac : List ℕ) (es : List Entry) (k : ℕ)
    → entry_of ip es ≡ none
    → k < length es
    → IsInserted ip mac (set es k (new_entry ip mac))
IsInserted-set ip mac [] k h lt = absurd (omega arith)
IsInserted-set ip mac (e ∷ es) zero h lt = new_IsInserted ip mac es
IsInserted-set ip mac (e ∷ es) (suc k) h lt =
    let n = none_head ip e es h in
    IsInserted-skip ip mac e _ n.0 (IsInserted-set ip mac es k n.1 (omega arith))

oldest_loop_low :
    (es : List Entry) (i max_age old : ℕ) → old < i → oldest_loop es i max_age old < i + length es
unfolding oldest_loop
oldest_loop_low [] i max_age old h = omega arith
oldest_loop_low (e ∷ es) i max_age old h =
    if_either (λ r. r < i + suc (length es)) (ltb max_age e.age) _ _
      (λ l. omega (arith, oldest_loop_low es (suc i) e.age i (omega arith)))
      (λ l. omega (arith, oldest_loop_low es (suc i) max_age old (omega arith)))

pub oldest_low : (es : List Entry) → 0 < length es → oldest es < length es
unfolding oldest
oldest_low [] h = h
oldest_low (e ∷ es) h = omega (arith, oldest_loop_low es 1 e.age 0 (omega arith))
