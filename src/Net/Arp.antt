-- ===== src/Net/Arp.antt =====
-- kernel/arp.c: the cache of hardware addresses, and the packets that fill it. The address of the
pub mod Laws
pub mod Insert
pub mod Exchange
mod Examples
-- pending request, which no code reads, is left out.
use axiome_os.Prelude.{
  ℕ, zero, suc, ◌+◌, ◌-◌, ◌*◌, ◌/◌, ◌%◌, ◌^◌, Bool, true, false, not, ◌&&◌, ◌||◌, Option, none,
  some, List, [], ◌∷◌, ◌++◌, map, ltb, leb, ◌==◌, if◌then◌else◌, length, take, drop, replicate, set,
  get_or,
}

abbrev pub timeout_ticks : ℕ
timeout_ticks = 300

pub record Entry : Type 0 where
  pub ip : ℕ
  pub mac : List ℕ
  pub valid : Bool
  pub age : ℕ

abbrev pub arp_init : List Entry
arp_init = replicate 16 (record { ip = 0; mac = replicate 6 0; valid = false; age = 0 })

pub knows : ℕ → Entry → Bool
knows ip e = e.valid && e.ip == ip

abbrev pub with_head : Entry → Option (List Entry) → Option (List Entry)
with_head e none = none
with_head e (some es) = some (e ∷ es)

-- The first entry that passes the test is changed, if one does.
pub update_first : (Entry → Bool) → (Entry → Entry) → List Entry → Option (List Entry)
update_first test f [] = none
update_first test f (e ∷ es) =
    let rest = update_first test f es in if test e then some (f e ∷ es) else with_head e rest

-- The index of the oldest entry, from index `i` on, with the oldest so far and its age.
pub oldest_loop : List Entry → ℕ → ℕ → ℕ → ℕ
oldest_loop [] i max_age oldest = oldest
oldest_loop (e ∷ es) i max_age oldest =
    let newer = oldest_loop es (suc i) max_age oldest in
    let older = oldest_loop es (suc i) e.age i in if ltb max_age e.age then older else newer

pub oldest : List Entry → ℕ
oldest [] = 0
oldest (e ∷ es) = oldest_loop es 1 e.age 0

abbrev pub new_entry : ℕ → List ℕ → Entry
new_entry ip mac = record { ip = ip; mac = mac; valid = true; age = 0 }

pub insert_free : ℕ → List ℕ → List Entry → Option (List Entry) → List Entry
insert_free ip mac es (some filled) = filled
insert_free ip mac es none = set es (oldest es) (new_entry ip mac)

pub insert_new : ℕ → List ℕ → List Entry → Option (List Entry) → List Entry
insert_new ip mac es (some updated) = updated
insert_new ip mac es none =
    insert_free ip mac es (update_first (λ e. not e.valid) (λ e. new_entry ip mac) es)

pub arp_cache_insert : ℕ → List ℕ → List Entry → List Entry
arp_cache_insert ip mac es =
    insert_new ip mac es (update_first (knows ip) (λ e. record e { mac = mac; age = 0 }) es)

pub arp_lookup : ℕ → List Entry → Option (List ℕ)
arp_lookup ip [] = none
arp_lookup ip (e ∷ es) = let rest = arp_lookup ip es in if knows ip e then some e.mac else rest

pub tick_entry : Entry → Entry
tick_entry e =
    let age = (e.age + 1) % 2 ^ 32 in
    if e.valid then record e { age = age; valid = not (leb timeout_ticks age) } else e

pub arp_tick : List Entry → List Entry
arp_tick es = map tick_entry es

-- The device that a packet comes through.
pub record Dev : Type 0 where
  pub mac : List ℕ
  pub ip : ℕ

-- The bytes of an address in memory, and the address of four bytes.
pub le32 : ℕ → List ℕ
le32 v = v % 256 ∷ v / 256 % 256 ∷ v / 65536 % 256 ∷ v / 16777216 % 256 ∷ []

pub ip_at : List ℕ → ℕ
ip_at b = get_or b 0 0 + get_or b 1 0 * 256 + get_or b 2 0 * 65536 + get_or b 3 0 * 16777216

-- A packet with the opcode, from the sender to the target.
pub packet : ℕ → List ℕ → ℕ → List ℕ → ℕ → List ℕ
packet opcode mac ip target_mac target_ip =
    0 ∷ 1 ∷ 8 ∷ 0 ∷ 6 ∷ 4 ∷ 0 ∷ opcode ∷ (mac ++ (le32 ip ++ (target_mac ++ le32 target_ip)))

-- The request that is sent to all.
pub arp_send_request : Dev → ℕ → List ℕ
arp_send_request dev ip = packet 1 dev.mac dev.ip (replicate 6 0) ip

pub is_ethernet_ip : List ℕ → Bool
is_ethernet_ip p = get_or p 0 0 == 0 && get_or p 1 0 == 1 && get_or p 2 0 == 8 && get_or p 3 0 == 0

-- The answer to a request for this device's address, with the cache; `buffer` says whether the pool
-- has one.
pub handle_request : Dev → Bool → List ℕ → List Entry → Option (List ℕ) × List Entry
handle_request dev buffer body es =
    let mac = take 6 body in
    let ip = ip_at (drop 6 body) in
    if ip_at (drop 14 body) == dev.ip && buffer
    then (some (packet 2 dev.mac dev.ip mac ip), arp_cache_insert ip mac es)
    else (none, es)

-- The bytes are those of the buffer from its data on.
pub arp_handle_rx : Dev → Bool → List ℕ → List Entry → Option (List ℕ) × List Entry
arp_handle_rx dev buffer p es =
    let opcode = get_or p 6 0 * 256 + get_or p 7 0 in
    let body = drop 8 p in
    if ltb (length p) 28 || not (is_ethernet_ip p)
    then (none, es)
    else if opcode == 1
    then handle_request dev buffer body es
    else if opcode == 2
    then (none, arp_cache_insert (ip_at (drop 6 body)) (take 6 body) es)
    else (none, es)

-- The address that is found, or else the result of what follows.
found_or :
    Option (List ℕ) → List Entry → Option (List ℕ) × List Entry → Option (List ℕ) × List Entry
found_or none es later = later
found_or (some mac) es later = (some mac, es)

-- The rounds of the wait from round `i` on; each 256th polls the cards, which may change the cache.
resolve_loop : (List Entry → List Entry) → ℕ → ℕ → ℕ → List Entry → Option (List ℕ) × List Entry
resolve_loop poll ip zero i es = (none, es)
resolve_loop poll ip (suc rounds) i es =
    let es1 = if i % 256 == 0 then poll es else es in
    let later = resolve_loop poll ip rounds (suc i) es1 in found_or (arp_lookup ip es1) es1 later

-- `send` is the cache after the request is sent.
pub arp_resolve :
    (List Entry → List Entry)
    → (List Entry → List Entry)
    → Dev
    → ℕ
    → List Entry
    → Option (List ℕ) × List Entry
arp_resolve send poll dev ip es =
    let waited = resolve_loop poll ip 50000 0 (send es) in
    if ip == dev.ip then (some dev.mac, es) else found_or (arp_lookup ip es) es waited
