-- ===== src/Net/Arp/Exchange.antt =====
-- What a machine makes of a request and of a reply.
use axiome_os.Prelude.{
  ℕ, ◌-◌, ◌*◌, ◌%◌, ◌^◌, ◌<◌, ◌≡◌, ◌≢◌, refl, ap, ◌∙◌, Bool, false, none, some, List, ◌++◌,
  replicate, drop, take-append, drop-append, ltb, ◌==◌, length, length-append, arith,
}
use axiome_os.Prelude.Slices.{drop-append_long}
use axiome_os.Net.Arp.{
  Entry, Dev, packet, le32, ip_at, is_ethernet_ip, handle_request, arp_send_request, arp_handle_rx,
  arp_cache_insert, arp_lookup,
}
use axiome_os.Net.Arp.Insert.{arp_lookup-arp_cache_insert, after_ticks}

-- A device with addresses of their sizes.
pub record IsDev (d : Dev) : Type 0 where
  pub mac_sized : length d.mac ≡ 6
  pub ip_sized : d.ip < 2 ^ 32

ip_at-le32 : (v : ℕ) (rest : List ℕ) → v < 2 ^ 32 → ip_at (le32 v ++ rest) ≡ v
unfolding ip_at le32
ip_at-le32 v rest h = omega arith

-- The part of a packet behind its first eight bytes.
abbrev behind : List ℕ → ℕ → List ℕ → ℕ → List ℕ
behind mac ip target_mac target_ip = mac ++ (le32 ip ++ (target_mac ++ le32 target_ip))

sender_ip :
    (mac tm : List ℕ) (ip ti : ℕ)
    → length mac ≡ 6
    → ip < 2 ^ 32
    → ip_at (drop 6 (behind mac ip tm ti)) ≡ ip
sender_ip mac tm ip ti h lt =
    ap ip_at (drop-append 6 mac (le32 ip ++ (tm ++ le32 ti)) h) ∙ ip_at-le32 ip (tm ++ le32 ti) lt

-- Where the code reads the address that a request asks for, the last two bytes of the target's
-- hardware address stand, and the first two of the address.
asked_ip :
    (mac : List ℕ) (ip ti : ℕ)
    → length mac ≡ 6
    → ip_at (drop 14 (behind mac ip (replicate 6 0) ti)) ≡ ti % 65536 * 65536
unfolding le32 ip_at
asked_ip mac ip ti h =
    let rest = le32 ip ++ (replicate 6 0 ++ le32 ti) in
    let from : 14 - length mac ≡ 8 = omega arith in
    ap ip_at (drop-append_long 14 mac rest (omega arith) ∙ ap (λ k. drop k rest) from) ∙ omega arith

length-packet :
    (op : ℕ) (mac tm : List ℕ) (ip ti : ℕ)
    → length mac ≡ 6
    → length tm ≡ 6
    → length (packet op mac ip tm ti) ≡ 28
unfolding packet le32
length-packet op mac tm ip ti h g =
    omega (arith, h, g, length-append mac (le32 ip ++ (tm ++ le32 ti)), length-append tm (le32 ti))

not_short :
    (op : ℕ) (mac tm : List ℕ) (ip ti : ℕ)
    → length mac ≡ 6
    → length tm ≡ 6
    → ltb (length (packet op mac ip tm ti)) 28 ≡ false
not_short op mac tm ip ti h g = ap (λ k. ltb k 28) (length-packet op mac tm ip ti h g)

no_fix : (ip : ℕ) → ip % 65536 ≢ 0 → ip % 65536 * 65536 == ip ≡ false
no_fix ip ne = ground arith

unasked :
    (dev : Dev) (buffer : Bool) (body : List ℕ) (es : List Entry)
    → ip_at (drop 14 body) == dev.ip ≡ false
    → handle_request dev buffer body es ≡ (none, es)
unfolding handle_request
unasked dev buffer body es h = rw h refl

-- For two devices, where the low half of the second's address is not zero: a request of the first
-- for the address of the second is not answered by it, and its cache stays as it is.
pub arp_handle_rx-arp_send_request :
    (a b : Dev) (buffer : Bool) (es : List Entry)
    → IsDev a
    → b.ip % 65536 ≢ 0
    → arp_handle_rx b buffer (arp_send_request a b.ip) es ≡ (none, es)
unfolding arp_handle_rx arp_send_request is_ethernet_ip packet
arp_handle_rx-arp_send_request a b buffer es va ne =
    let asked = asked_ip a.mac a.ip b.ip va.mac_sized in
    let other : ip_at (drop 14 (behind a.mac a.ip (replicate 6 0) b.ip)) == b.ip ≡ false =
      ap (λ k. k == b.ip) asked ∙ no_fix b.ip ne in
    rw (not_short 1 a.mac (replicate 6 0) a.ip b.ip va.mac_sized refl)
      (unasked b buffer (behind a.mac a.ip (replicate 6 0) b.ip) es other)

-- For each device and cache with an entry at least: after a reply, and fewer than 300 ticks, the
-- cache gives the sender's hardware address for its address.
pub arp_lookup-arp_handle_rx :
    (n : ℕ) (a b : Dev) (buffer : Bool) (es : List Entry)
    → IsDev a
    → IsDev b
    → 0 < length es
    → n < 300
    → arp_lookup b.ip (after_ticks n (arp_handle_rx a buffer (packet 2 b.mac b.ip a.mac a.ip) es).1)
      ≡ some b.mac
unfolding arp_handle_rx is_ethernet_ip packet
arp_lookup-arp_handle_rx n a b buffer es va vb room lt =
    let ip = sender_ip b.mac a.mac b.ip a.ip vb.mac_sized vb.ip_sized in
    let mac = take-append 6 b.mac (le32 b.ip ++ (a.mac ++ le32 a.ip)) vb.mac_sized in
    rw (not_short 2 b.mac a.mac b.ip a.ip vb.mac_sized va.mac_sized) (
      (λ i. arp_lookup b.ip (after_ticks n (arp_cache_insert (ip i) (mac i) es)))
      ∙ arp_lookup-arp_cache_insert n b.ip b.mac es room lt)
