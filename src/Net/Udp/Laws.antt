-- ===== src/Net/Udp/Laws.antt =====
-- A datagram on its way from `udp_build_and_send` of kernel/udp.c to `udp_recvfrom`.
use axiome_os.Prelude.{
  ℕ, suc, ◌+◌, ◌-◌, ◌*◌, ◌/◌, ◌%◌, ◌^◌, ◌<◌, ◌≤◌, ◌≡◌, ◌≢◌, refl, sym, ap, ◌∙◌, inl, inr, true,
  false, ◌&&◌, Option, none, some, List, [], ◌∷◌, ◌++◌, arith, length, take, ltb, ◌==◌, ==_iff,
  if◌then◌else◌, Bool-cases, take-append_short, take_all, lt_at, not_lt,
}
use axiome_os.Prelude.Members.{==_self}
use axiome_os.Net.Buf.{Mbuf, fill}
use axiome_os.Net.Tcp.{find}
use axiome_os.Net.Tcp.Header.{be16, le16}
use axiome_os.Net.Tcp.Table.{find_only}
use axiome_os.Net.Udp.{
  Datagram, Udp, put, is_open, uses_port, header, built, payload, dequeue, wait, Rounds,
  udp_recvfrom, enqueue, udp_rx, word_at, Received, udp_build_and_send, source_port, take_buffer,
  udp_ephemeral_port,
}

word : (v : ℕ) → v < 2 ^ 16 → v / 256 % 256 * 256 + v % 256 ≡ v
word v h = omega arith

-- The port fields of a buffer that is built, as `udp_rx` reads them, and its data.
ports_of-built :
    (src dst sport dport : ℕ) (body : List ℕ)
    → sport < 2 ^ 16
    → dport < 2 ^ 16
    → (word_at (built src dst sport dport body) 0 ≡ sport)
      × (word_at (built src dst sport dport body) 2 ≡ dport)
unfolding built fill header be16
ports_of-built src dst sport dport body s d = (word sport s, word dport d)

len-built :
    (src dst sport dport : ℕ) (body : List ℕ)
    → (built src dst sport dport body).len ≡ 8 + length body
unfolding built fill header be16 le16
len-built src dst sport dport body = omega arith

taken_of :
    (max len : ℕ) (body rest : List ℕ)
    → len ≡ length body
    → take (if ltb max len then max else len) (body ++ rest) ≡ take max body
taken_of max len body rest e = elim (Bool-cases (ltb max len)) [
  | inl f ↦ rw f (take-append_short max body rest (omega (arith, lt_at max len f)))
  | inr f ↦ rw f (
      take-append_short len body rest (omega arith)
      ∙ take_all len body (omega arith)
      ∙ sym (take_all max body (omega (arith, not_lt max len f))))
]

payload-built :
    (src dst sport dport max : ℕ) (body : List ℕ)
    → payload max (built src dst sport dport body) ≡ take max body
unfolding payload built fill header be16 le16
payload-built src dst sport dport max body = taken_of max _ body _ (omega arith)

-- The socket `i` is the open one with the port.
pub record IsBound (i port : ℕ) (n : Udp) : Type 0 where
  pub low : i < 32
  pub used : (n.socks i).in_use ≡ true
  pub port_is : (n.socks i).local_port ≡ port
  pub alone : (j : ℕ) → j < 32 → j ≢ i → uses_port n port j ≡ false

found_bound : (i port : ℕ) (n : Udp) → IsBound i port n → find (uses_port n port) ≡ some i
found_bound i port n b =
    find_only (uses_port n port) i b.low (rw (b.used, (==_iff _ port).1 b.port_is) refl) b.alone

queued :
    (i src dst sport dport addr : ℕ) (body : List ℕ) (n : Udp)
    → IsBound i dport n
    → sport < 2 ^ 16
    → dport < 2 ^ 16
    → udp_rx addr (built src dst sport dport body) n
      ≡ enqueue
          (some i)
          (record { buf = built src dst sport dport body; src_ip = addr; src_port = sport })
          n
unfolding udp_rx
queued i src dst sport dport addr body n b s d =
    let m : Mbuf = built src dst sport dport body in
    let p = ports_of-built src dst sport dport body s d in
    let long : ltb m.len 8 ≡ false = ground (arith, len-built src dst sport dport body) in
    let at : ℕ → Datagram = λ w. record { buf = m; src_ip = addr; src_port = w } in
    ap
      (λ c.
        if c
        then record n { pool = suc n.pool }
        else enqueue (find (uses_port n (word_at m 2))) (at (word_at m 0)) n)
      long
    ∙ ap (λ w. enqueue (find (uses_port n w)) (at (word_at m 0)) n) p.1
    ∙ ap (λ o. enqueue o (at (word_at m 0)) n) (found_bound i dport n b)
    ∙ ap (λ w. enqueue (some i) (at w) n) p.0

-- A caller does not wait when something is queued.
wait_ready : (rounds : Rounds) (i : ℕ) (n : Udp) → 0 < (n.socks i).rx_count → wait rounds i n ≡ n
unfolding wait
wait_ready [] i n lt = refl
wait_ready (r ∷ rs) i n lt =
    let some_there : ((n.socks i).rx_count == 0) ≡ false = ground arith in
    ap (λ b. if b && (n.socks i).in_use then wait rs i (r n) else n) some_there

received_head :
    (rounds : Rounds) (i max : ℕ) (d : Datagram) (ds : List Datagram) (n : Udp)
    → i < 32
    → (n.socks i).in_use ≡ true
    → 0 < (n.socks i).rx_count
    → (n.socks i).rx_queue ≡ d ∷ ds
    → 8 ≤ d.buf.len
    → (udp_recvfrom rounds i max n).0 ≡ some (payload max d.buf, d.src_ip, d.src_port)
unfolding udp_recvfrom dequeue
received_head rounds i max d ds n low used lt e long =
    let m : Udp = wait rounds i n in
    let opened : is_open i n ≡ true = rw (let l : ltb i 32 ≡ true = ground arith in l) used in
    let some_there : ((n.socks i).rx_count == 0) ≡ false = ground arith in
    let enough : ltb d.buf.len 8 ≡ false = ground arith in
    let after : Udp → Received × Udp =
      λ k. if (k.socks i).rx_count == 0 then (none, k) else dequeue i max (k.socks i).rx_queue k in
    ap (λ b. (if b then after m else (none, n)).0) opened
    ∙ ap (λ k. (after k).0) (wait_ready rounds i n lt)
    ∙ ap (λ b. (if b then (none, n) else dequeue i max (n.socks i).rx_queue n).0) some_there
    ∙ ap (λ q. (dequeue i max q n).0) e
    ∙ ap (λ b. if b then none else some (payload max d.buf, d.src_ip, d.src_port)) enough

-- A buffer that is built comes out as it went in.
udp_recvfrom-udp_rx :
    (rounds : Rounds) (i max src dst sport dport addr : ℕ) (body : List ℕ) (n : Udp)
    → IsBound i dport n
    → (n.socks i).rx_queue ≡ []
    → sport < 2 ^ 16
    → dport < 2 ^ 16
    → (udp_recvfrom rounds i max (udp_rx addr (built src dst sport dport body) n)).0
      ≡ some (take max body, addr, sport)
unfolding enqueue put
udp_recvfrom-udp_rx rounds i max src dst sport dport addr body n b e s d =
    let m : Mbuf = built src dst sport dport body in
    let g : Datagram = record { buf = m; src_ip = addr; src_port = sport } in
    let q : Udp = enqueue (some i) g n in
    let here : q.socks i ≡ record (n.socks i) {
      rx_queue = (n.socks i).rx_queue ++ g ∷ [];
      rx_count = suc (n.socks i).rx_count;
    } =
      rw (==_self i) refl in
    ap (λ k. (udp_recvfrom rounds i max k).0) (queued i src dst sport dport addr body n b s d)
    ∙ received_head rounds i max g [] q b.low (ap (λ t. t.in_use) here ∙ b.used)
        (let c : (q.socks i).rx_count ≡ suc (n.socks i).rx_count = ap (λ t. t.rx_count) here in
          omega arith)
        (ap (λ t. t.rx_queue) here ∙ ap (λ l. l ++ g ∷ []) e)
        (omega (arith, len-built src dst sport dport body))
    ∙ ap (λ p. some (p, addr, sport)) (payload-built src dst sport dport max body)

sent_at :
    (j src dst dport sport : ℕ) (body : List ℕ) (n : Udp)
    → (n.socks j).local_port ≡ sport
    → 0 < sport
    → 0 < n.pool
    → 0 < length body
    → udp_build_and_send j src dst dport body n
      ≡ (some (built src dst sport dport (take 2040 body)), record n { pool = n.pool - 1 })
unfolding udp_build_and_send source_port take_buffer
sent_at j src dst dport sport body n e pos room some_body =
    let own : source_port j n ≡ (sport, n) =
      let set : ((n.socks j).local_port == 0) ≡ false = ground arith in
      let found = udp_ephemeral_port n in
      let other : Udp =
        if found.0 == 0
        then found.1
        else put j (record (found.1.socks j) { local_port = found.0 }) found.1 in
      ap (λ b. if b then (found.0, other) else ((n.socks j).local_port, n)) set
      ∙ ap (λ p. (p, n)) e in
    let not_empty : (length body == 0) ≡ false = ground arith in
    let not_zero : (sport == 0) ≡ false = ground arith in
    let has_room : (n.pool == 0) ≡ false = ground arith in
    let short : List ℕ = take 2040 body in
    let go : ℕ × Udp → Option Mbuf × Udp =
      λ o. if o.0 == 0 then (none, o.1) else take_buffer src dst o.0 dport short o.1 in
    ap (λ b. if b then (none, n) else go (source_port j n)) not_empty
    ∙ ap go own
    ∙ ap (λ b. if b then (none, n) else take_buffer src dst sport dport short n) not_zero
    ∙ ap
        (λ b.
          if b
          then (none, n)
          else (some (built src dst sport dport short), record n { pool = n.pool - 1 }))
        has_room

-- A socket with a port, of 16 bits and not 0, sends data that is not empty, with a buffer free, to the
-- port of an open socket with an empty queue, the only one with that port: a buffer is built, and when
-- it is handed to `udp_rx`, `udp_recvfrom` on that socket gives, without waiting, the first `max` bytes
-- of the first 2040 of the data, the address that `udp_rx` was told, and the port of the sender.
pub udp_recvfrom-udp_build_and_send :
    (rounds : Rounds) (j i max src dst sport dport addr : ℕ) (body : List ℕ) (n : Udp)
    → (n.socks j).local_port ≡ sport
    → 0 < sport
    → sport < 2 ^ 16
    → dport < 2 ^ 16
    → 0 < n.pool
    → 0 < length body
    → IsBound i dport n
    → (n.socks i).rx_queue ≡ []
    → (m : Mbuf) × (k : Udp) × (udp_build_and_send j src dst dport body n ≡ (some m, k))
      × ((udp_recvfrom rounds i max (udp_rx addr m k)).0
          ≡ some (take max (take 2040 body), addr, sport))
udp_recvfrom-udp_build_and_send rounds j i max src dst sport dport addr body n e pos s d room full b
      q =
    (
      built src dst sport dport (take 2040 body),
      record n { pool = n.pool - 1 },
      sent_at j src dst dport sport body n e pos room full,
      udp_recvfrom-udp_rx rounds i max src dst sport dport addr (take 2040 body)
          (record n { pool = n.pool - 1 })
          (record { low = b.low; used = b.used; port_is = b.port_is; alone = b.alone }) q s d,
    )
