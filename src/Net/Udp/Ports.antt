-- ===== src/Net/Udp/Ports.antt =====
-- The calls of kernel/udp.c keep the table of sockets sound.
use axiome_os.Prelude.{
  ℕ, zero, suc, ◌+◌, ◌-◌, ◌<◌, ◌≡◌, refl, sym, ap, ◌∙◌, inl, inr, Bool, true, false, not, ◌&&◌,
  ◌||◌, Option, none, some, List, [], ◌∷◌, ◌++◌, arith, length, length-append, ltb, leb, ◌==◌,
  if◌then◌else◌, Bool-cases, if_either, and_left, take, lt_at,
}
use axiome_os.Prelude.Members.{==_ne, or_right, some_inj}
use axiome_os.Net.Buf.{Mbuf}
use axiome_os.Net.Tcp.{find, find_from, taken}
use axiome_os.Net.Udp.{
  Datagram, UdpSock, Udp, put, is_open, uses_port, conflicts, cleared, udp_init, claim_sock,
  udp_socket, port_loop, udp_ephemeral_port, bind_to, udp_bind, source_port, take_buffer,
  udp_build_and_send, udp_send_direct, dequeue, wait, udp_recvfrom, udp_close, enqueue, udp_rx,
  built, Received,
}
use axiome_os.Net.Udp.Table.{
  IsSound, same-IsSound, put-IsSound, find_from_none, with_port, with_queue,
}

claimed-IsSound : (o : Option ℕ) (n : Udp) → IsSound n → IsSound (claim_sock o n)
unfolding claim_sock
claimed-IsSound none n v = v
claimed-IsSound (some i) n v =
    put-IsSound i (record cleared { in_use = true }) n
      (record { count = λ u. refl; own = λ j lt ne u w e. refl }) v

-- A port that the search gives is that of no open socket.
port_loop_free :
    (tries next : ℕ) (n : Udp) (p : ℕ)
    → (port_loop tries next n).0 ≡ p
    → (p == 0) ≡ false
    → taken (find (uses_port n p)) ≡ false
unfolding port_loop
port_loop_free zero next n p e nz = absurd (ground arith)
port_loop_free (suc tries) next n p e nz =
    let q = suc (if leb 65535 next then 49152 else next) in
    let pick : Bool → ℕ = λ b. (if b then port_loop tries q n else (q, q)).0 in
    elim (Bool-cases (taken (find (uses_port n q)))) [
      | inl f ↦ port_loop_free tries q n p (sym (ap pick f) ∙ e) nz
      | inr f ↦ ap (λ k. taken (find (uses_port n k))) (sym (sym (ap pick f) ∙ e)) ∙ f
    ]

bound-IsSound : (i port : ℕ) (n : Udp) → IsSound n → IsSound (bind_to i port n).1
unfolding bind_to
bound-IsSound i port n v =
    if_either (λ (r : Bool × Udp). IsSound r.1) (port == 0 || taken (find (conflicts n i port)))
      (false, n) (true, put i (record (n.socks i) { local_port = port }) n) (λ e. v)
      (λ e.
        put-IsSound i (record (n.socks i) { local_port = port }) n
          (with_port i port n v (λ j lt ne.
            let none_there : conflicts n i port j ≡ false =
              find_from_none (conflicts n i port) 32 0 (or_right _ _ e) j (omega arith)
                (omega arith) in
            sym (ap (λ b. not b && uses_port n port j) (==_ne j i ne)) ∙ none_there))
          v)

ported-IsSound : (n : Udp) → IsSound n → IsSound (udp_ephemeral_port n).1
unfolding udp_ephemeral_port
ported-IsSound n v = same-IsSound n (udp_ephemeral_port n).1 (λ i. refl) v

pub udp_bind-IsSound : (i port : ℕ) (n : Udp) → IsSound n → IsSound (udp_bind i port n).1
unfolding udp_bind
udp_bind-IsSound i port n v =
    let asked : ℕ × Udp = if port == 0 then udp_ephemeral_port n else (port, n) in
    if_either (λ (r : Bool × Udp). IsSound r.1) (is_open i n) (bind_to i asked.0 asked.1) (false, n)
      (λ e. bound-IsSound i asked.0 asked.1 (
        if_either (λ (r : ℕ × Udp). IsSound r.1) (port == 0) (udp_ephemeral_port n) (port, n)
          (λ f. ported-IsSound n v) (λ f. v)))
      (λ e. v)

source_port-IsSound : (i : ℕ) (n : Udp) → IsSound n → IsSound (source_port i n).1
unfolding source_port udp_ephemeral_port
source_port-IsSound i n v =
    let found = udp_ephemeral_port n in
    let m : Udp = found.1 in
    let t : UdpSock = record (m.socks i) { local_port = found.0 } in
    if_either (λ (r : ℕ × Udp). IsSound r.1) ((n.socks i).local_port == 0)
      (found.0, if found.0 == 0 then m else put i t m) ((n.socks i).local_port, n)
      (λ e.
        if_either IsSound (found.0 == 0) m (put i t m) (λ f. ported-IsSound n v)
          (λ f.
            put-IsSound i t m
              (with_port i found.0 m (ported-IsSound n v) (λ j lt ne.
                find_from_none (uses_port n found.0) 32 0
                  (port_loop_free 16383 n.next_port n found.0 refl f) j (omega arith)
                  (omega arith)))
              (ported-IsSound n v)))
      (λ e. v)

pool-IsSound : (k : ℕ) (n : Udp) → IsSound n → IsSound (record n { pool = k })
pool-IsSound k n v = same-IsSound n (record n { pool = k }) (λ i. refl) v

pub udp_send_direct-IsSound :
    (i src dst dport : ℕ) (body : List ℕ) (n : Udp)
    → IsSound n
    → IsSound (udp_send_direct i src dst dport body n).1
unfolding udp_send_direct udp_build_and_send take_buffer
udp_send_direct-IsSound i src dst dport body n v =
    let own = source_port i n in
    let w : IsSound own.1 = source_port-IsSound i n v in
    let short : List ℕ = take 2040 body in
    let sends : Option Mbuf × Udp = take_buffer src dst own.0 dport short own.1 in
    let P : Option Mbuf × Udp → Type 0 = λ r. IsSound r.1 in
    if_either P (is_open i n) (udp_build_and_send i src dst dport body n) (none, n)
      (λ e.
        if_either P (length body == 0) (none, n) (if own.0 == 0 then (none, own.1) else sends)
          (λ f. v)
          (λ f.
            if_either P (own.0 == 0) (none, own.1) sends (λ g. w)
              (λ g.
                if_either P (own.1.pool == 0) (none, own.1)
                  (some (built src dst own.0 dport short), record (own.1) { pool = own.1.pool - 1 })
                  (λ h. w) (λ h. pool-IsSound (own.1.pool - 1) own.1 w))))
      (λ e. v)

low_of : (test : ℕ → Bool) (count i : ℕ) → (k : ℕ) → find_from test count i ≡ some k → k < i + count
unfolding find_from
low_of test zero i k e = absurd (ground arith)
low_of test (suc count) i k e =
    let pick : Bool → Option ℕ = λ b. if b then some i else find_from test count (suc i) in
    elim (Bool-cases (test i)) [
      | inl f ↦ let same : i ≡ k = some_inj (sym (ap pick f) ∙ e) in omega (arith, same)
      | inr f ↦ omega (arith, low_of test count (suc i) k (sym (ap pick f) ∙ e))
    ]

queued-IsSound :
    (o : Option ℕ) (d : Datagram) (n : Udp)
    → ((i : ℕ) → o ≡ some i → i < 32)
    → IsSound n
    → IsSound (enqueue o d n)
unfolding enqueue
queued-IsSound none d n low v = pool-IsSound (suc n.pool) n v
queued-IsSound (some i) d n low v =
    let s : UdpSock = n.socks i in
    put-IsSound i (record s { rx_queue = s.rx_queue ++ d ∷ []; rx_count = suc s.rx_count }) n
      (with_queue i (suc s.rx_count) (s.rx_queue ++ d ∷ []) n (low i refl) v
        (λ u. omega (arith, v.counted i u, length-append s.rx_queue (d ∷ []))))
      v

pub udp_rx-IsSound : (src : ℕ) (m : Mbuf) (n : Udp) → IsSound n → IsSound (udp_rx src m n)
unfolding udp_rx
udp_rx-IsSound src m n v =
    if_either IsSound (ltb m.len 8) (record n { pool = suc n.pool }) _
      (λ e. pool-IsSound (suc n.pool) n v)
      (λ e. queued-IsSound (find _) _ n (λ i f. low_of _ 32 0 i f) v)

taken_off-IsSound :
    (i max : ℕ) (q : List Datagram) (n : Udp)
    → i < 32
    → (n.socks i).rx_queue ≡ q
    → IsSound n
    → IsSound (dequeue i max q n).1
unfolding dequeue
taken_off-IsSound i max [] n lt e v = v
taken_off-IsSound i max (d ∷ ds) n lt e v =
    let s : UdpSock = n.socks i in
    let m : Udp = put i (record s { rx_queue = ds; rx_count = s.rx_count - 1 }) n in
    pool-IsSound (suc m.pool) m (
      put-IsSound i (record s { rx_queue = ds; rx_count = s.rx_count - 1 }) n
        (with_queue i (s.rx_count - 1) ds n lt v (λ u. omega (arith, v.counted i u, ap length e)))
        v)

pub udp_recvfrom-IsSound : (i max : ℕ) (n : Udp) → IsSound n → IsSound (udp_recvfrom [] i max n).1
unfolding udp_recvfrom wait
udp_recvfrom-IsSound i max n v =
    let P : Received × Udp → Type 0 = λ r. IsSound r.1 in
    let s : UdpSock = n.socks i in
    if_either P (is_open i n) (if s.rx_count == 0 then (none, n) else dequeue i max s.rx_queue n)
      (none, n)
      (λ e.
        if_either P (s.rx_count == 0) (none, n) (dequeue i max s.rx_queue n) (λ f. v)
          (λ f. taken_off-IsSound i max s.rx_queue n (lt_at i 32 (and_left _ _ e)) refl v))
      (λ e. v)

pub udp_close-IsSound : (i : ℕ) (n : Udp) → IsSound n → IsSound (udp_close i n)
unfolding udp_close
udp_close-IsSound i n v =
    let s : UdpSock = record (n.socks i) { in_use = false; rx_queue = [] } in
    let m : Udp = put i s n in
    if_either IsSound (ltb i 32) (record m { pool = n.pool + length (n.socks i).rx_queue }) n
      (λ e. pool-IsSound (n.pool + length (n.socks i).rx_queue) m (
        put-IsSound i s n
          (record { count = λ u. absurd (ground arith); own = λ j lt ne u. absurd (ground arith) })
          v))
      (λ e. v)

-- One call, or one datagram that arrives. A call that waits is one that is made again after others.
pub data Step : Udp → Udp → Type 0 where
  socket : (n : Udp) → Step n (udp_socket n).1
  bind : (i port : ℕ) (n : Udp) → Step n (udp_bind i port n).1
  send :
      (i src dst dport : ℕ) (body : List ℕ) (n : Udp)
      → Step n (udp_send_direct i src dst dport body n).1
  receive : (i max : ℕ) (n : Udp) → Step n (udp_recvfrom [] i max n).1
  close : (i : ℕ) (n : Udp) → Step n (udp_close i n)
  deliver : (src : ℕ) (m : Mbuf) (n : Udp) → Step n (udp_rx src m n)

pub data Reachable : Udp → Type 0 where
  start : (n : Udp) → Reachable (udp_init n)
  next : (n m : Udp) → Reachable n → Step n m → Reachable m

step-IsSound : (n m : Udp) → Step n m → IsSound n → IsSound m
unfolding udp_socket
step-IsSound _ _ (socket n) v = claimed-IsSound _ n v
step-IsSound _ _ (bind i port n) v = udp_bind-IsSound i port n v
step-IsSound _ _ (send i src dst dport body n) v = udp_send_direct-IsSound i src dst dport body n v
step-IsSound _ _ (receive i max n) v = udp_recvfrom-IsSound i max n v
step-IsSound _ _ (close i n) v = udp_close-IsSound i n v
step-IsSound _ _ (deliver src m n) v = udp_rx-IsSound src m n v

-- In each state that is reached from `udp_init` by calls and by datagrams that arrive: no two open
-- sockets have the same port other than 0, and the count of each open socket is the length of its
-- queue.
pub sockets-IsSound : (n : Udp) → Reachable n → IsSound n
unfolding udp_init
sockets-IsSound _ (start n) = record {
  counted = λ i u. absurd (ground arith);
  unique = λ i j a b ne u w p. refl;
}
sockets-IsSound _ (next n m r s) = step-IsSound n m s (sockets-IsSound n r)
