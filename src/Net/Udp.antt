-- ===== src/Net/Udp.antt =====
-- kernel/udp.c and kernel/udp.h: the sockets for datagrams. The loops over the table of 32 sockets are
-- `find` of the table of TCP, which is as long.
pub mod Laws
pub mod Table
pub mod Ports
mod Examples
use axiome_os.Prelude.{
  ℕ, zero, suc, ◌+◌, ◌-◌, ◌*◌, ◌%◌, ◌^◌, Bool, true, false, not, ◌&&◌, ◌||◌, Option, none, some,
  List, [], ◌∷◌, ◌++◌, length, take, drop, get_or, ltb, leb, ◌==◌, if◌then◌else◌,
}
use axiome_os.Net.Buf.{Mbuf, data_size, fill, fresh}
use axiome_os.Net.Csum.{csum_acc, csum_finish}
use axiome_os.Net.Tcp.{find, taken, ephemeral_start, ephemeral_end, sock_max}
use axiome_os.Net.Tcp.Header.{be16, le16, le32}

-- A buffer in a queue, with the sender that `udp_rx` notes in it.
pub record Datagram : Type 0 where
  pub buf : Mbuf
  pub src_ip : ℕ
  pub src_port : ℕ

-- `wait_recv`, which no code sets, is left out.
pub record UdpSock : Type 0 where
  pub in_use : Bool
  pub local_port : ℕ
  pub rx_queue : List Datagram
  pub rx_count : ℕ

-- The sockets, the static of `udp_ephemeral_port`, and the free buffers of the pool.
pub record Udp : Type 0 where
  pub socks : ℕ → UdpSock
  pub next_port : ℕ
  pub pool : ℕ

abbrev pub cleared : UdpSock
cleared = record { in_use = false; local_port = 0; rx_queue = []; rx_count = 0 }

unfoldable pub put : ℕ → UdpSock → Udp → Udp
put i s n = record n { socks = λ j. if j == i then s else n.socks j }

unfoldable pub udp_init : Udp → Udp
udp_init n = record n { socks = λ i. cleared }

abbrev pub is_open : ℕ → Udp → Bool
is_open i n = ltb i sock_max && (n.socks i).in_use

unfoldable pub claim_sock : Option ℕ → Udp → Udp
claim_sock none n = n
claim_sock (some i) n = put i (record cleared { in_use = true }) n

-- The index of the socket, none for -1.
unfoldable pub udp_socket : Udp → Option ℕ × Udp
udp_socket n = let free = find (λ i. not (n.socks i).in_use) in (free, claim_sock free n)

abbrev pub uses_port : Udp → ℕ → ℕ → Bool
uses_port n p i = (n.socks i).in_use && (n.socks i).local_port == p

unfoldable pub port_loop : ℕ → ℕ → Udp → ℕ × ℕ
port_loop zero next n = (0, next)
port_loop (suc tries) next n =
    let p = suc (if leb ephemeral_end next then ephemeral_start else next) in
    let rest = port_loop tries p n in if taken (find (uses_port n p)) then rest else (p, p)

unfoldable pub udp_ephemeral_port : Udp → ℕ × Udp
udp_ephemeral_port n =
    let found = port_loop (ephemeral_end - ephemeral_start) n.next_port n in
    (found.0, record n { next_port = found.1 })

abbrev pub conflicts : Udp → ℕ → ℕ → ℕ → Bool
conflicts n i port j = not (j == i) && uses_port n port j

unfoldable pub bind_to : ℕ → ℕ → Udp → Bool × Udp
bind_to i port n =
    if port == 0 || taken (find (conflicts n i port))
    then (false, n)
    else (true, put i (record (n.socks i) { local_port = port }) n)

-- Whether it succeeds.
unfoldable pub udp_bind : ℕ → ℕ → Udp → Bool × Udp
udp_bind i port n =
    let asked = if port == 0 then udp_ephemeral_port n else (port, n) in
    if is_open i n then bind_to i asked.0 asked.1 else (false, n)

-- The header with the checksum given.
unfoldable pub header : (sport dport csum : ℕ) → List ℕ → List ℕ
header sport dport csum body =
    be16 sport ++ (be16 dport ++ (be16 ((8 + length body) % 2 ^ 16) ++ le16 csum))

-- Over the pseudo-header, the header with a checksum of 0, and the data; 0 stands for none.
unfoldable pub checksum : (src_ip dst_ip sport dport : ℕ) → List ℕ → ℕ
checksum src_ip dst_ip sport dport body =
    let pseudo =
      csum_acc (csum_acc (csum_acc (csum_acc 0 (le32 src_ip)) (le32 dst_ip)) (0 ∷ 17 ∷ []))
        (be16 ((8 + length body) % 2 ^ 16)) in
    let sum = csum_finish (csum_acc pseudo (header sport dport 0 body ++ body)) in
    if sum == 0 then 0xFFFF else sum

-- The buffer that is handed to the IPv4 layer.
unfoldable pub built : (src_ip dst_ip sport dport : ℕ) → List ℕ → Mbuf
built src_ip dst_ip sport dport body =
    fill fresh (header sport dport (checksum src_ip dst_ip sport dport body) body ++ body)

-- The socket's port, or a new one that the socket then has; 0 if there is none.
unfoldable pub source_port : ℕ → Udp → ℕ × Udp
source_port i n =
    let found = udp_ephemeral_port n in
    let p = found.0 in
    let m : Udp = found.1 in
    if (n.socks i).local_port == 0
    then (p, if p == 0 then m else put i (record (m.socks i) { local_port = p }) m)
    else ((n.socks i).local_port, n)

-- What is sent, if anything; the buffer then belongs to the layer below.
unfoldable pub take_buffer : (src_ip dst_ip sport dport : ℕ) → List ℕ → Udp → Option Mbuf × Udp
take_buffer src_ip dst_ip sport dport body n =
    if n.pool == 0
    then (none, n)
    else (some (built src_ip dst_ip sport dport body), record n { pool = n.pool - 1 })

unfoldable pub udp_build_and_send : (i src_ip dst_ip dport : ℕ) → List ℕ → Udp → Option Mbuf × Udp
udp_build_and_send i src_ip dst_ip dport body n =
    let own = source_port i n in
    if length body == 0
    then (none, n)
    else if own.0 == 0
    then (none, own.1)
    else take_buffer src_ip dst_ip own.0 dport (take (data_size - 8) body) own.1

-- With a device; `udp_send_direct`.
unfoldable pub udp_send_direct : (i src_ip dst_ip dport : ℕ) → List ℕ → Udp → Option Mbuf × Udp
udp_send_direct i src_ip dst_ip dport body n =
    if is_open i n then udp_build_and_send i src_ip dst_ip dport body n else (none, n)

-- The address of the device for the destination, if there is one, and whether the destination is
-- the broadcast address or its hardware address is found, are given.
unfoldable pub udp_sendto :
    (route : Option ℕ) (reached : Bool) (i dst_ip dport : ℕ) → List ℕ → Udp → Option Mbuf × Udp
udp_sendto none reached i dst_ip dport body n = (none, n)
udp_sendto (some src_ip) reached i dst_ip dport body n =
    if is_open i n && reached then udp_build_and_send i src_ip dst_ip dport body n else (none, n)

unfoldable pub udp_datagram_ready : ℕ → Udp → Option Bool
udp_datagram_ready i n = if is_open i n then some (ltb 0 (n.socks i).rx_count) else none

-- What happens while the caller waits, round after round.
abbrev pub Rounds : Type 0
Rounds = List (Udp → Udp)

unfoldable pub wait : Rounds → ℕ → Udp → Udp
wait [] i n = n
wait (r ∷ rs) i n =
    let rest = wait rs i (r n) in
    if (n.socks i).rx_count == 0 && (n.socks i).in_use then rest else n

-- The bytes with the sender's address and port, none for -1.
abbrev pub Received : Type 0
Received = Option (List ℕ × ℕ × ℕ)

unfoldable pub payload : ℕ → Mbuf → List ℕ
payload max m =
    let len = m.len - 8 in take (if ltb max len then max else len) (drop (m.data_off + 8) m.bytes)

unfoldable pub dequeue : ℕ → ℕ → List Datagram → Udp → Received × Udp
dequeue i max [] n = (none, n)
dequeue i max (d ∷ ds) n =
    let s : UdpSock = n.socks i in
    let m : Udp = put i (record s { rx_queue = ds; rx_count = s.rx_count - 1 }) n in
    (
      if ltb d.buf.len 8 then none else some (payload max d.buf, d.src_ip, d.src_port),
      record m { pool = suc m.pool },
    )

-- After the rounds given; a wait that does not end in them gives none, like an error.
unfoldable pub udp_recvfrom : Rounds → ℕ → ℕ → Udp → Received × Udp
udp_recvfrom rounds i max n =
    let m : Udp = wait rounds i n in
    if is_open i n
    then (if (m.socks i).rx_count == 0 then (none, m) else dequeue i max (m.socks i).rx_queue m)
    else (none, n)

unfoldable pub udp_close : ℕ → Udp → Udp
udp_close i n =
    let s : UdpSock = n.socks i in
    if ltb i sock_max
    then record (put i (record s { in_use = false; rx_queue = [] }) n) {
      pool = n.pool + length s.rx_queue;
    }
    else n

abbrev pub word_at : Mbuf → ℕ → ℕ
word_at m i = get_or m.bytes (m.data_off + i) 0 * 2 ^ 8 + get_or m.bytes (m.data_off + suc i) 0

unfoldable pub enqueue : Option ℕ → Datagram → Udp → Udp
enqueue none d n = record n { pool = suc n.pool }
enqueue (some i) d n =
    let s : UdpSock = n.socks i in
    put i (record s { rx_queue = s.rx_queue ++ d ∷ []; rx_count = suc s.rx_count }) n

unfoldable pub udp_rx : ℕ → Mbuf → Udp → Udp
udp_rx src m n =
    if ltb m.len 8
    then record n { pool = suc n.pool }
    else enqueue (find (uses_port n (word_at m 2)))
        (record { buf = m; src_ip = src; src_port = word_at m 0 }) n
