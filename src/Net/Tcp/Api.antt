-- ===== src/Net/Tcp/Api.antt =====
-- The calls of kernel/tcp.c on a socket. `rounds` are what the rest of the kernel does to the state
-- in each round that a call waits, up to its deadline. A result that is `none` is the code's -1.
use axiome_os.Prelude.{
  ℕ, ◌+◌, ◌-◌, ◌%◌, ◌^◌, Bool, true, false, not, ◌&&◌, ◌||◌, Option, none, some, List, [], ◌∷◌, ltb,
  ◌==◌, if◌then◌else◌, length,
}
use axiome_os.Net.Buf.{mbuf_copyout, mbuf_consume}
use axiome_os.Net.Tcp.{
  State, closed, listen, syn_sent, established, fin_wait_1, Sock, Net, Carrier, put, find,
  tcp_alloc_sock, tcp_ephemeral_port, tcp_send_seg, tcp_enter_state, tcp_flush_tx_queue,
  tcp_seq_add, tcp_syn, tcp_ack, tcp_fin, wnd_size, sock_max,
}

abbrev pub Rounds : Type 0
Rounds = List (Net → Net)

-- Whether the test comes to hold, and the state then.
unfoldable pub tcp_wait_for : Rounds → (Net → Bool) → Net → Bool × Net
tcp_wait_for [] test n = (test n, n)
tcp_wait_for (r ∷ rs) test n =
    let later = tcp_wait_for rs test (r n) in if test n then (true, n) else later

unfoldable pub is_established : State → Bool
is_established established = true
is_established _ = false

abbrev is_closed : State → Bool
is_closed closed = true
is_closed _ = false

unfoldable pub is_listening : State → Bool
is_listening listen = true
is_listening _ = false

unfoldable pub pred_tcp_established : ℕ → Net → Bool
pred_tcp_established i n = is_established (n.socks i).state || is_closed (n.socks i).state

has_parent : Option ℕ → ℕ → Bool
has_parent none p = false
has_parent (some q) p = q == p

pub is_child : ℕ → Net → ℕ → Bool
is_child p n i = let s = n.socks i in s.in_use && has_parent s.parent p && is_established s.state

abbrev found : Option ℕ → Bool
found none = false
found (some i) = true

unfoldable pub pred_tcp_accept : ℕ → Net → Bool
pred_tcp_accept p n = found (find (is_child p n))

unfoldable pub pred_tcp_recv : ℕ → Net → Bool
pred_tcp_recv i n = ltb 0 (n.socks i).rx_len || not (is_established (n.socks i).state)

unfoldable pub set_dev : Option ℕ → Option ℕ × Net → Option ℕ × Net
set_dev first (none, n) = (none, n)
set_dev first (some i, n) = (some i, put i (record (n.socks i) { local_port = 0; dev = first }) n)

-- `first` is the first device that is registered.
unfoldable pub tcp_socket : Option ℕ → Net → Option ℕ × Net
tcp_socket first n = set_dev first (tcp_alloc_sock n)

-- The test that each call makes of the index it is given.
unfoldable pub in_table : ℕ → Net → Bool
in_table i n = ltb i sock_max && (n.socks i).in_use

unfoldable pub tcp_bind : ℕ → ℕ → Net → Bool × Net
tcp_bind i port n =
    if in_table i n then (true, put i (record (n.socks i) { local_port = port }) n) else (false, n)

unfoldable pub tcp_listen : ℕ → Net → Bool × Net
tcp_listen i n = if in_table i n then (true, tcp_enter_state i listen n) else (false, n)

unfoldable pub pick_port : ℕ → Net → Net
pick_port i n =
    let p = tcp_ephemeral_port n in
    if (n.socks i).local_port == 0 then put i (record (p.1.socks i) { local_port = p.0 }) p.1 else n

unfoldable pub connect_end : ℕ → Net → Bool × Net
connect_end i n =
    if is_established (n.socks i).state then (true, n) else (false, tcp_enter_state i closed n)

unfoldable pub release : Sock → Sock
release s = record (tcp_flush_tx_queue (record s { rx_buf = []; rx_len = 0 })) { in_use = false }

module _ (carry : Carrier) where
  -- From the choice of the first number to the SYN, which is counted once it is sent.
  unfoldable pub send_syn : ℕ → ℕ → ℕ → Net → Net
  send_syn i ip port n =
      let s = record (n.socks i) {
        remote_ip = ip;
        remote_port = port;
        snd_nxt = n.isn;
        snd_una = n.isn;
        state = syn_sent;
      } in
      let opened = put i s (record n { isn = (n.isn + 1000) % 2 ^ 32 }) in
      let n1 = (tcp_send_seg carry i tcp_syn n.isn 0 wnd_size [] opened).1 in
      put i (record (n1.socks i) { snd_nxt = tcp_seq_add (n1.socks i).snd_nxt 1 }) n1

  unfoldable pub connect_via : Option ℕ → Rounds → ℕ → ℕ → ℕ → Net → Bool × Net
  connect_via none rounds i ip port n = (false, n)
  connect_via (some d) rounds i ip port n =
      let n1 = pick_port i (put i (record (n.socks i) { dev = some d }) n) in
      if (n1.socks i).local_port == 0
      then (false, n1)
      else connect_end i (tcp_wait_for rounds (pred_tcp_established i) (send_syn i ip port n1)).1

  -- `route` is the device for the address.
  unfoldable pub tcp_connect : Option ℕ → Rounds → ℕ → ℕ → ℕ → Net → Bool × Net
  tcp_connect route rounds i ip port n =
      if in_table i n then connect_via route rounds i ip port n else (false, n)

  -- The FIN is sent, counted, and the state entered.
  unfoldable pub send_fin : ℕ → Net → Net
  send_fin i n =
      let s = n.socks i in
      let n1 = (tcp_send_seg carry i (tcp_ack + tcp_fin) s.snd_nxt s.rcv_nxt wnd_size [] n).1 in
      put i
        (record (n1.socks i) { snd_nxt = tcp_seq_add (n1.socks i).snd_nxt 1; state = fin_wait_1 })
        n1

  unfoldable pub close_open : ℕ → Net → Net
  close_open i n =
      let n1 = if is_established (n.socks i).state then send_fin i n else n in
      put i (release (n1.socks i)) n1

  unfoldable pub tcp_close : ℕ → Net → Bool × Net
  tcp_close i n = if in_table i n then (true, close_open i n) else (false, n)

unfoldable pub accept_end : ℕ → Bool × Net → Option ℕ × Net
accept_end p (true, n) = (find (is_child p n), n)
accept_end p (false, n) = (none, n)

unfoldable pub tcp_accept : Rounds → ℕ → Net → Option ℕ × Net
tcp_accept rounds p n =
    if in_table p n && is_listening (n.socks p).state
    then accept_end p (tcp_wait_for rounds (pred_tcp_accept p) n)
    else (none, n)

-- What the call copies out and leaves of a socket that has data.
unfoldable pub recv_data : ℕ → Sock → List ℕ × Sock
recv_data max s =
    let room = if ltb max s.rx_len then max else s.rx_len in
    let bytes = mbuf_copyout room s.rx_buf 0 in
    (
      bytes,
      record s { rx_buf = mbuf_consume (length bytes) s.rx_buf; rx_len = s.rx_len - length bytes },
    )

unfoldable pub recv_end : ℕ → ℕ → Net → List ℕ × Net
recv_end i max n =
    let r = recv_data max (n.socks i) in
    if (n.socks i).rx_len == 0 then ([], n) else (r.0, put i r.1 n)

unfoldable pub recv_waited : ℕ → ℕ → Bool × Net → Option (List ℕ) × Net
recv_waited i max (true, n) = let r = recv_end i max n in (some r.0, r.1)
recv_waited i max (false, n) = (none, n)

-- The wait has no deadline: where the rounds end before it does, the call has not returned, and the
-- result is `none` as it is for a socket that is not open.
unfoldable pub tcp_recv : Rounds → ℕ → ℕ → Net → Option (List ℕ) × Net
tcp_recv rounds i max n =
    if in_table i n then recv_waited i max (tcp_wait_for rounds (pred_tcp_recv i) n) else (none, n)
