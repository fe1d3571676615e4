-- ===== src/Net/Tcp/Rx.antt =====
-- `tcp_rx` of kernel/tcp.c: what a received segment does.
use axiome_os.Prelude.{
  ℕ, suc, ◌+◌, ◌-◌, ◌*◌, ◌/◌, ◌%◌, ◌^◌, Bool, true, false, not, ◌&&◌, Option, none, some, List, [],
  ◌∷◌, ◌++◌, ltb, leb, ◌==◌, if◌then◌else◌, get_or, length, bit_and,
}
use axiome_os.Net.Buf.{Mbuf}
use axiome_os.Net.Tcp.{
  State, closed, listen, syn_sent, syn_received, established, fin_wait_1, fin_wait_2, time_wait,
  close_wait, last_ack, closing, Sock, TxSeg, Net, Carrier, put, find, tcp_alloc_sock, tcp_send_seg,
  tcp_enter_state, tcp_seq_add, tcp_seq_leq, tcp_syn, tcp_ack, tcp_fin, tcp_rst, wnd_size,
}

-- What `tcp_rx` reads of a header, with the length of the header in bytes.
pub record Fields : Type 0 where
  pub sport : ℕ
  pub dport : ℕ
  pub seq : ℕ
  pub ack : ℕ
  pub flags : ℕ
  pub wnd : ℕ
  pub ihl : ℕ

unfoldable pub byte_at : Mbuf → ℕ → ℕ
byte_at m i = get_or m.bytes (m.data_off + i) 0

unfoldable pub word_at : Mbuf → ℕ → ℕ
word_at m i = byte_at m i * 256 + byte_at m (suc i)

-- The fields stand in the order of the network.
unfoldable pub read_header : Mbuf → Fields
read_header m = record {
  sport = word_at m 0;
  dport = word_at m 2;
  seq = word_at m 4 * 65536 + word_at m 6;
  ack = word_at m 8 * 65536 + word_at m 10;
  flags = byte_at m 13;
  wnd = word_at m 14;
  ihl = byte_at m 12 / 16 % 16 * 4;
}

-- The buffer behind its header; the length is a `size_t`.
unfoldable pub behind_header : ℕ → Mbuf → Mbuf
behind_header ihl m = record m {
  data_off = m.data_off + ihl;
  len = (m.len + (2 ^ 64 - ihl)) % 2 ^ 64;
}

abbrev pub has_flag : ℕ → Fields → Bool
has_flag bit h = not (bit_and h.flags bit == 0)

-- `snd_una = ack`, with the window where the code takes it.
unfoldable pub acked : Fields → Sock → Sock
acked h s = record s { snd_una = h.ack; snd_wnd = h.wnd }

-- The segments at the head of the queue that the peer has acknowledged are dropped.
unfoldable pub drop_acked : ℕ → List TxSeg → List TxSeg
drop_acked ack [] = []
drop_acked ack (t ∷ ts) =
    let rest = drop_acked ack ts in
    if tcp_seq_leq (tcp_seq_add t.seq t.len) ack then rest else t ∷ ts

unfoldable pub process_ack : Fields → Sock → Sock
process_ack h s =
    let kept = drop_acked h.ack s.tx_queue in
    record (acked h s) {
      tx_queue = kept;
      tx_queue_len = s.tx_queue_len - (length s.tx_queue - length kept);
    }

-- The data of a segment: the number expected next is advanced, and the buffer joins the chain if the
-- chain has room for it.
unfoldable pub take_data : Mbuf → Sock → Sock
take_data m s =
    let total = (s.rx_len + m.len) % 2 ^ 64 in
    let s1 = record s { rcv_nxt = tcp_seq_add s.rcv_nxt m.len } in
    if leb total 65536 then record s1 { rx_buf = s.rx_buf ++ m ∷ []; rx_len = total } else s1

-- The child of the listening socket `parent`.
unfoldable pub child_of : ℕ → ℕ → ℕ → Fields → ℕ → Sock → Sock
child_of parent dev src h isn s = record s {
  local_port = h.dport;
  remote_port = h.sport;
  remote_ip = src;
  dev = some dev;
  parent = some parent;
  snd_nxt = isn;
  rcv_nxt = tcp_seq_add h.seq 1;
  state = syn_received;
}

unfoldable pub is_match : ℕ → Fields → Net → ℕ → Bool
is_match src h n i =
    let s = n.socks i in
    s.in_use && s.local_port == h.dport && s.remote_port == h.sport && s.remote_ip == src

unfoldable pub is_listen : State → Bool
is_listen listen = true
is_listen _ = false

unfoldable pub is_listener : Fields → Net → ℕ → Bool
is_listener h n i = let s = n.socks i in s.in_use && is_listen s.state && s.local_port == h.dport

module _ (carry : Carrier) where
  -- An acknowledgment of what has been received so far.
  unfoldable pub send_ack : ℕ → Net → Net
  send_ack i n =
      (tcp_send_seg carry i tcp_ack (n.socks i).snd_nxt (n.socks i).rcv_nxt wnd_size [] n).1

  -- The FIN of the peer: counted, acknowledged, and then the state is entered.
  unfoldable pub take_fin : ℕ → State → Net → Net
  take_fin i st n =
      tcp_enter_state i st
        (send_ack i (put i (record (n.socks i) { rcv_nxt = tcp_seq_add (n.socks i).rcv_nxt 1 }) n))

  -- The answer to a SYN from a socket whose state is set before.
  unfoldable pub send_syn_ack : ℕ → Net → Net
  send_syn_ack i n =
      (tcp_send_seg carry i (tcp_syn + tcp_ack) (n.socks i).snd_nxt (n.socks i).rcv_nxt wnd_size []
        n).1

  unfoldable pub count_syn : ℕ → Net → Net
  count_syn i n = put i (record (n.socks i) { snd_nxt = tcp_seq_add (n.socks i).snd_nxt 1 }) n

  unfoldable pub answer_syn : ℕ → Net → Net
  answer_syn i n = count_syn i (send_syn_ack i n)

  unfoldable pub rx_listen : ℕ → Fields → Net → Net
  rx_listen i h n =
      if has_flag tcp_syn h
      then answer_syn i
          (put i (record (n.socks i) { rcv_nxt = tcp_seq_add h.seq 1; state = syn_received }) n)
      else n

  unfoldable pub rx_syn_sent : ℕ → Fields → Net → Net
  rx_syn_sent i h n =
      if has_flag tcp_syn h && has_flag tcp_ack h
      then send_ack i (
          put i
            (record (n.socks i) {
              rcv_nxt = tcp_seq_add h.seq 1;
              snd_una = h.ack;
              state = established;
            })
            n)
      else if has_flag tcp_rst h
      then tcp_enter_state i closed n
      else n

  unfoldable pub rx_syn_received : ℕ → Fields → Net → Net
  rx_syn_received i h n =
      if has_flag tcp_ack h
      then put i (record (acked h (n.socks i)) { state = established }) n
      else n

  unfoldable pub est_ack : ℕ → Fields → Net → Net
  est_ack i h n = if has_flag tcp_ack h then put i (process_ack h (n.socks i)) n else n

  unfoldable pub est_data : ℕ → Mbuf → Net → Net
  est_data i m n = if m.len == 0 then n else send_ack i (put i (take_data m (n.socks i)) n)

  unfoldable pub est_fin : ℕ → Fields → Net → Net
  est_fin i h n = if has_flag tcp_fin h then take_fin i close_wait n else n

  unfoldable pub rx_established : ℕ → Fields → Mbuf → Net → Net
  rx_established i h m n = est_fin i h (est_data i m (est_ack i h n))

  unfoldable pub set_una : ℕ → Fields → Net → Net
  set_una i h n = put i (record (n.socks i) { snd_una = h.ack }) n

  unfoldable pub rx_fin_wait_1 : ℕ → Fields → Net → Net
  rx_fin_wait_1 i h n =
      if has_flag tcp_ack h
      then (if has_flag tcp_fin h
          then take_fin i time_wait (set_una i h n)
          else tcp_enter_state i fin_wait_2 (set_una i h n))
      else n

  -- The switch on the state of the socket.
  unfoldable pub rx_switch : State → ℕ → Fields → Mbuf → Net → Net
  rx_switch closed i h m n = n
  rx_switch listen i h m n = rx_listen i h n
  rx_switch syn_sent i h m n = rx_syn_sent i h n
  rx_switch syn_received i h m n = rx_syn_received i h n
  rx_switch established i h m n = rx_established i h m n
  rx_switch fin_wait_1 i h m n = rx_fin_wait_1 i h n
  rx_switch fin_wait_2 i h m n = if has_flag tcp_fin h then take_fin i time_wait n else n
  rx_switch time_wait i h m n = tcp_enter_state i closed n
  rx_switch close_wait i h m n = n
  rx_switch last_ack i h m n =
      if has_flag tcp_ack h then tcp_enter_state i closed (set_una i h n) else n
  rx_switch closing i h m n =
      if has_flag tcp_ack h then tcp_enter_state i time_wait (set_una i h n) else n

  unfoldable pub open_child : ℕ → ℕ → ℕ → Fields → Option ℕ × Net → Net
  open_child parent dev src h (none, n) = n
  open_child parent dev src h (some c, n) = answer_syn c (
      put c (child_of parent dev src h n.isn (n.socks c))
        (record n { isn = (n.isn + 1000) % 2 ^ 32 }))

  unfoldable pub rx_unmatched : Option ℕ → ℕ → ℕ → Fields → Net → Net
  rx_unmatched none dev src h n = n
  rx_unmatched (some p) dev src h n = open_child p dev src h (tcp_alloc_sock n)

  unfoldable pub rx_to : Option ℕ → ℕ → ℕ → Fields → Mbuf → Net → Net
  rx_to (some i) dev src h m n = rx_switch (n.socks i).state i h m n
  rx_to none dev src h m n = rx_unmatched (find (is_listener h n)) dev src h n

  -- A segment with its header read, and its buffer behind the header.
  unfoldable pub rx_segment : ℕ → ℕ → Fields → Mbuf → Net → Net
  rx_segment dev src h m n = rx_to (find (is_match src h n)) dev src h m n

  unfoldable pub tcp_rx : ℕ → ℕ → Mbuf → Net → Net
  tcp_rx dev src m n =
      let h = read_header m in
      if ltb m.len 20 then n else rx_segment dev src h (behind_header h.ihl m) n
