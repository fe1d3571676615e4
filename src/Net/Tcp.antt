-- ===== src/Net/Tcp.antt =====
-- kernel/tcp.c and kernel/include/tcp.h: the table of sockets, sequence numbers, ports, and the
-- sending of a segment. A socket is named by its index in the table, which is the function `socks`.
pub mod Header
pub mod Wire
pub mod Loop
pub mod Reach
pub mod Rx
pub mod Api
pub mod Send
pub mod Tick
pub mod Table
pub mod Sound
pub mod Stream
pub mod Handshake
mod Examples
use axiome_os.Prelude.{
  ℕ, zero, suc, ◌+◌, ◌-◌, ◌%◌, ◌^◌, Bool, true, false, not, ◌&&◌, Option, none, some, List, [], ◌∷◌,
  ◌++◌, ltb, leb, ◌==◌, if◌then◌else◌,
}
use axiome_os.Net.Buf.{Mbuf}

abbrev pub sock_max : ℕ
sock_max = 32

abbrev pub wnd_size : ℕ
wnd_size = 65535

abbrev pub mss : ℕ
mss = 1460

abbrev pub tcp_fin : ℕ
tcp_fin = 1

abbrev pub tcp_syn : ℕ
tcp_syn = 2

abbrev pub tcp_rst : ℕ
tcp_rst = 4

abbrev pub tcp_psh : ℕ
tcp_psh = 8

abbrev pub tcp_ack : ℕ
tcp_ack = 16

pub data State : Type 0 where
  closed listen syn_sent syn_received established fin_wait_1 fin_wait_2 time_wait close_wait
        last_ack closing :
      State

-- A segment that waits for its acknowledgment; `body` is the payload that `m` holds.
pub record TxSeg : Type 0 where
  pub seq : ℕ
  pub len : ℕ
  pub body : List ℕ
  pub rexmit_time : ℕ
  pub rexmit_count : ℕ

-- `wait_recv`, which no code sets, is left out.
pub record Sock : Type 0 where
  pub in_use : Bool
  pub state : State
  pub local_port : ℕ
  pub remote_port : ℕ
  pub remote_ip : ℕ
  pub dev : Option ℕ
  pub snd_nxt : ℕ
  pub snd_una : ℕ
  pub rcv_nxt : ℕ
  pub rcv_wnd : ℕ
  pub snd_wnd : ℕ
  pub rx_buf : List Mbuf
  pub rx_len : ℕ
  pub tx_queue : List TxSeg
  pub tx_queue_len : ℕ
  pub parent : Option ℕ

-- A segment as it is given to the layer below, by the fields of its header, with the device and the
-- address it goes to.
pub record Seg : Type 0 where
  pub via : ℕ
  pub to : ℕ
  pub sport : ℕ
  pub dport : ℕ
  pub seq : ℕ
  pub ack : ℕ
  pub flags : ℕ
  pub wnd : ℕ
  pub body : List ℕ

-- The state of the module: `next_port` is the static of `tcp_ephemeral_port` and `syn_wait` that of
-- `tcp_tick`. `sent` is the record that a card keeps of the segments it is given, oldest first.
pub record Net : Type 0 where
  pub socks : ℕ → Sock
  pub isn : ℕ
  pub next_port : ℕ
  pub syn_wait : ℕ → ℕ
  pub sent : List Seg

pub tcp_seq_add : ℕ → ℕ → ℕ
tcp_seq_add seq n = (seq + n) % 2 ^ 32

-- The difference read as a signed number is not negative.
pub tcp_seq_leq : ℕ → ℕ → Bool
tcp_seq_leq a b = ltb ((b + (2 ^ 32 - a)) % 2 ^ 32) (2 ^ 31)

abbrev pub cleared : Sock
cleared = record {
  in_use = false;
  state = closed;
  local_port = 0;
  remote_port = 0;
  remote_ip = 0;
  dev = none;
  snd_nxt = 0;
  snd_una = 0;
  rcv_nxt = 0;
  rcv_wnd = 0;
  snd_wnd = 0;
  rx_buf = [];
  rx_len = 0;
  tx_queue = [];
  tx_queue_len = 0;
  parent = none;
}

unfoldable pub tcp_init : Net → Net
tcp_init n = record n { socks = λ i. cleared; isn = 0x12345678 }

unfoldable pub put : ℕ → Sock → Net → Net
put i s n = record n { socks = λ j. if j == i then s else n.socks j }

-- The scan of a table of `count` entries from index `i`.
unfoldable pub find_from : (ℕ → Bool) → ℕ → ℕ → Option ℕ
find_from test zero i = none
find_from test (suc count) i =
    let rest = find_from test count (suc i) in if test i then some i else rest

abbrev pub find : (ℕ → Bool) → Option ℕ
find test = find_from test sock_max 0

abbrev pub allocated : Sock
allocated = record cleared { in_use = true; rcv_wnd = wnd_size; snd_wnd = wnd_size }

unfoldable pub claim_sock : Option ℕ → Net → Option ℕ × Net
claim_sock none n = (none, n)
claim_sock (some i) n = (some i, put i allocated n)

unfoldable pub tcp_alloc_sock : Net → Option ℕ × Net
tcp_alloc_sock n = claim_sock (find (λ i. not (n.socks i).in_use)) n

unfoldable pub taken : Option ℕ → Bool
taken none = false
taken (some i) = true

abbrev pub ephemeral_start : ℕ
ephemeral_start = 49152

abbrev pub ephemeral_end : ℕ
ephemeral_end = 65535

pub has_port : Net → ℕ → Bool
has_port n p = taken (find (λ i. (n.socks i).in_use && (n.socks i).local_port == p))

-- The loop over the tries, with the static it advances.
pub ephemeral_loop : ℕ → ℕ → Net → ℕ × ℕ
ephemeral_loop zero next n = (0, next)
ephemeral_loop (suc tries) next n =
    let p = suc (if leb ephemeral_end next then ephemeral_start else next) in
    let rest = ephemeral_loop tries p n in if has_port n p then rest else (p, p)

unfoldable pub tcp_ephemeral_port : Net → ℕ × Net
tcp_ephemeral_port n =
    let found = ephemeral_loop (ephemeral_end - ephemeral_start) n.next_port n in
    (found.0, record n { next_port = found.1 })

-- What the layer below does with a segment: whether it takes it, and the state after the call, in
-- which the segments that it has delivered meanwhile are handled.
abbrev pub Carrier : Type 0
Carrier = Seg → Net → Bool × Net

unfoldable pub send_on : Carrier → Option ℕ → Sock → ℕ → ℕ → ℕ → ℕ → List ℕ → Net → Bool × Net
send_on carry none s flags seq ack wnd body n = (false, n)
send_on carry (some d) s flags seq ack wnd body n =
    carry
      (record {
        via = d;
        to = s.remote_ip;
        sport = s.local_port;
        dport = s.remote_port;
        seq = seq;
        ack = ack;
        flags = flags;
        wnd = wnd;
        body = body;
      })
      n

unfoldable pub tcp_send_seg : Carrier → ℕ → ℕ → ℕ → ℕ → ℕ → List ℕ → Net → Bool × Net
tcp_send_seg carry i flags seq ack wnd body n =
    send_on carry (n.socks i).dev (n.socks i) flags seq ack wnd body n

unfoldable pub tcp_enter_state : ℕ → State → Net → Net
tcp_enter_state i st n = put i (record (n.socks i) { state = st }) n

unfoldable pub tcp_flush_tx_queue : Sock → Sock
tcp_flush_tx_queue s = record s { tx_queue = []; tx_queue_len = 0 }

-- A card: it takes each segment, and delivers nothing during the call.
unfoldable pub card : Carrier
card seg n = (true, record n { sent = n.sent ++ seg ∷ [] })
