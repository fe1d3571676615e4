-- ===== src/Net/Tcp/Reach.antt =====
-- The states that kernel/tcp.c can reach from its initialisation, by calls, segments and ticks.
use mathlib.Core.Path.{subst}
use axiome_os.Prelude.{ℕ, ◌≤◌, ◌≡◌, Bool, Option, some, List, [], ◌∷◌}
use axiome_os.Net.Buf.{Mbuf}
use axiome_os.Net.Tcp.{Net, Carrier, tcp_init}
use axiome_os.Net.Tcp.Rx.{tcp_rx, read_header}
use axiome_os.Net.Tcp.Api.{
  Rounds, tcp_socket, tcp_bind, tcp_listen, tcp_accept, tcp_connect, tcp_recv, tcp_close,
}
use axiome_os.Net.Tcp.Send.{Luck, tcp_send}
use axiome_os.Net.Tcp.Tick.{tcp_tick}
use axiome_os.Net.Tcp.Sound.{IsSound, AreSound, Keeps}
use axiome_os.Net.Tcp.Sound.Rx.{IsReceived, AreSound-tcp_rx}
use axiome_os.Net.Tcp.Sound.Calls.{
  KeepRounds, AreSound-tcp_socket, AreSound-tcp_bind, AreSound-tcp_listen, AreSound-tcp_accept,
}
use axiome_os.Net.Tcp.Sound.Traffic.{
  AreSound-tcp_connect, AreSound-tcp_close, AreSound-tcp_send, KeepWorld,
}
use axiome_os.Net.Tcp.Sound.Timer.{AreSound-tcp_recv, AreSound-tcp_tick, AreSound-tcp_init, Leaves}

-- A segment that is delivered: its device, its source and its buffer.
pub record Packet : Type 0 where
  pub dev : ℕ
  pub src : ℕ
  pub buf : Mbuf

-- The buffer lies in its region, and its header is not longer than itself.
abbrev pub IsPacket : Packet → Type 0
IsPacket p = IsReceived p.buf × ((read_header p.buf).ihl ≤ p.buf.len)

abbrev pub ArePackets : List Packet → Type 0
ArePackets [] = Unit {0}
ArePackets (p ∷ ps) = IsPacket p × ArePackets ps

-- What one round of `tcp_send` meets, with the segments delivered while it waits.
pub record Turn : Type 0 where
  pub buffer : Bool
  pub copied : Bool
  pub packets : List Packet

abbrev pub AreTurns : List Turn → Type 0
AreTurns [] = Unit {0}
AreTurns (t ∷ ts) = ArePackets t.packets × AreTurns ts

module _ (carry : Carrier) where
  pub deliver : Packet → Net → Net
  deliver p n = tcp_rx carry p.dev p.src p.buf n

  -- The rounds of a wait in which one segment each is delivered.
  abbrev pub deliveries : List Packet → Rounds
  deliveries [] = []
  deliveries (p ∷ ps) = deliver p ∷ deliveries ps

  abbrev pub world_of : List Turn → List Luck
  world_of [] = []
  world_of (t ∷ ts) =
      record { buffer = t.buffer; copied = t.copied; rounds = deliveries t.packets } ∷ world_of ts

  -- What happens in one step; a call that waits meets the segments it is given.
  pub data Step : Net → Net → Type 0 where
    socket : (first : Option ℕ) (n : Net) → Step n (tcp_socket first n).1
    bind : (i port : ℕ) (n : Net) → Step n (tcp_bind i port n).1
    listens : (i : ℕ) (n : Net) → Step n (tcp_listen i n).1
    accepts :
        (ps : List Packet) (i : ℕ) (n : Net)
        → ArePackets ps
        → Step n (tcp_accept (deliveries ps) i n).1
    connects :
        (route : Option ℕ) (ps : List Packet) (i ip port : ℕ) (n : Net)
        → ArePackets ps
        → Step n (tcp_connect carry route (deliveries ps) i ip port n).1
    sends :
        (turns : List Turn) (i : ℕ) (p : List ℕ) (n : Net)
        → AreTurns turns
        → Step n (tcp_send carry (world_of turns) i p n).1
    receives :
        (ps : List Packet) (i max : ℕ) (n : Net)
        → ArePackets ps
        → Step n (tcp_recv (deliveries ps) i max n).1
    closes : (i : ℕ) (n : Net) → Step n (tcp_close carry i n).1
    delivers : (p : Packet) (n : Net) → IsPacket p → Step n (deliver p n)
    ticks :
        (now : ℕ) (cloned : ℕ → Bool) (n m : Net) → tcp_tick carry now cloned n ≡ some m → Step n m

  pub data Reachable : Net → Type 0 where
    start : (n : Net) → Reachable (tcp_init n)
    next : (n m : Net) → Reachable n → Step n m → Reachable m

module _ (carry : Carrier) (k : Keeps carry) where
  AreSound-deliver : (p : Packet) (n : Net) → IsPacket p → AreSound n → AreSound (deliver carry p n)
  unfolding deliver
  AreSound-deliver p n v h = AreSound-tcp_rx carry k p.dev p.src p.buf n v.0 v.1 h

  deliveries-KeepRounds : (ps : List Packet) → ArePackets ps → KeepRounds (deliveries carry ps)
  deliveries-KeepRounds [] v = tt
  deliveries-KeepRounds (p ∷ ps) v = (λ n. AreSound-deliver p n v.0, deliveries-KeepRounds ps v.1)

  world_of-KeepWorld : (ts : List Turn) → AreTurns ts → KeepWorld (world_of carry ts)
  world_of-KeepWorld [] v = tt
  world_of-KeepWorld (t ∷ ts) v = (deliveries-KeepRounds t.packets v.0, world_of-KeepWorld ts v.1)

  AreSound-Step : (n m : Net) → Step carry n m → AreSound n → AreSound m
  AreSound-Step _ _ (socket first n) h = AreSound-tcp_socket first n h
  AreSound-Step _ _ (bind i port n) h = AreSound-tcp_bind i port n h
  AreSound-Step _ _ (listens i n) h = AreSound-tcp_listen i n h
  AreSound-Step _ _ (accepts ps i n v) h =
      AreSound-tcp_accept (deliveries carry ps) i n (deliveries-KeepRounds ps v) h
  AreSound-Step _ _ (connects route ps i ip port n v) h =
      AreSound-tcp_connect carry k route (deliveries carry ps) i ip port n
        (deliveries-KeepRounds ps v) h
  AreSound-Step _ _ (sends turns i p n v) h =
      AreSound-tcp_send carry k (world_of carry turns) i p n (world_of-KeepWorld turns v) h
  AreSound-Step _ _ (receives ps i max n v) h =
      AreSound-tcp_recv (deliveries carry ps) i max n (deliveries-KeepRounds ps v) h
  AreSound-Step _ _ (closes i n) h = AreSound-tcp_close carry k i n h
  AreSound-Step _ _ (delivers p n v) h = AreSound-deliver p n v h
  AreSound-Step _ _ (ticks now cloned n m e) h =
      subst Leaves e (AreSound-tcp_tick carry k now cloned n h)

  Reachable-AreSound : (n : Net) → Reachable carry n → AreSound n
  Reachable-AreSound _ (start n) = AreSound-tcp_init n
  Reachable-AreSound _ (next n m r s) = AreSound-Step n m s (Reachable-AreSound n r)

  -- In each state that is reached from the initialisation by calls, by ticks in which the code follows
  -- the link of no segment that it has freed, and by segments that are delivered, between calls or while
  -- a call waits, over a layer below that keeps the sockets sound: if each delivered segment lies in the
  -- region of its buffer and has a header, with the length that it tells, no longer than the buffer,
  -- then no open socket is in FIN_WAIT_1, FIN_WAIT_2, TIME_WAIT, LAST_ACK or CLOSING, the counts of each
  -- socket are those of its queues, its buffers lie in their regions, and it holds 65536 bytes at most.
  -- In a wait nothing but such deliveries happens.
  pub Reachable-IsSound : (n : Net) (i : ℕ) → Reachable carry n → IsSound (n.socks i)
  Reachable-IsSound n i r = (Reachable-AreSound n r).at i
