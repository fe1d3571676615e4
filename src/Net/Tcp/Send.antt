-- ===== src/Net/Tcp/Send.antt =====
-- `tcp_send` of kernel/tcp.c.
use axiome_os.Prelude.{
  ℕ, suc, ◌+◌, Bool, true, false, not, ◌&&◌, ◌||◌, Option, none, some, List, [], ◌∷◌, ◌==◌,
  if◌then◌else◌, length, take, drop,
}
use axiome_os.Net.Tcp.{
  Sock, TxSeg, Net, Carrier, put, tcp_send_seg, tcp_seq_add, tcp_seq_leq, tcp_ack, tcp_psh,
  wnd_size, mss,
}
use axiome_os.Net.Tcp.Api.{Rounds, tcp_wait_for, in_table, is_established}

-- What one round of the loop meets: whether the pool has a buffer for the payload and memory for its
-- copy, and what the kernel does while the round waits.
pub record Luck : Type 0 where
  pub buffer : Bool
  pub copied : Bool
  pub rounds : Rounds

-- The segment sent is counted, and its copy joins the queue at its head.
unfoldable pub queue_seg : Bool → ℕ → List ℕ → Sock → Sock
queue_seg false seq body s = record s { snd_nxt = tcp_seq_add s.snd_nxt (length body) }
queue_seg true seq body s =
    let t : TxSeg = record {
      seq = seq;
      len = length body;
      body = body;
      rexmit_time = 0;
      rexmit_count = 0;
    } in
    record s {
      snd_nxt = tcp_seq_add s.snd_nxt (length body);
      tx_queue = t ∷ s.tx_queue;
      tx_queue_len = suc s.tx_queue_len;
    }

unfoldable pub pred_tcp_acked : ℕ → ℕ → Net → Bool
pred_tcp_acked i target n = tcp_seq_leq target (n.socks i).snd_una

module _ (carry : Carrier) where
  unfoldable pub send_body : ℕ → List ℕ → Net → Bool × Net
  send_body i body n =
      let s = n.socks i in
      tcp_send_seg carry i (tcp_ack + tcp_psh) s.snd_nxt s.rcv_nxt wnd_size body n

  -- A round once its segment is sent, from the number that the segment has.
  unfoldable pub send_wait : Luck → ℕ → ℕ → List ℕ → Net → Net
  send_wait luck i seq body n =
      (tcp_wait_for luck.rounds (pred_tcp_acked i (tcp_seq_add seq (length body)))
        (put i (queue_seg luck.copied seq body (n.socks i)) n)).1

  -- The loop over the chunks, with what each round meets and the bytes sent so far. A list that ends
  -- early is a pool that has run out.
  unfoldable pub send_loop : List Luck → ℕ → List ℕ → ℕ → Net → ℕ × Net
  send_loop [] i p count n = (count, n)
  send_loop (luck ∷ world) i p count n =
      let body = take mss p in
      let r = send_body i body n in
      let rest =
        send_loop world i (drop mss p) (count + length body)
          (send_wait luck i (n.socks i).snd_nxt body r.1) in
      if length p == 0 || not luck.buffer then (count, n) else if r.0 then rest else (count, r.1)

  unfoldable pub tcp_send : List Luck → ℕ → List ℕ → Net → Option ℕ × Net
  tcp_send world i p n =
      let r = send_loop world i p 0 n in
      if in_table i n && is_established (n.socks i).state then (some r.0, r.1) else (none, n)
