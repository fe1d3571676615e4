-- ===== src/Net/Tcp/Sound/Rx.antt =====
-- `tcp_rx` keeps every socket sound.
use axiome_os.Prelude.{
  ℕ, suc, ◌+◌, ◌%◌, ◌^◌, ◌<◌, ◌≤◌, ◌≡◌, ◌&&◌, Option, none, some, List, [], ◌∷◌, ◌++◌, length,
  arith, if_either, ◌==◌, leb, le_at, ltb, and_left,
}
use axiome_os.Net.Buf.{Mbuf, mbuf_total_len}
use axiome_os.Net.Buf.Laws.{AreChained}
use axiome_os.Net.Tcp.{
  State, closed, listen, syn_sent, syn_received, established, fin_wait_1, fin_wait_2, time_wait,
  close_wait, last_ack, closing, Sock, TxSeg, Net, Carrier, find, tcp_seq_add, tcp_seq_leq, tcp_ack,
  tcp_syn, tcp_fin, tcp_rst, tcp_alloc_sock,
}
use axiome_os.Net.Tcp.Rx.{
  Fields, has_flag, read_header, behind_header, take_data, process_ack, acked, send_ack, take_fin,
  send_syn_ack, count_syn, answer_syn, rx_listen, rx_syn_sent, rx_syn_received, est_ack, est_data,
  est_fin, rx_established, rx_switch, child_of, open_child, rx_unmatched, rx_to, rx_segment, tcp_rx,
  is_match, is_listener, drop_acked,
}
use axiome_os.Net.Tcp.Sound.{
  IsLive, IsSound, AreSound, Keeps, AreSound-put, with_state, AreSound-tcp_enter_state,
  AreSound-tcp_send_seg, AreSound-tcp_alloc_sock, Passes, Passes-find_from, step, branch,
}

-- A received buffer whose bytes lie in its data region.
abbrev pub IsReceived : Mbuf → Type 0
IsReceived m = (m.data_off + m.len ≤ length m.bytes) × (length m.bytes < 2 ^ 63)

AreChained-snoc :
    (ms : List Mbuf) (m : Mbuf)
    → AreChained ms
    → m.data_off + m.len ≤ length m.bytes
    → AreChained (ms ++ m ∷ [])
AreChained-snoc [] m h r = (r, tt)
AreChained-snoc (k ∷ ms) m h r = (h.0, AreChained-snoc ms m h.1 r)

total_snoc : (ms : List Mbuf) (m : Mbuf) → mbuf_total_len (ms ++ m ∷ []) ≡ mbuf_total_len ms + m.len
unfolding mbuf_total_len
total_snoc [] m = omega arith
total_snoc (k ∷ ms) m = omega (arith, total_snoc ms m)

IsSound-take_data : (m : Mbuf) (s : Sock) → IsReceived m → IsSound s → IsSound (take_data m s)
unfolding take_data
IsSound-take_data m s r v =
    let total = (s.rx_len + m.len) % 2 ^ 64 in
    let b = v.rx_bound in
    if_either IsSound (leb total 65536) _ _
      (λ e. record {
        live = v.live;
        chained = AreChained-snoc s.rx_buf m v.chained r.0;
        rx_total = omega (arith, v.rx_total, total_snoc s.rx_buf m);
        rx_bound = le_at total 65536 e;
        tx_count = v.tx_count;
      })
      (λ e. v)

length-drop_acked : (ack : ℕ) (ts : List TxSeg) → length (drop_acked ack ts) ≤ length ts
unfolding drop_acked
length-drop_acked ack [] = omega arith
length-drop_acked ack (t ∷ ts) =
    if_either (λ l. length l ≤ suc (length ts)) (tcp_seq_leq (tcp_seq_add t.seq t.len) ack)
      (drop_acked ack ts) (t ∷ ts) (λ e. omega (arith, length-drop_acked ack ts)) (λ e. omega arith)

IsSound-process_ack : (h : Fields) (s : Sock) → IsSound s → IsSound (process_ack h s)
unfolding process_ack acked
IsSound-process_ack h s v = record {
  live = v.live;
  chained = v.chained;
  rx_total = v.rx_total;
  rx_bound = v.rx_bound;
  tx_count = omega (arith, v.tx_count, length-drop_acked h.ack s.tx_queue);
}

module _ (carry : Carrier) (k : Keeps carry) where
  AreSound-send_ack : (i : ℕ) (n : Net) → AreSound n → AreSound (send_ack carry i n)
  unfolding send_ack
  AreSound-send_ack i n h = AreSound-tcp_send_seg carry i _ _ _ _ [] n k h

  AreSound-take_fin :
      (i : ℕ) (st : State) (n : Net) → IsLive st → AreSound n → AreSound (take_fin carry i st n)
  unfolding take_fin
  AreSound-take_fin i st n l h = AreSound-tcp_enter_state i st _ l (
      AreSound-send_ack i _
        (step i (λ s. record s { rcv_nxt = tcp_seq_add s.rcv_nxt 1 }) n (λ s v. v) h))

  AreSound-answer_syn : (i : ℕ) (n : Net) → AreSound n → AreSound (answer_syn carry i n)
  unfolding answer_syn count_syn send_syn_ack
  AreSound-answer_syn i n h =
      step i (λ s. record s { snd_nxt = tcp_seq_add s.snd_nxt 1 }) _ (λ s v. v)
        (AreSound-tcp_send_seg carry i _ _ _ _ [] n k h)

  AreSound-rx_listen :
      (i : ℕ) (h : Fields) (n : Net) → AreSound n → AreSound (rx_listen carry i h n)
  unfolding rx_listen
  AreSound-rx_listen i h n v =
      branch (has_flag tcp_syn h) _ n
        (λ e. AreSound-answer_syn i _ (
          step i (λ s. record s { rcv_nxt = tcp_seq_add h.seq 1; state = syn_received }) n
            (λ s w. with_state syn_received s tt w) v))
        (λ e. v)

  AreSound-rx_syn_sent :
      (i : ℕ) (h : Fields) (n : Net) → AreSound n → AreSound (rx_syn_sent carry i h n)
  unfolding rx_syn_sent
  AreSound-rx_syn_sent i h n v =
      branch (has_flag tcp_syn h && has_flag tcp_ack h) _ _
        (λ e. AreSound-send_ack i _ (
          step i
            (λ s. record s { rcv_nxt = tcp_seq_add h.seq 1; snd_una = h.ack; state = established })
            n (λ s w. with_state established s tt w) v))
        (λ e.
          branch (has_flag tcp_rst h) _ n (λ d. AreSound-tcp_enter_state i closed n tt v) (λ d. v))

  AreSound-est_ack : (i : ℕ) (h : Fields) (n : Net) → AreSound n → AreSound (est_ack carry i h n)
  unfolding est_ack
  AreSound-est_ack i h n v =
      branch (has_flag tcp_ack h) _ n (λ e. step i (process_ack h) n (IsSound-process_ack h) v)
        (λ e. v)

  AreSound-est_data :
      (i : ℕ) (m : Mbuf) (n : Net) → IsReceived m → AreSound n → AreSound (est_data carry i m n)
  unfolding est_data
  AreSound-est_data i m n r v =
      branch (m.len == 0) n _ (λ e. v)
        (λ e. AreSound-send_ack i _ (step i (take_data m) n (λ s. IsSound-take_data m s r) v))

  AreSound-rx_established :
      (i : ℕ) (h : Fields) (m : Mbuf) (n : Net)
      → IsReceived m
      → AreSound n
      → AreSound (rx_established carry i h m n)
  unfolding rx_established est_fin
  AreSound-rx_established i h m n r v =
      let v2 = AreSound-est_data i m _ r (AreSound-est_ack i h n v) in
      branch (has_flag tcp_fin h) _ _ (λ e. AreSound-take_fin i close_wait _ tt v2) (λ e. v2)

  -- The states that no open socket has are excluded.
  AreSound-rx_switch :
      (st : State) (i : ℕ) (h : Fields) (m : Mbuf) (n : Net)
      → IsLive st
      → IsReceived m
      → AreSound n
      → AreSound (rx_switch carry st i h m n)
  unfolding rx_switch rx_syn_received acked
  AreSound-rx_switch closed i h m n l r v = v
  AreSound-rx_switch listen i h m n l r v = AreSound-rx_listen i h n v
  AreSound-rx_switch syn_sent i h m n l r v = AreSound-rx_syn_sent i h n v
  AreSound-rx_switch syn_received i h m n l r v =
      branch (has_flag tcp_ack h) _ n
        (λ e.
          step i (λ s. record (acked h s) { state = established }) n
            (λ s w. with_state established s tt w) v)
        (λ e. v)
  AreSound-rx_switch established i h m n l r v = AreSound-rx_established i h m n r v
  AreSound-rx_switch close_wait i h m n l r v = v
  AreSound-rx_switch fin_wait_1 i h m n l r v = absurd l
  AreSound-rx_switch fin_wait_2 i h m n l r v = absurd l
  AreSound-rx_switch time_wait i h m n l r v = absurd l
  AreSound-rx_switch last_ack i h m n l r v = absurd l
  AreSound-rx_switch closing i h m n l r v = absurd l

  AreSound-open_child :
      (p dev src : ℕ) (h : Fields) (o : Option ℕ) (n : Net)
      → AreSound n
      → AreSound (open_child carry p dev src h (o, n))
  unfolding open_child child_of
  AreSound-open_child p dev src h none n v = v
  AreSound-open_child p dev src h (some c) n v = AreSound-answer_syn c _ (
      AreSound-put c (child_of p dev src h n.isn (n.socks c)) _
        (with_state syn_received (n.socks c) tt (v.at c)) (record { at = v.at }))

  AreSound-rx_unmatched :
      (o : Option ℕ) (dev src : ℕ) (h : Fields) (n : Net)
      → AreSound n
      → AreSound (rx_unmatched carry o dev src h n)
  unfolding rx_unmatched
  AreSound-rx_unmatched none dev src h n v = v
  AreSound-rx_unmatched (some p) dev src h n v =
      AreSound-open_child p dev src h (tcp_alloc_sock n).0 _ (AreSound-tcp_alloc_sock n v)

  AreSound-rx_to :
      (o : Option ℕ) (dev src : ℕ) (h : Fields) (m : Mbuf) (n : Net)
      → Passes (is_match src h n) o
      → IsReceived m
      → AreSound n
      → AreSound (rx_to carry o dev src h m n)
  unfolding rx_to is_match
  AreSound-rx_to (some i) dev src h m n p r v =
      let u = and_left _ _ (and_left _ _ (and_left _ _ p)) in
      AreSound-rx_switch (n.socks i).state i h m n ((v.at i).live u) r v
  AreSound-rx_to none dev src h m n p r v =
      AreSound-rx_unmatched (find (is_listener h n)) dev src h n v

  -- Whatever the layer below does that keeps the sockets sound, and for each buffer that lies in its
  -- region with a header that is not longer than itself: after `tcp_rx` every socket is sound.
  pub AreSound-tcp_rx :
      (dev src : ℕ) (m : Mbuf) (n : Net)
      → IsReceived m
      → (read_header m).ihl ≤ m.len
      → AreSound n
      → AreSound (tcp_rx carry dev src m n)
  unfolding tcp_rx rx_segment behind_header
  AreSound-tcp_rx dev src m n r fits v =
      let h = read_header m in
      branch (ltb m.len 20) n _ (λ e. v)
        (λ e.
          AreSound-rx_to (find (is_match src h n)) dev src h (behind_header h.ihl m) n
            (Passes-find_from (is_match src h n) 32 0) (omega (arith, r.0, r.1), r.1) v)
