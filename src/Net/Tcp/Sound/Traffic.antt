-- ===== src/Net/Tcp/Sound/Traffic.antt =====
-- The calls that send and receive keep every socket sound, and so does the timer.
use axiome_os.Prelude.{
  ℕ, suc, ◌+◌, refl, ap, Bool, true, false, not, ◌&&◌, ◌||◌, Option, none, some, List, [], ◌∷◌,
  length, arith, if_either, ◌==◌, if◌then◌else◌, take, drop,
}
use axiome_os.Net.Buf.{mbuf_total_len}
use axiome_os.Net.Tcp.{
  closed, syn_sent, fin_wait_1, Sock, Net, Carrier, put, tcp_seq_add, tcp_send_seg,
  tcp_flush_tx_queue, wnd_size, mss, tcp_syn, tcp_ack, tcp_fin, tcp_psh,
}
use axiome_os.Net.Tcp.Api.{
  Rounds, in_table, pick_port, send_syn, connect_end, connect_via, tcp_connect, send_fin, release,
  close_open, tcp_close, pred_tcp_established, is_established,
}
use axiome_os.Net.Tcp.Send.{
  Luck, queue_seg, send_body, send_wait, send_loop, tcp_send, pred_tcp_acked,
}
use axiome_os.Net.Tcp.Sound.{
  IsSound, AreSound, Keeps, AreSound-put, with_state, AreSound-tcp_enter_state,
  AreSound-tcp_send_seg, step, branch_snd,
}
use axiome_os.Net.Tcp.Sound.Calls.{KeepRounds, AreSound-tcp_wait_for, AreSound-pick_port}

release-IsSound : (s : Sock) → IsSound (release s)
unfolding release tcp_flush_tx_queue mbuf_total_len
release-IsSound s = record {
  live = λ e. absurd (ground arith);
  chained = tt;
  rx_total = refl;
  rx_bound = omega arith;
  tx_count = refl;
}

-- A socket that is not sound in between counts only as it is left.
over :
    (b : Bool) (r s t : Sock)
    → IsSound r
    → IsSound t
    → IsSound (if b then r else if b then s else t)
over true r s t v w = v
over false r s t v w = w

AreSound-put_over :
    (i : ℕ) (s r : Sock) (n : Net) → IsSound r → AreSound n → AreSound (put i r (put i s n))
unfolding put
AreSound-put_over i s r n v h = record { at = λ j. over (j == i) r s (n.socks j) v (h.at j) }

AreSound-connect_end : (i : ℕ) (n : Net) → AreSound n → AreSound (connect_end i n).1
unfolding connect_end
AreSound-connect_end i n h =
    branch_snd (is_established (n.socks i).state) (true, n) (false, _) (λ e. h)
      (λ e. AreSound-tcp_enter_state i closed n tt h)

-- The waits of each round keep the sockets sound.
abbrev pub KeepWorld : List Luck → Type 0
KeepWorld [] = Unit {0}
KeepWorld (l ∷ ls) = KeepRounds l.rounds × KeepWorld ls

module _ (carry : Carrier) (k : Keeps carry) where
  AreSound-send_syn : (i ip port : ℕ) (n : Net) → AreSound n → AreSound (send_syn carry i ip port n)
  unfolding send_syn
  AreSound-send_syn i ip port n h =
      step i (λ s. record s { snd_nxt = tcp_seq_add s.snd_nxt 1 }) _ (λ s v. v)
        (AreSound-tcp_send_seg carry i tcp_syn n.isn 0 wnd_size [] _ k (
          AreSound-put i
            (record (n.socks i) {
              remote_ip = ip;
              remote_port = port;
              snd_nxt = n.isn;
              snd_una = n.isn;
              state = syn_sent;
            })
            _ (with_state syn_sent (n.socks i) tt (h.at i)) (record { at = h.at })))

  AreSound-connect_via :
      (route : Option ℕ) (rounds : Rounds) (i ip port : ℕ) (n : Net)
      → KeepRounds rounds
      → AreSound n
      → AreSound (connect_via carry route rounds i ip port n).1
  unfolding connect_via
  AreSound-connect_via none rounds i ip port n kr h = h
  AreSound-connect_via (some d) rounds i ip port n kr h =
      let n1 = pick_port i (put i (record (n.socks i) { dev = some d }) n) in
      let h1 = AreSound-pick_port i _ (step i (λ s. record s { dev = some d }) n (λ s v. v) h) in
      branch_snd ((n1.socks i).local_port == 0) (false, n1) _ (λ e. h1)
        (λ e. AreSound-connect_end i _ (
          AreSound-tcp_wait_for rounds (pred_tcp_established i) _ kr
            (AreSound-send_syn i ip port n1 h1)))

  pub AreSound-tcp_connect :
      (route : Option ℕ) (rounds : Rounds) (i ip port : ℕ) (n : Net)
      → KeepRounds rounds
      → AreSound n
      → AreSound (tcp_connect carry route rounds i ip port n).1
  unfolding tcp_connect
  AreSound-tcp_connect route rounds i ip port n kr h =
      branch_snd (in_table i n) _ (false, n)
        (λ e. AreSound-connect_via route rounds i ip port n kr h) (λ e. h)

  -- The table and the socket after the FIN.
  after_fin : ℕ → Net → Net
  after_fin i n =
      (tcp_send_seg carry i (tcp_ack + tcp_fin) (n.socks i).snd_nxt (n.socks i).rcv_nxt wnd_size []
        n).1

  fin_sent : ℕ → Net → Sock
  fin_sent i n =
      let s = (after_fin i n).socks i in
      record s { snd_nxt = tcp_seq_add s.snd_nxt 1; state = fin_wait_1 }

  AreSound-close_open : (i : ℕ) (n : Net) → AreSound n → AreSound (close_open carry i n)
  unfolding close_open send_fin fin_sent after_fin
  AreSound-close_open i n h =
      if_either (λ n1. AreSound (put i (release (n1.socks i)) n1))
        (is_established (n.socks i).state) _ n
        (λ e. AreSound-put_over i (fin_sent i n) (release _) (after_fin i n) (release-IsSound _) (
          AreSound-tcp_send_seg carry i (tcp_ack + tcp_fin) (n.socks i).snd_nxt (n.socks i).rcv_nxt
            wnd_size [] n k h))
        (λ e. AreSound-put i (release (n.socks i)) n (release-IsSound (n.socks i)) h)

  pub AreSound-tcp_close : (i : ℕ) (n : Net) → AreSound n → AreSound (tcp_close carry i n).1
  unfolding tcp_close
  AreSound-tcp_close i n h =
      branch_snd (in_table i n) (true, _) (false, n) (λ e. AreSound-close_open i n h) (λ e. h)

  queue_seg-IsSound :
      (b : Bool) (seq : ℕ) (body : List ℕ) (s : Sock) → IsSound s → IsSound (queue_seg b seq body s)
  unfolding queue_seg
  queue_seg-IsSound false seq body s v = v
  queue_seg-IsSound true seq body s v = record {
    live = v.live;
    chained = v.chained;
    rx_total = v.rx_total;
    rx_bound = v.rx_bound;
    tx_count = ap suc v.tx_count;
  }

  AreSound-send_loop :
      (world : List Luck) (i : ℕ) (p : List ℕ) (count : ℕ) (n : Net)
      → KeepWorld world
      → AreSound n
      → AreSound (send_loop carry world i p count n).1
  unfolding send_loop send_wait send_body
  AreSound-send_loop [] i p count n kw h = h
  AreSound-send_loop (l ∷ world) i p count n kw h =
      let sent =
        AreSound-tcp_send_seg carry i (tcp_ack + tcp_psh) (n.socks i).snd_nxt (n.socks i).rcv_nxt
          wnd_size (take mss p) n k h in
      branch_snd (length p == 0 || not l.buffer) (count, n) _ (λ e. h)
        (λ e.
          branch_snd (send_body carry i (take mss p) n).0 _ (count, _)
            (λ d. AreSound-send_loop world i (drop mss p) (count + length (take mss p)) _ kw.1 (
              AreSound-tcp_wait_for l.rounds
                (pred_tcp_acked i (tcp_seq_add (n.socks i).snd_nxt (length (take mss p)))) _ kw.0
                (step i (queue_seg l.copied (n.socks i).snd_nxt (take mss p)) _
                  (queue_seg-IsSound l.copied (n.socks i).snd_nxt (take mss p)) sent)))
            (λ d. sent))

  pub AreSound-tcp_send :
      (world : List Luck) (i : ℕ) (p : List ℕ) (n : Net)
      → KeepWorld world
      → AreSound n
      → AreSound (tcp_send carry world i p n).1
  unfolding tcp_send
  AreSound-tcp_send world i p n kw h =
      branch_snd (in_table i n && is_established (n.socks i).state) (some _, _) (none, n)
        (λ e. AreSound-send_loop world i p 0 n kw h) (λ e. h)
