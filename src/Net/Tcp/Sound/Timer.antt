-- ===== src/Net/Tcp/Sound/Timer.antt =====
-- Receiving, and the timer, keep every socket sound.
use axiome_os.Prelude.{
  ℕ, zero, suc, ◌+◌, ◌-◌, ◌%◌, ◌^◌, refl, sym, ◌∙◌, Bool, true, false, Option, none, some, length,
  if_either, List, [], ◌∷◌, length-set, arith, ◌==◌, ltb, set,
}
use axiome_os.Net.Buf.{mbuf_total_len}
use axiome_os.Net.Tcp.{closed, TxSeg, Net, Carrier, wnd_size, tcp_syn, tcp_init}
use axiome_os.Net.Tcp.Api.{
  Rounds, in_table, recv_data, recv_end, recv_waited, tcp_recv, pred_tcp_recv,
}
use axiome_os.Net.Tcp.Tick.{
  is_due, is_opening, resend, resend_loop, tick_syn, tick_sock, tick_from, tcp_tick, set_wait,
  send_again, on_some,
}
use axiome_os.Net.Tcp.Sound.{
  AreSound, Keeps, AreSound-put, AreSound-tcp_enter_state, AreSound-tcp_send_seg, branch,
  branch_snd,
}
use axiome_os.Net.Tcp.Sound.Calls.{KeepRounds, AreSound-tcp_wait_for, contents-recv_data}

AreSound-recv_end : (i max : ℕ) (n : Net) → AreSound n → AreSound (recv_end i max n).1
unfolding recv_end
AreSound-recv_end i max n h =
    branch_snd ((n.socks i).rx_len == 0) ([], n) _ (λ e. h)
      (λ e.
        AreSound-put i (recv_data max (n.socks i)).1 n
          (contents-recv_data max (n.socks i) (h.at i)).2 h)

AreSound-recv_waited :
    (i max : ℕ) (b : Bool) (n : Net) → AreSound n → AreSound (recv_waited i max (b, n)).1
unfolding recv_waited
AreSound-recv_waited i max true n h = AreSound-recv_end i max n h
AreSound-recv_waited i max false n h = h

pub AreSound-tcp_recv :
    (rounds : Rounds) (i max : ℕ) (n : Net)
    → KeepRounds rounds
    → AreSound n
    → AreSound (tcp_recv rounds i max n).1
unfolding tcp_recv
AreSound-tcp_recv rounds i max n k h =
    branch_snd (in_table i n) _ (none, n)
      (λ e. AreSound-recv_waited i max _ _ (AreSound-tcp_wait_for rounds (pred_tcp_recv i) n k h))
      (λ e. h)

pub AreSound-tcp_init : (n : Net) → AreSound (tcp_init n)
unfolding tcp_init mbuf_total_len
AreSound-tcp_init n = record {
  at = λ i. record {
    live = λ e. tt;
    chained = tt;
    rx_total = refl;
    rx_bound = omega arith;
    tx_count = refl;
  };
}

-- What holds of the state after a walk that may fault.
abbrev pub Leaves : Option Net → Type 0
Leaves none = Unit {0}
Leaves (some n) = AreSound n

Leaves-on_some :
    (f : Net → Option Net) (o : Option Net)
    → ((n : Net) → AreSound n → Leaves (f n))
    → Leaves o
    → Leaves (on_some f o)
unfolding on_some
Leaves-on_some f none k v = tt
Leaves-on_some f (some n) k v = k n v

module _ (carry : Carrier) (k : Keeps carry) where
  AreSound-send_again :
      (i flags seq ack : ℕ) (body : List ℕ) (n : Net)
      → AreSound n
      → AreSound (send_again carry i flags seq ack body n)
  unfolding send_again
  AreSound-send_again i flags seq ack body n h =
      AreSound-tcp_send_seg carry i flags seq ack wnd_size body n k h

  AreSound-tick_syn : (i : ℕ) (n : Net) → AreSound n → AreSound (tick_syn carry i n)
  unfolding tick_syn set_wait
  AreSound-tick_syn i n h =
      let w = suc (n.syn_wait i) in
      let h1 : AreSound (set_wait i w n) = record { at = h.at } in
      let h2 =
        AreSound-send_again i tcp_syn (((n.socks i).snd_nxt + (2 ^ 32 - 1)) % 2 ^ 32) 0 [] _ h1 in
      branch (ltb 20 w) _ _
        (λ e.
          branch (ltb 60 w) _ _
            (λ d. record { at = (AreSound-tcp_enter_state i closed _ tt h2).at }) (λ d. h2))
        (λ e. h1)

  AreSound-resend :
      (now i : ℕ) (cloned : Bool) (j : ℕ) (t : TxSeg) (n : Net)
      → AreSound n
      → AreSound (resend carry now i cloned j t n)
  unfolding resend
  AreSound-resend now i cloned j t n h =
      let v = h.at i in
      let q = (n.socks i).tx_queue in
      let t1 : TxSeg = record t { rexmit_time = now; rexmit_count = suc t.rexmit_count } in
      branch (is_due now t) _ n
        (λ e. AreSound-send_again i _ t.seq _ _ _ (
          AreSound-put i (record (n.socks i) { tx_queue = set q j t1 }) n
            (record {
              live = v.live;
              chained = v.chained;
              rx_total = v.rx_total;
              rx_bound = v.rx_bound;
              tx_count = v.tx_count ∙ sym (length-set q j t1);
            })
            h))
        (λ e. h)

  AreSound-resend_loop :
      (now i : ℕ) (cloned : ℕ → Bool) (j : ℕ) (ts : List TxSeg) (n : Net)
      → AreSound n
      → Leaves (resend_loop carry now i cloned j ts n)
  unfolding resend_loop
  AreSound-resend_loop now i cloned j [] n h = h
  AreSound-resend_loop now i cloned j (t ∷ ts) n h =
      let place = length (n.socks i).tx_queue - suc (length ts) in
      let n1 = resend carry now i (cloned j) place t n in
      if_either Leaves (ltb (length ts) (length (n1.socks i).tx_queue))
        (resend_loop carry now i cloned (suc j) ts n1) none
        (λ e.
          AreSound-resend_loop now i cloned (suc j) ts n1
            (AreSound-resend now i (cloned j) place t n h))
        (λ e. tt)

  AreSound-tick_sock :
      (now : ℕ) (cloned : ℕ → Bool) (i : ℕ) (n : Net)
      → AreSound n
      → Leaves (tick_sock carry now cloned i n)
  unfolding tick_sock
  AreSound-tick_sock now cloned i n h =
      if_either Leaves (n.socks i).in_use _ (some n)
        (λ e.
          AreSound-resend_loop now i cloned 0 _ _
            (branch (is_opening (n.socks i).state) _ n (λ d. AreSound-tick_syn i n h) (λ d. h)))
        (λ e. h)

  AreSound-tick_from :
      (now : ℕ) (cloned : ℕ → Bool) (count i : ℕ) (n : Net)
      → AreSound n
      → Leaves (tick_from carry now cloned count i n)
  unfolding tick_from
  AreSound-tick_from now cloned zero i n h = h
  AreSound-tick_from now cloned (suc count) i n h =
      Leaves-on_some (tick_from carry now cloned count (suc i)) (tick_sock carry now cloned i n)
        (λ m v. AreSound-tick_from now cloned count (suc i) m v)
        (AreSound-tick_sock now cloned i n h)

  pub AreSound-tcp_tick :
      (now : ℕ) (cloned : ℕ → Bool) (n : Net) → AreSound n → Leaves (tcp_tick carry now cloned n)
  unfolding tcp_tick
  AreSound-tcp_tick now cloned n h = AreSound-tick_from now cloned 32 0 n h
