-- ===== src/Net/Tcp/Tick.antt =====
-- `tcp_tick` of kernel/tcp.c: the timer that sends again what is not acknowledged.
use axiome_os.Prelude.{
  ℕ, zero, suc, ◌+◌, ◌-◌, ◌%◌, ◌^◌, Bool, true, false, ◌&&◌, Option, none, some, length, List, [],
  ◌∷◌, ltb, ◌==◌, if◌then◌else◌, set,
}
use axiome_os.Net.Tcp.{
  State, syn_sent, closed, TxSeg, Net, Carrier, put, tcp_send_seg, tcp_enter_state, tcp_syn,
  tcp_ack, tcp_psh, wnd_size, sock_max,
}

abbrev retx_ms : ℕ
retx_ms = 200

abbrev retx_max : ℕ
retx_max = 5

unfoldable pub set_wait : ℕ → ℕ → Net → Net
set_wait i v n = record n { syn_wait = λ j. if j == i then v else n.syn_wait j }

-- The time since then, as a signed number, is more than the timeout.
abbrev is_late : ℕ → ℕ → Bool
is_late now since = let d = (now + (2 ^ 32 - since)) % 2 ^ 32 in ltb retx_ms d && ltb d (2 ^ 31)

abbrev pub is_due : ℕ → TxSeg → Bool
is_due now t = ltb t.rexmit_count retx_max && is_late now t.rexmit_time

abbrev pub is_opening : State → Bool
is_opening syn_sent = true
is_opening _ = false

unfoldable pub on_some : (Net → Option Net) → Option Net → Option Net
on_some f none = none
on_some f (some n) = f n

module _ (carry : Carrier) where
  unfoldable pub send_again : ℕ → ℕ → ℕ → ℕ → List ℕ → Net → Net
  send_again i flags seq ack body n = (tcp_send_seg carry i flags seq ack wnd_size body n).1

  -- The SYN is sent again from the 21st tick on; at the 61st the connection is given up.
  unfoldable pub tick_syn : ℕ → Net → Net
  tick_syn i n =
      let w = suc (n.syn_wait i) in
      let n1 = set_wait i w n in
      let n2 = send_again i tcp_syn (((n.socks i).snd_nxt + (2 ^ 32 - 1)) % 2 ^ 32) 0 [] n1 in
      if ltb 20 w then (if ltb 60 w then set_wait i 0 (tcp_enter_state i closed n2) else n2) else n1

  -- `cloned` says whether the pool has buffers for the copy; without it a header goes out alone.
  unfoldable pub resend : ℕ → ℕ → Bool → ℕ → TxSeg → Net → Net
  resend now i cloned k t n =
      let s = n.socks i in
      let t1 = record t { rexmit_time = now; rexmit_count = suc t.rexmit_count } in
      let n1 = put i (record s { tx_queue = set s.tx_queue k t1 }) n in
      if is_due now t
      then send_again i (tcp_ack + tcp_psh) t.seq s.rcv_nxt (if cloned then t.body else []) n1
      else n

  -- The walk over the queue, of which the segments `t ∷ ts` are left. What is received while the segment
  -- `t` is sent again, over the loopback device, takes segments from the front of the queue; if `t` is
  -- one of them, the code reads the link of a segment that it has freed, and the result is none.
  unfoldable pub resend_loop : ℕ → ℕ → (ℕ → Bool) → ℕ → List TxSeg → Net → Option Net
  resend_loop now i cloned k [] n = some n
  resend_loop now i cloned k (t ∷ ts) n =
      let place = length (n.socks i).tx_queue - suc (length ts) in
      let n1 = resend now i (cloned k) place t n in
      let rest = resend_loop now i cloned (suc k) ts n1 in
      if ltb (length ts) (length (n1.socks i).tx_queue) then rest else none

  unfoldable pub tick_sock : ℕ → (ℕ → Bool) → ℕ → Net → Option Net
  tick_sock now cloned i n =
      let n1 = if is_opening (n.socks i).state then tick_syn i n else n in
      if (n.socks i).in_use then resend_loop now i cloned 0 (n1.socks i).tx_queue n1 else some n

  -- The scan of `count` sockets from index `i`.
  unfoldable pub tick_from : ℕ → (ℕ → Bool) → ℕ → ℕ → Net → Option Net
  tick_from now cloned zero i n = some n
  tick_from now cloned (suc count) i n =
      on_some (tick_from now cloned count (suc i)) (tick_sock now cloned i n)

  unfoldable pub tcp_tick : ℕ → (ℕ → Bool) → Net → Option Net
  tcp_tick now cloned n = tick_from now cloned sock_max 0 n
