-- ===== src/Net/Tcp/Sound/Calls.antt =====
-- The calls on a socket keep every socket sound.
use axiome_os.Prelude.{
  ℕ, ◌≤◌, ◌≡◌, refl, sym, ap, ◌∙◌, Bool, true, false, ◌&&◌, Option, none, some, List, [], ◌∷◌,
  length, length-take, length-drop, take_all, not_lt, lt_at, arith, if_either, ◌==◌, if◌then◌else◌,
  ltb, take, drop,
}
use axiome_os.Prelude.Slices.{drop_all}
use axiome_os.Net.Buf.{mbuf_copyout, mbuf_consume}
use axiome_os.Net.Buf.Laws.{contents, length-contents, mbuf_copyout-contents, contents-mbuf_consume}
use axiome_os.Net.Tcp.{listen, Sock, Net, tcp_alloc_sock, tcp_ephemeral_port}
use axiome_os.Net.Tcp.Api.{
  Rounds, tcp_wait_for, tcp_socket, set_dev, tcp_bind, tcp_listen, in_table, pick_port, accept_end,
  tcp_accept, recv_data, pred_tcp_accept, is_listening,
}
use axiome_os.Net.Tcp.Sound.{
  IsSound, AreSound, AreSound-put, AreSound-tcp_enter_state, AreSound-tcp_alloc_sock, step, branch,
  branch_snd,
}

-- Rounds of a wait in which the kernel keeps the sockets sound.
abbrev pub KeepRounds : Rounds → Type 0
KeepRounds [] = Unit {0}
KeepRounds (r ∷ rs) = ((n : Net) → AreSound n → AreSound (r n)) × KeepRounds rs

pub AreSound-tcp_wait_for :
    (rounds : Rounds) (test : Net → Bool) (n : Net)
    → KeepRounds rounds
    → AreSound n
    → AreSound (tcp_wait_for rounds test n).1
unfolding tcp_wait_for
AreSound-tcp_wait_for [] test n k h = h
AreSound-tcp_wait_for (r ∷ rs) test n k h =
    branch_snd (test n) (true, n) _ (λ e. h)
      (λ e. AreSound-tcp_wait_for rs test (r n) k.1 (k.0 n h))

AreSound-set_dev : (first o : Option ℕ) (n : Net) → AreSound n → AreSound (set_dev first (o, n)).1
unfolding set_dev
AreSound-set_dev first none n h = h
AreSound-set_dev first (some i) n h =
    step i (λ s. record s { local_port = 0; dev = first }) n (λ s v. v) h

pub AreSound-tcp_socket :
    (first : Option ℕ) (n : Net) → AreSound n → AreSound (tcp_socket first n).1
unfolding tcp_socket
AreSound-tcp_socket first n h =
    AreSound-set_dev first (tcp_alloc_sock n).0 _ (AreSound-tcp_alloc_sock n h)

pub AreSound-tcp_bind : (i port : ℕ) (n : Net) → AreSound n → AreSound (tcp_bind i port n).1
unfolding tcp_bind
AreSound-tcp_bind i port n h =
    branch_snd (in_table i n) (true, _) (false, n)
      (λ e. step i (λ s. record s { local_port = port }) n (λ s v. v) h) (λ e. h)

pub AreSound-tcp_listen : (i : ℕ) (n : Net) → AreSound n → AreSound (tcp_listen i n).1
unfolding tcp_listen
AreSound-tcp_listen i n h =
    branch_snd (in_table i n) (true, _) (false, n) (λ e. AreSound-tcp_enter_state i listen n tt h)
      (λ e. h)

pub AreSound-pick_port : (i : ℕ) (n : Net) → AreSound n → AreSound (pick_port i n)
unfolding pick_port tcp_ephemeral_port
AreSound-pick_port i n h =
    branch ((n.socks i).local_port == 0) _ n
      (λ e.
        AreSound-put i (record (n.socks i) { local_port = (tcp_ephemeral_port n).0 }) _ (h.at i)
          (record { at = h.at }))
      (λ e. h)

AreSound-accept_end : (p : ℕ) (b : Bool) (n : Net) → AreSound n → AreSound (accept_end p (b, n)).1
unfolding accept_end
AreSound-accept_end p true n h = h
AreSound-accept_end p false n h = h

pub AreSound-tcp_accept :
    (rounds : Rounds) (p : ℕ) (n : Net)
    → KeepRounds rounds
    → AreSound n
    → AreSound (tcp_accept rounds p n).1
unfolding tcp_accept
AreSound-tcp_accept rounds p n k h =
    branch_snd (in_table p n && is_listening (n.socks p).state) _ (none, n)
      (λ e. AreSound-accept_end p _ _ (AreSound-tcp_wait_for rounds (pred_tcp_accept p) n k h))
      (λ e. h)

-- A count that is cut at the length of the list takes and drops the same.
cut_at : (max len : ℕ) → ℕ
cut_at max len = if ltb max len then max else len

take-cut_at : (max : ℕ) (bytes : List ℕ) → take (cut_at max (length bytes)) bytes ≡ take max bytes
unfolding cut_at
take-cut_at max bytes =
    if_either (λ k. take k bytes ≡ take max bytes) (ltb max (length bytes)) max (length bytes)
      (λ e. refl)
      (λ e.
        take_all (length bytes) bytes (omega arith)
        ∙ sym (take_all max bytes (not_lt max (length bytes) e)))

drop-cut_at : (max : ℕ) (bytes : List ℕ) → drop (cut_at max (length bytes)) bytes ≡ drop max bytes
unfolding cut_at
drop-cut_at max bytes =
    if_either (λ k. drop k bytes ≡ drop max bytes) (ltb max (length bytes)) max (length bytes)
      (λ e. refl)
      (λ e.
        drop_all (length bytes) bytes (omega arith)
        ∙ sym (drop_all max bytes (not_lt max (length bytes) e)))

cut_at_le : (max len : ℕ) → cut_at max len ≤ len
unfolding cut_at
cut_at_le max len =
    if_either (λ k. k ≤ len) (ltb max len) max len (λ e. let lt = lt_at max len e in omega arith)
      (λ e. omega arith)

-- What is copied out of a sound socket is what its chain holds first, and the chain holds the rest.
pub contents-recv_data :
    (max : ℕ) (s : Sock)
    → IsSound s
    → ((recv_data max s).0 ≡ take max (contents s.rx_buf))
      × (contents (recv_data max s).1.rx_buf ≡ drop max (contents s.rx_buf))
      × IsSound (recv_data max s).1
unfolding recv_data cut_at
contents-recv_data max s v =
    let all = contents s.rx_buf in
    let room = cut_at max s.rx_len in
    let total : s.rx_len ≡ length all = v.rx_total ∙ sym (length-contents s.rx_buf v.chained) in
    let out = mbuf_copyout-contents room s.rx_buf 0 v.chained in
    let bytes = mbuf_copyout room s.rx_buf 0 in
    let count : length bytes ≡ room =
      ap length out ∙ omega (arith, length-take room all, total, cut_at_le max s.rx_len) in
    let left = contents-mbuf_consume (length bytes) s.rx_buf v.chained in
    let same : contents (mbuf_consume (length bytes) s.rx_buf) ≡ drop room all =
      left.0 ∙ ap (λ k. drop k all) count in
    (
      out ∙ ap (λ k. take (cut_at max k) all) total ∙ take-cut_at max all,
      same ∙ ap (λ k. drop (cut_at max k) all) total ∙ drop-cut_at max all,
      record {
        live = v.live;
        chained = left.1;
        rx_total = omega (
          arith,
          count,
          total,
          ap length same,
          length-drop room all,
          length-contents (mbuf_consume (length bytes) s.rx_buf) left.1,
        );
        rx_bound = omega (arith, v.rx_bound);
        tx_count = v.tx_count;
      },
    )
