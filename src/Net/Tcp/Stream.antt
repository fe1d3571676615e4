-- ===== src/Net/Tcp/Stream.antt =====
-- The data of a connection: what segments bring is what `tcp_recv` gives.
use axiome_os.Prelude.{
  ℕ, ◌+◌, ◌%◌, ◌^◌, ◌<◌, ◌≤◌, ◌≡◌, refl, sym, ap, ◌∙◌, inl, inr, Bool, true, false, Option, some,
  List, [], ◌∷◌, ◌++◌, length, arith, if_either, ◌==◌, if◌then◌else◌, leb, take, drop, Bool-cases,
  ==_iff,
}
use mathlib.Core.Path.{subst}
use mathlib.Core.List.{append-nil, append_assoc}
use axiome_os.Prelude.Slices.{take-nil, drop-nil}
use axiome_os.Net.Buf.{Mbuf}
use axiome_os.Net.Buf.Laws.{valid, contents, length-contents}
use axiome_os.Net.Tcp.{Sock, Net, put, card, tcp_seq_add, tcp_fin, tcp_ack, wnd_size}
use axiome_os.Net.Tcp.Rx.{
  Fields, has_flag, take_data, process_ack, acked, send_ack, est_ack, est_data, est_fin,
  rx_established,
}
use axiome_os.Net.Tcp.Api.{
  Rounds, tcp_wait_for, in_table, recv_data, recv_end, recv_waited, tcp_recv, pred_tcp_recv,
}
use axiome_os.Net.Tcp.Table.{put_self, socks-tcp_send_seg}
use axiome_os.Net.Tcp.Sound.{AreSound}
use axiome_os.Net.Tcp.Sound.Calls.{contents-recv_data, KeepRounds, AreSound-tcp_wait_for}

contents_snoc : (ms : List Mbuf) (m : Mbuf) → contents (ms ++ m ∷ []) ≡ contents ms ++ valid m
unfolding contents
contents_snoc [] m = append-nil (valid m)
contents_snoc (k ∷ ms) m =
    ap (λ l. valid k ++ l) (contents_snoc ms m)
    ∙ sym (append_assoc (valid k) (contents ms) (valid m))

-- What a segment with data leaves of the socket, whether or not it brings an acknowledgment.
Takes : Mbuf → Sock → Sock → Type 0
Takes m s t =
    (contents t.rx_buf
      ≡ (if leb (s.rx_len + m.len) 65536 then contents s.rx_buf ++ valid m else contents s.rx_buf))
    × (t.rcv_nxt ≡ tcp_seq_add s.rcv_nxt m.len)

Takes-take_data :
    (m : Mbuf) (s : Sock) → s.rx_len ≤ 65536 → m.len < 2 ^ 63 → Takes m s (take_data m s)
unfolding Takes take_data
Takes-take_data m s b l =
    let e : (s.rx_len + m.len) % 2 ^ 64 ≡ s.rx_len + m.len = omega arith in
    rw e (elim (Bool-cases (leb (s.rx_len + m.len) 65536)) [
      | inl y ↦ rw y (contents_snoc s.rx_buf m, refl)
      | inr no_room ↦ rw no_room (refl, refl)
    ])

est_data_lem :
    (i : ℕ) (m : Mbuf) (n : Net)
    → m.len == 0 ≡ false
    → (est_data card i m n).socks i ≡ take_data m (n.socks i)
unfolding est_data send_ack
est_data_lem i m n e = rw e (
    ap (λ f. f i) (socks-tcp_send_seg i tcp_ack _ _ wnd_size [] (put i (take_data m (n.socks i)) n))
    ∙ put_self i (take_data m (n.socks i)) n)

Takes-est_ack :
    (i : ℕ) (h : Fields) (m : Mbuf) (n : Net) (t : Sock)
    → Takes m ((est_ack card i h n).socks i) t
    → Takes m (n.socks i) t
unfolding est_ack Takes process_ack acked
Takes-est_ack i h m n t =
    if_either (λ x. Takes m (x.socks i) t → Takes m (n.socks i) t) (has_flag tcp_ack h)
      (put i (process_ack h (n.socks i)) n) n
      (λ e k. subst (λ s. Takes m s t) (put_self i (process_ack h (n.socks i)) n) k) (λ e k. k)

est_ack_bound :
    (i : ℕ) (h : Fields) (n : Net)
    → (n.socks i).rx_len ≤ 65536
    → ((est_ack card i h n).socks i).rx_len ≤ 65536
unfolding est_ack process_ack acked
est_ack_bound i h n b =
    if_either (λ x. (x.socks i).rx_len ≤ 65536) (has_flag tcp_ack h)
      (put i (process_ack h (n.socks i)) n) n
      (λ e. subst (λ s. s.rx_len ≤ 65536) (sym (put_self i (process_ack h (n.socks i)) n)) b)
      (λ e. b)

-- For a sound table, the code for an established socket, over a card, and each segment with no FIN and
-- with data of less than 2 ^ 63 bytes, as all have whose header is no longer than their buffer: if the
-- socket has room for the data, it holds what it held and then the data, and otherwise what it held;
-- and in both cases the number that it expects next is past the data.
pub contents-rx_established :
    (i : ℕ) (h : Fields) (m : Mbuf) (n : Net)
    → AreSound n
    → has_flag tcp_fin h ≡ false
    → m.len == 0 ≡ false
    → m.len < 2 ^ 63
    → (contents ((rx_established card i h m n).socks i).rx_buf ≡ (
        if leb ((n.socks i).rx_len + m.len) 65536
        then contents (n.socks i).rx_buf ++ valid m
        else contents (n.socks i).rx_buf))
      × (((rx_established card i h m n).socks i).rcv_nxt ≡ tcp_seq_add (n.socks i).rcv_nxt m.len)
unfolding rx_established est_fin Takes
contents-rx_established i h m n v no_fin some_data small =
    let n1 = est_ack card i h n in
    let took = Takes-take_data m (n1.socks i) (est_ack_bound i h n (v.at i).rx_bound) small in
    rw no_fin (
      Takes-est_ack i h m n ((est_data card i m n1).socks i)
        (subst (λ t. Takes m (n1.socks i) t) (sym (est_data_lem i m n1 some_data)) took))

no_bytes : (bytes : List ℕ) → length bytes ≡ 0 → bytes ≡ []
no_bytes [] h = refl
no_bytes (c ∷ bytes) h = absurd (omega arith)

Gives : ℕ → ℕ → Net → Option (List ℕ) × Net → Type 0
Gives i max n r =
    (r.0 ≡ some (take max (contents (n.socks i).rx_buf)))
    × (contents (r.1.socks i).rx_buf ≡ drop max (contents (n.socks i).rx_buf))

Gives-recv_end :
    (i max : ℕ) (n : Net)
    → AreSound n
    → Gives i max n (some (recv_end i max n).0, (recv_end i max n).1)
unfolding Gives recv_end
Gives-recv_end i max n v =
    let s = n.socks i in
    let r = contents-recv_data max s (v.at i) in
    let total = (v.at i).rx_total ∙ sym (length-contents s.rx_buf (v.at i).chained) in
    elim (Bool-cases (s.rx_len == 0)) [
      | inl e ↦
          let empty = no_bytes (contents s.rx_buf) (sym total ∙ (==_iff s.rx_len 0).0 e) in
          rw e (
            ap some (sym (ap (take max) empty ∙ take-nil max)),
            empty ∙ sym (ap (drop max) empty ∙ drop-nil max),
          )
      | inr e ↦
          rw e (ap some r.0, ap (λ t. contents t.rx_buf) (put_self i (recv_data max s).1 n) ∙ r.1)
    ]

Gives-recv_waited :
    (i max : ℕ) (b : Bool) (n : Net)
    → b ≡ true
    → AreSound n
    → Gives i max n (recv_waited i max (b, n))
unfolding recv_waited
Gives-recv_waited i max true n e v = Gives-recv_end i max n v
Gives-recv_waited i max false n e v = absurd (ground arith)

-- For a sound table and an open socket whose wait ends, in whose rounds nothing happens that makes a
-- sound table unsound (a delivered segment does not, if its header is no longer than its buffer), and
-- with the state after the wait: `tcp_recv` gives the first bytes that the socket then holds, as many as are asked for, and the socket holds the rest.
pub tcp_recv-contents :
    (rounds : Rounds) (i max : ℕ) (n : Net)
    → in_table i n ≡ true
    → (tcp_wait_for rounds (pred_tcp_recv i) n).0 ≡ true
    → KeepRounds rounds
    → AreSound n
    → ((tcp_recv rounds i max n).0
        ≡ some (take max (contents ((tcp_wait_for rounds (pred_tcp_recv i) n).1.socks i).rx_buf)))
      × (contents ((tcp_recv rounds i max n).1.socks i).rx_buf
          ≡ drop max (contents ((tcp_wait_for rounds (pred_tcp_recv i) n).1.socks i).rx_buf))
unfolding tcp_recv Gives
tcp_recv-contents rounds i max n open_sock ended keep v =
    rw open_sock
      (Gives-recv_waited i max _ _ ended (AreSound-tcp_wait_for rounds (pred_tcp_recv i) n keep v))
