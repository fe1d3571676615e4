-- ===== src/Net/Tcp/Handshake/Steps.antt =====
-- The three segments of the opening, one by one.
use axiome_os.Prelude.{ℕ, ◌+◌, ◌%◌, ◌^◌, ◌≡◌, refl, ap, ◌∙◌, none, some, [], not}
use axiome_os.Net.Buf.{Mbuf}
use axiome_os.Net.Tcp.{
  syn_sent, syn_received, established, Sock, Seg, Net, put, card, tcp_seq_add, tcp_send_seg,
  tcp_syn, tcp_ack, wnd_size, find, allocated, tcp_alloc_sock, claim_sock,
}
use axiome_os.Net.Tcp.Rx.{
  Fields, tcp_rx, rx_segment, rx_to, rx_unmatched, open_child, child_of, answer_syn, count_syn,
  send_syn_ack, send_ack, behind_header, is_match, is_listener, rx_switch, rx_syn_sent,
  rx_syn_received, acked,
}
use axiome_os.Net.Tcp.Api.{send_syn}
use axiome_os.Net.Tcp.Wire.{fields_of, read_header-header, IsSized}
use axiome_os.Net.Tcp.Header.{header, be16, be32, le16}
use axiome_os.Net.Tcp.Loop.{frame, link_header}
use axiome_os.Net.Tcp.Table.{put_self, seg_of, logged, tcp_send_seg-card}

-- The socket after the SYN, and the SYN.
abbrev pub opened : ℕ → ℕ → Net → Sock → Sock
opened ip q a s = record s {
  remote_ip = ip;
  remote_port = q;
  snd_nxt = tcp_seq_add a.isn 1;
  snd_una = a.isn;
  state = syn_sent;
}

abbrev pub bare : ℕ → ℕ → ℕ → ℕ → ℕ → ℕ → ℕ → Seg
bare dev ip sport dport seq ack flags = record {
  via = dev;
  to = ip;
  sport = sport;
  dport = dport;
  seq = seq;
  ack = ack;
  flags = flags;
  wnd = wnd_size;
  body = [];
}

-- A socket after it has counted its SYN over a card: the table has the socket changed, and the
-- segment is logged.
pub sends_then :
    (i d flags seq ack : ℕ) (f : Sock → Sock) (n : Net) (s : Sock)
    → n.socks i ≡ s
    → s.dev ≡ some d
    → put i
        (f ((tcp_send_seg card i flags seq ack wnd_size [] n).1.socks i))
        (tcp_send_seg card i flags seq ack wnd_size [] n).1
      ≡ put i (f s) (logged (bare d s.remote_ip s.local_port s.remote_port seq ack flags) n)
sends_then i d flags seq ack f n s e dev =
    rw (tcp_send_seg-card i d flags seq ack wnd_size [] n (ap (λ t. t.dev) e ∙ dev), e) refl

pub send_syn_lem :
    (i ip q d : ℕ) (a : Net)
    → (a.socks i).dev ≡ some d
    → send_syn card i ip q a
      ≡ put i (opened ip q a (a.socks i)) (
          logged (bare d ip (a.socks i).local_port q a.isn 0 tcp_syn) (
            put i
              (record (opened ip q a (a.socks i)) { snd_nxt = a.isn })
              (record a { isn = (a.isn + 1000) % 2 ^ 32 })))
unfolding send_syn
send_syn_lem i ip q d a dev =
    sends_then i d tcp_syn a.isn 0 (λ s. record s { snd_nxt = tcp_seq_add s.snd_nxt 1 }) _
      (record (opened ip q a (a.socks i)) { snd_nxt = a.isn }) (put_self i _ _) dev

-- The frame of a segment without data is read as the segment.
pub tcp_rx-frame :
    (dev src via ip sport dport seq ack flags : ℕ) (n : Net)
    → IsSized (bare via ip sport dport seq ack flags)
    → tcp_rx card dev src (frame (bare via ip sport dport seq ack flags)) n
      ≡ rx_segment card dev src
          (fields_of (bare via ip sport dport seq ack flags))
          (behind_header 20 (frame (bare via ip sport dport seq ack flags)))
          n
unfolding tcp_rx frame fields_of header be16 be32 le16
tcp_rx-frame dev src via ip sport dport seq ack flags n h =
    let seg = bare via ip sport dport seq ack flags in
    ap (λ g. rx_segment card dev src g (behind_header g.ihl (frame seg)) n)
      (read_header-header seg 0 20 link_header [] h)

-- A SYN takes a number.
abbrev counted : Sock → Sock
counted s = record s { snd_nxt = tcp_seq_add s.snd_nxt 1 }

answer_syn_lem :
    (c d : ℕ) (n : Net) (s : Sock)
    → n.socks c ≡ s
    → s.dev ≡ some d
    → answer_syn card c n
      ≡ put c
          (record s { snd_nxt = tcp_seq_add s.snd_nxt 1 })
          (logged
            (bare d s.remote_ip s.local_port s.remote_port s.snd_nxt s.rcv_nxt (tcp_syn + tcp_ack))
            n)
unfolding answer_syn count_syn send_syn_ack
answer_syn_lem c d n s e dev =
    sends_then c d (tcp_syn + tcp_ack) (n.socks c).snd_nxt (n.socks c).rcv_nxt counted n s e dev
    ∙ ap
        (λ t. put c (counted s) (
          logged
            (bare d s.remote_ip s.local_port s.remote_port t.snd_nxt t.rcv_nxt (tcp_syn + tcp_ack))
            n))
        e

send_ack_lem :
    (i d : ℕ) (n : Net) (s : Sock)
    → n.socks i ≡ s
    → s.dev ≡ some d
    → send_ack card i n
      ≡ logged (bare d s.remote_ip s.local_port s.remote_port s.snd_nxt s.rcv_nxt tcp_ack) n
unfolding send_ack
send_ack_lem i d n s e dev =
    ap (λ r. r.1)
      (tcp_send_seg-card i d tcp_ack (n.socks i).snd_nxt (n.socks i).rcv_nxt wnd_size [] n
        (ap (λ t. t.dev) e ∙ dev))
    ∙ ap (λ t. logged (seg_of d t tcp_ack t.snd_nxt t.rcv_nxt wnd_size []) n) e

-- The child that a SYN makes, before its own SYN is counted.
abbrev pub child : ℕ → ℕ → ℕ → Fields → ℕ → Sock
child l dev src h isn = child_of l dev src h isn allocated

pub rx_segment_syn :
    (dev src l c : ℕ) (h : Fields) (m : Mbuf) (b : Net)
    → find (is_match src h b) ≡ none
    → find (is_listener h b) ≡ some l
    → find (λ j. not (b.socks j).in_use) ≡ some c
    → rx_segment card dev src h m b
      ≡ put c
          (record (child l dev src h b.isn) { snd_nxt = tcp_seq_add b.isn 1 })
          (logged (bare dev src h.dport h.sport b.isn (tcp_seq_add h.seq 1) (tcp_syn + tcp_ack)) (
            put c
              (child l dev src h b.isn)
              (record (put c allocated b) { isn = (b.isn + 1000) % 2 ^ 32 })))
unfolding rx_segment rx_to rx_unmatched tcp_alloc_sock claim_sock open_child child_of put
rx_segment_syn dev src l c h m b unmatched listens free =
    let claimed : Net = record (put c allocated b) { isn = (b.isn + 1000) % 2 ^ 32 } in
    rw (unmatched, listens, free)
      (ap (λ t. answer_syn card c (put c (child_of l dev src h b.isn t) claimed))
          (put_self c allocated b)
        ∙ answer_syn_lem c dev (put c (child l dev src h b.isn) claimed) (child l dev src h b.isn)
            (put_self c (child l dev src h b.isn) claimed) refl)

pub rx_segment_syn_ack :
    (dev src i d via ip sport dport seq ack : ℕ) (m : Mbuf) (n : Net) (s : Sock)
    → find (is_match src (fields_of (bare via ip sport dport seq ack (tcp_syn + tcp_ack))) n)
      ≡ some i
    → n.socks i ≡ s
    → s.state ≡ syn_sent
    → s.dev ≡ some d
    → rx_segment card dev src (fields_of (bare via ip sport dport seq ack (tcp_syn + tcp_ack))) m n
      ≡ logged
          (bare d s.remote_ip s.local_port s.remote_port s.snd_nxt (tcp_seq_add seq 1) tcp_ack)
          (put i (record s { rcv_nxt = tcp_seq_add seq 1; snd_una = ack; state = established }) n)
unfolding rx_segment rx_to rx_switch rx_syn_sent fields_of
rx_segment_syn_ack dev src i d via ip sport dport seq ack m n s found here st dv =
    let moved : Sock → Sock =
      λ t. record t { rcv_nxt = tcp_seq_add seq 1; snd_una = ack; state = established } in
    let st_here : (n.socks i).state ≡ syn_sent = ap (λ t. t.state) here ∙ st in
    rw (found, st_here)
      (ap (λ t. send_ack card i (put i (moved t) n)) here
        ∙ send_ack_lem i d (put i (moved s) n) (moved s) (put_self i (moved s) n) dv)

pub rx_segment_ack :
    (dev src c via ip sport dport seq ack : ℕ) (m : Mbuf) (n : Net) (s : Sock)
    → find (is_match src (fields_of (bare via ip sport dport seq ack tcp_ack)) n) ≡ some c
    → n.socks c ≡ s
    → s.state ≡ syn_received
    → rx_segment card dev src (fields_of (bare via ip sport dport seq ack tcp_ack)) m n
      ≡ put c (record s { snd_una = ack; snd_wnd = wnd_size; state = established }) n
unfolding rx_segment rx_to rx_switch rx_syn_received acked fields_of
rx_segment_ack dev src c via ip sport dport seq ack m n s found here st =
    let st_here : (n.socks c).state ≡ syn_received = ap (λ t. t.state) here ∙ st in
    rw (found, st_here)
      (ap (λ t. put c (record t { snd_una = ack; snd_wnd = wnd_size; state = established }) n) here)
