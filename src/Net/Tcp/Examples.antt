-- ===== src/Net/Tcp/Examples.antt =====
-- TCP at fixed inputs: a client with socket 0 and a server that listens with socket 0.
use axiome_os.Prelude.{
  ◌+◌, ◌≡◌, refl, true, some, [], ◌∷◌, ◌++◌, arith, Bool-cases, inl, inr, ◌==◌, take, drop, leb,
  if◌then◌else◌,
}
use axiome_os.Net.Buf.{Mbuf, mbuf_append}
use axiome_os.Net.Buf.Laws.{contents, valid}
use axiome_os.Net.Buf.Append.{IsAppended, mbuf_append-contents}
use axiome_os.Net.Tcp.{
  listen, established, Sock, Net, Seg, put, card, tcp_init, tcp_seq_add, cleared, allocated, put,
  find_from,
}
use axiome_os.Net.Tcp.Rx.{Fields, rx_established, read_header, is_listen}
use axiome_os.Net.Tcp.Api.{
  is_established, tcp_recv, tcp_wait_for, pred_tcp_recv, tcp_socket, send_syn, in_table,
}
use axiome_os.Net.Tcp.Header.{header}
use axiome_os.Net.Tcp.Wire.{fields_of, read_header-header}
use axiome_os.Net.Tcp.Loop.{loopback, loopback-Keeps}
use axiome_os.Net.Tcp.Sound.{IsSound, AreSound, AreSound-put}
use axiome_os.Net.Tcp.Sound.Timer.{AreSound-tcp_init}
use axiome_os.Net.Tcp.Table.{==_ne}
use axiome_os.Net.Tcp.Stream.{contents-rx_established, tcp_recv-contents}
use axiome_os.Net.Tcp.Reach.{Reachable-IsSound, start, next, socket}
use axiome_os.Net.Tcp.Handshake.{AreReady, arrive}
use axiome_os.Net.Tcp.Handshake.Opening.{established-send_syn}
use axiome_os.Net.Buf.{mbuf_total_len}

abbrev blank : Net
blank = record {
  socks = λ i. cleared;
  isn = 0x12345678;
  next_port = 49152;
  syn_wait = λ i. 0;
  sent = [];
}

abbrev client_sock : Sock
client_sock = record allocated { local_port = 50000; dev = some 1 }

abbrev server_sock : Sock
server_sock = record allocated { local_port = 80; dev = some 2; state = listen }

abbrev client : Net
client = put 0 client_sock blank

abbrev server : Net
server = put 0 server_sock blank

ready : AreReady 0 1 0 50000 80 7 1 client server
unfolding put find_from is_listen
ready = record {
  i_low = omega arith;
  i_open = refl;
  i_dev = refl;
  i_port = refl;
  p_sized = omega arith;
  q_sized = omega arith;
  a_sized = omega arith;
  b_sized = omega arith;
  alone = λ j low ne. rw (==_ne j 0 ne) refl;
  c_low = omega arith;
  free = refl;
  listener = refl;
  unknown = λ j low. elim (Bool-cases (j == 0)) [ inl e ↦ rw e refl | inr e ↦ rw e refl ];
}

abbrev after_syn : Net
after_syn = send_syn card 0 9 80 client

abbrev after_syn_ack : Net
after_syn_ack = arrive 2 7 after_syn server

abbrev client_open : Net
client_open = arrive 1 9 after_syn_ack after_syn

abbrev server_open : Net
server_open = arrive 2 7 client_open after_syn_ack

established-send_syn_example :
    ((client_open.socks 0).state ≡ established)
    × ((server_open.socks 1).state ≡ established)
    × ((client_open.socks 0).snd_nxt ≡ (server_open.socks 1).rcv_nxt)
    × ((server_open.socks 1).snd_nxt ≡ (client_open.socks 0).rcv_nxt)
    × ((client_open.socks 0).snd_una ≡ (client_open.socks 0).snd_nxt)
    × ((server_open.socks 1).snd_una ≡ (server_open.socks 1).snd_nxt)
    × ((server_open.socks 1).parent ≡ some 0)
established-send_syn_example = established-send_syn 0 1 0 50000 80 7 9 1 2 client server ready

-- A socket that holds three bytes.
abbrev three : Mbuf
three = record { bytes = 10 ∷ 20 ∷ 30 ∷ []; data_off = 0; len = 3 }

abbrev busy_sock : Sock
busy_sock = record allocated { state = established; rx_buf = three ∷ []; rx_len = 3; dev = some 1 }

abbrev busy : Net
busy = put 0 busy_sock (tcp_init blank)

busy_sock-IsSound : IsSound busy_sock
unfolding mbuf_total_len
busy_sock-IsSound = record {
  live = λ e. tt;
  chained = (omega arith, tt);
  rx_total = refl;
  rx_bound = omega arith;
  tx_count = refl;
}

busy_AreSound : AreSound busy
busy_AreSound =
    AreSound-put 0 busy_sock (tcp_init blank) busy_sock-IsSound (AreSound-tcp_init blank)

-- Socket 0 is connected and has nothing yet; the data comes in a round of the wait.
abbrev empty_sock : Sock
empty_sock = record allocated { state = established; dev = some 1 }

abbrev waiting_net : Net
waiting_net = put 0 empty_sock (tcp_init blank)

abbrev arrival : Net → Net
arrival n = put 0 busy_sock n

waiting_AreSound : AreSound waiting_net
unfolding mbuf_total_len
waiting_AreSound =
    AreSound-put 0 empty_sock (tcp_init blank)
      (record {
        live = λ e. tt;
        chained = tt;
        rx_total = refl;
        rx_bound = omega arith;
        tx_count = refl;
      })
      (AreSound-tcp_init blank)

waiting_open : in_table 0 waiting_net ≡ true
unfolding in_table put tcp_init
waiting_open = refl

waiting_ends : (tcp_wait_for (arrival ∷ []) (pred_tcp_recv 0) waiting_net).0 ≡ true
unfolding in_table tcp_wait_for pred_tcp_recv is_established put tcp_init
waiting_ends = refl

tcp_recv-contents_example :
    let waited = tcp_wait_for (arrival ∷ []) (pred_tcp_recv 0) waiting_net in
    ((tcp_recv (arrival ∷ []) 0 2 waiting_net).0
      ≡ some (take 2 (contents (waited.1.socks 0).rx_buf)))
    × (contents ((tcp_recv (arrival ∷ []) 0 2 waiting_net).1.socks 0).rx_buf
        ≡ drop 2 (contents (waited.1.socks 0).rx_buf))
tcp_recv-contents_example =
    tcp_recv-contents (arrival ∷ []) 0 2 waiting_net waiting_open waiting_ends
      (λ n v. AreSound-put 0 busy_sock n busy_sock-IsSound v, tt) waiting_AreSound

abbrev pushed : Fields
pushed = record { sport = 0; dport = 0; seq = 0; ack = 5; flags = 24; wnd = 100; ihl = 20 }

contents-rx_established_example :
    (contents ((rx_established card 0 pushed three busy).socks 0).rx_buf ≡ (
      if leb ((busy.socks 0).rx_len + 3) 65536
      then contents (busy.socks 0).rx_buf ++ valid three
      else contents (busy.socks 0).rx_buf))
    × (((rx_established card 0 pushed three busy).socks 0).rcv_nxt
        ≡ tcp_seq_add (busy.socks 0).rcv_nxt 3)
contents-rx_established_example =
    contents-rx_established 0 pushed three busy busy_AreSound refl refl (omega arith)

abbrev probe : Seg
probe = record {
  via = 1;
  to = 9;
  sport = 50000;
  dport = 80;
  seq = 7;
  ack = 8;
  flags = 16;
  wnd = 65535;
  body = [];
}

read_header-header_example :
    read_header
      (record { bytes = (5 ∷ []) ++ (header probe 0xABCD ++ (1 ∷ [])); data_off = 1; len = 21 })
    ≡ fields_of probe
read_header-header_example = read_header-header probe 0xABCD 21 (5 ∷ []) (1 ∷ []) (record {
  sport = omega arith;
  dport = omega arith;
  seq = omega arith;
  ack = omega arith;
  wnd = omega arith;
})

abbrev socket_open : Net
socket_open = (tcp_socket (some 1) (tcp_init blank)).1

Reachable-IsSound_example : IsSound (socket_open.socks 0)
Reachable-IsSound_example =
    Reachable-IsSound (loopback 3 9) (loopback-Keeps 3 9) socket_open 0
      (next (tcp_init blank) socket_open (start blank) (socket (some 1) (tcp_init blank)))

mbuf_append-contents_example : IsAppended (contents []) (1 ∷ 2 ∷ []) (mbuf_append 1 [] (1 ∷ 2 ∷ []))
mbuf_append-contents_example = mbuf_append-contents 1 [] (1 ∷ 2 ∷ []) tt
