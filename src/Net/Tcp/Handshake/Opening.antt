-- ===== src/Net/Tcp/Handshake/Opening.antt =====
-- The whole opening.
use axiome_os.Prelude.{
  ℕ, ◌+◌, ◌%◌, ◌^◌, ◌<◌, ◌≡◌, ◌≢◌, refl, sym, ap, ◌∙◌, Bool, false, ◌&&◌, some, List, [], ◌∷◌, ◌++◌,
  arith, ◌==◌,
}
use axiome_os.Net.Tcp.{
  established, Sock, Seg, Net, put, card, tcp_seq_add, tcp_syn, tcp_ack, wnd_size, find, allocated,
}
use axiome_os.Net.Tcp.Rx.{is_match, is_listener, child_of, behind_header}
use axiome_os.Net.Tcp.Api.{send_syn}
use axiome_os.Net.Tcp.Wire.{fields_of}
use axiome_os.Net.Tcp.Loop.{frame}
use axiome_os.Net.Tcp.Table.{put_self, put_ne, logged, ==_self, find_only, find_misses}
use axiome_os.Net.Tcp.Handshake.{last, hand, arrive, last_snoc, AreReady}
use axiome_os.Net.Tcp.Handshake.Steps.{
  opened, bare, send_syn_lem, tcp_rx-frame, child, rx_segment_syn, rx_segment_syn_ack,
  rx_segment_ack,
}

-- What is on the wire arrives.
arrive_last :
    (dev src : ℕ) (from n : Net) (before : List Seg) (seg : Seg)
    → from.sent ≡ before ++ seg ∷ []
    → arrive dev src from n ≡ hand dev src (some seg) n
unfolding arrive
arrive_last dev src from n before seg e =
    ap (λ o. hand dev src o n) (ap last e ∙ last_snoc before seg)

seq_sized : (s n : ℕ) → tcp_seq_add s n < 2 ^ 32
unfolding tcp_seq_add
seq_sized s n = omega arith

and_false : (x y : Bool) → x ≡ false → x && y ≡ false
and_false x y e = rw e refl

module _ (i c l p q ip_a ip_b da db : ℕ) (a b : Net) (r : AreReady i c l p q ip_a da a b) where
  abbrev syn : Seg
  syn = bare da ip_b p q a.isn 0 tcp_syn

  abbrev syn_ack : Seg
  syn_ack = bare db ip_a q p b.isn (tcp_seq_add a.isn 1) (tcp_syn + tcp_ack)

  abbrev third : Seg
  third = bare da ip_b p q (tcp_seq_add a.isn 1) (tcp_seq_add b.isn 1) tcp_ack

  abbrev a1 : Net
  a1 = send_syn card i ip_b q a

  abbrev b1 : Net
  b1 = arrive db ip_a a1 b

  abbrev a2 : Net
  a2 = arrive da ip_b b1 a1

  abbrev b2 : Net
  b2 = arrive db ip_a a2 b1

  abbrev client : Sock
  client = opened ip_b q a (a.socks i)

  abbrev server : Sock
  server = record (child l db ip_a (fields_of syn) b.isn) { snd_nxt = tcp_seq_add b.isn 1 }

  client_at : a1.socks i ≡ client
  client_at = ap (λ n. n.socks i) (send_syn_lem i ip_b q da a r.i_dev) ∙ put_self i _ _

  a1_sent : a1.sent ≡ a.sent ++ syn ∷ []
  unfolding put
  a1_sent =
      ap (λ n. n.sent) (send_syn_lem i ip_b q da a r.i_dev)
      ∙ ap (λ k. a.sent ++ bare da ip_b k q a.isn 0 tcp_syn ∷ []) r.i_port

  a1_other : (j : ℕ) → j ≢ i → a1.socks j ≡ a.socks j
  a1_other j ne =
      ap (λ n. n.socks j) (send_syn_lem i ip_b q da a r.i_dev)
      ∙ put_ne i j _ _ ne
      ∙ put_ne i j _ _ ne

  b1_is :
      b1
      ≡ put c server (
          logged syn_ack (
            put c
              (child l db ip_a (fields_of syn) b.isn)
              (record (put c allocated b) { isn = (b.isn + 1000) % 2 ^ 32 })))
  unfolding hand is_match is_listener fields_of
  b1_is =
      arrive_last db ip_a a1 b a.sent syn a1_sent
      ∙ tcp_rx-frame db ip_a da ip_b p q a.isn 0 tcp_syn b (record {
        sport = r.p_sized;
        dport = r.q_sized;
        seq = r.a_sized;
        ack = omega arith;
        wnd = omega arith;
      })
      ∙ rx_segment_syn db ip_a l c (fields_of syn) (behind_header 20 (frame syn)) b
          (find_misses (is_match ip_a (fields_of syn) b) r.unknown) r.listener r.free

  server_at : b1.socks c ≡ server
  server_at = ap (λ n. n.socks c) b1_is ∙ put_self c _ _

  b1_sent : b1.sent ≡ b.sent ++ syn_ack ∷ []
  unfolding put fields_of
  b1_sent = ap (λ n. n.sent) b1_is

  b1_other : (j : ℕ) → j ≢ c → b1.socks j ≡ b.socks j
  b1_other j ne =
      ap (λ n. n.socks j) b1_is ∙ put_ne c j _ _ ne ∙ put_ne c j _ _ ne ∙ put_ne c j allocated b ne

  -- The test by which a socket is found for a segment from the port `sport` to the port `dport`.
  abbrev names : ℕ → ℕ → ℕ → Sock → Bool
  names dport sport src s =
      s.in_use && s.local_port == dport && s.remote_port == sport && s.remote_ip == src

  to_client : find (is_match ip_b (fields_of syn_ack) a1) ≡ some i
  unfolding is_match fields_of
  to_client =
      find_only (is_match ip_b (fields_of syn_ack) a1) i r.i_low
        (ap (names p q ip_b) client_at
          ∙ rw (r.i_open, r.i_port, ==_self p, ==_self q, ==_self ip_b) refl)
        (λ j low ne.
          ap (names p q ip_b) (a1_other j ne) ∙ and_false _ _ (and_false _ _ (r.alone j low ne)))

  a2_is :
      a2
      ≡ logged third (
          put i
            (record client {
              rcv_nxt = tcp_seq_add b.isn 1;
              snd_una = tcp_seq_add a.isn 1;
              state = established;
            })
            a1)
  unfolding hand fields_of child_of
  a2_is =
      arrive_last da ip_b b1 a1 b.sent syn_ack b1_sent
      ∙ tcp_rx-frame da ip_b db ip_a q p b.isn (tcp_seq_add a.isn 1) (tcp_syn + tcp_ack) a1
          (record {
            sport = r.q_sized;
            dport = r.p_sized;
            seq = r.b_sized;
            ack = seq_sized a.isn 1;
            wnd = omega arith;
          })
      ∙ rx_segment_syn_ack da ip_b i da db ip_a q p b.isn (tcp_seq_add a.isn 1)
          (behind_header 20 (frame syn_ack)) a1 client to_client client_at refl r.i_dev
      ∙ ap
          (λ k. logged (bare da ip_b k q (tcp_seq_add a.isn 1) (tcp_seq_add b.isn 1) tcp_ack) (
            put i
              (record client {
                rcv_nxt = tcp_seq_add b.isn 1;
                snd_una = tcp_seq_add a.isn 1;
                state = established;
              })
              a1))
          r.i_port

  a2_sent : a2.sent ≡ a1.sent ++ third ∷ []
  unfolding put
  a2_sent = ap (λ n. n.sent) a2_is

  to_server : find (is_match ip_a (fields_of third) b1) ≡ some c
  unfolding is_match fields_of child_of
  to_server =
      find_only (is_match ip_a (fields_of third) b1) c r.c_low
        (ap (names q p ip_a) server_at ∙ rw (==_self p, ==_self q, ==_self ip_a) refl)
        (λ j low ne. ap (names q p ip_a) (b1_other j ne) ∙ r.unknown j low)

  b2_is :
      b2
      ≡ put c
          (record server { snd_una = tcp_seq_add b.isn 1; snd_wnd = wnd_size; state = established })
          b1
  unfolding hand fields_of child_of
  b2_is =
      arrive_last db ip_a a2 b1 a1.sent third a2_sent
      ∙ tcp_rx-frame db ip_a da ip_b p q (tcp_seq_add a.isn 1) (tcp_seq_add b.isn 1) tcp_ack b1
          (record {
            sport = r.p_sized;
            dport = r.q_sized;
            seq = seq_sized a.isn 1;
            ack = seq_sized b.isn 1;
            wnd = omega arith;
          })
      ∙ rx_segment_ack db ip_a c da ip_b p q (tcp_seq_add a.isn 1) (tcp_seq_add b.isn 1)
          (behind_header 20 (frame third)) b1 server to_server server_at refl

-- Two machines over cards, ready for a connection from socket `i` of the first to a listener of the
-- second: when the SYN of `tcp_connect` arrives, then what is answered to it, and then what is
-- answered to that, socket `i` and the child `c` of the listener are both established, each expects
-- the number that the other sends next, and all that each has sent is acknowledged.
pub established-send_syn :
    (i c l p q ip_a ip_b da db : ℕ) (a b : Net)
    → AreReady i c l p q ip_a da a b
    → let a1 = send_syn card i ip_b q a in
      let b1 = arrive db ip_a a1 b in
      let a2 = arrive da ip_b b1 a1 in
      let b2 = arrive db ip_a a2 b1 in
      ((a2.socks i).state ≡ established)
      × ((b2.socks c).state ≡ established)
      × ((a2.socks i).snd_nxt ≡ (b2.socks c).rcv_nxt)
      × ((b2.socks c).snd_nxt ≡ (a2.socks i).rcv_nxt)
      × ((a2.socks i).snd_una ≡ (a2.socks i).snd_nxt)
      × ((b2.socks c).snd_una ≡ (b2.socks c).snd_nxt)
      × ((b2.socks c).parent ≡ some l)
unfolding child_of fields_of
established-send_syn i c l p q ip_a ip_b da db a b r =
    let at_a = ap (λ n. n.socks i) (a2_is i c l p q ip_a ip_b da db a b r) ∙ put_self i _ _ in
    let at_b = ap (λ n. n.socks c) (b2_is i c l p q ip_a ip_b da db a b r) ∙ put_self c _ _ in
    (
      ap (λ s. s.state) at_a,
      ap (λ s. s.state) at_b,
      ap (λ s. s.snd_nxt) at_a ∙ sym (ap (λ s. s.rcv_nxt) at_b),
      ap (λ s. s.snd_nxt) at_b ∙ sym (ap (λ s. s.rcv_nxt) at_a),
      ap (λ s. s.snd_una) at_a ∙ sym (ap (λ s. s.snd_nxt) at_a),
      ap (λ s. s.snd_una) at_b ∙ sym (ap (λ s. s.snd_nxt) at_b),
      ap (λ s. s.parent) at_b,
    )
