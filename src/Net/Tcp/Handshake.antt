-- ===== src/Net/Tcp/Handshake.antt =====
-- The opening of a connection between two machines, each over a card.
pub mod Steps
pub mod Opening
use axiome_os.Prelude.{
  ℕ, zero, suc, ◌+◌, ◌%◌, ◌^◌, ◌<◌, ◌≤◌, ◌≡◌, ◌≢◌, refl, sym, ap, ◌∙◌, Bool, true, false, ◌&&◌,
  Option, none, some, List, [], ◌∷◌, ◌++◌, arith, ◌==◌, not, length, ltb,
}
use axiome_os.Net.Buf.{Mbuf}
use axiome_os.Net.Tcp.{
  State, syn_sent, syn_received, established, Sock, Seg, Net, put, card, tcp_seq_add, tcp_syn,
  tcp_ack, wnd_size, find, allocated, sock_max,
}
use axiome_os.Net.Tcp.Rx.{
  tcp_rx, rx_segment, behind_header, read_header, is_match, is_listener, is_listen,
}
use axiome_os.Net.Tcp.Api.{send_syn}
use axiome_os.Net.Tcp.Header.{header, be16, be32, le16}
use axiome_os.Net.Tcp.Loop.{frame}

unfoldable pub last : List Seg → Option Seg
last [] = none
last (s ∷ []) = some s
last (s ∷ t ∷ ts) = last (t ∷ ts)

unfoldable pub hand : ℕ → ℕ → Option Seg → Net → Net
hand dev src none n = n
hand dev src (some seg) n = tcp_rx card dev src (frame seg) n

-- The segment that the first machine has sent last comes to the second, from the address `src`.
unfoldable pub arrive : ℕ → ℕ → Net → Net → Net
arrive dev src from n = hand dev src (last from.sent) n

pub last_snoc : (ts : List Seg) (s : Seg) → last (ts ++ s ∷ []) ≡ some s
unfolding last
last_snoc [] s = refl
last_snoc (t ∷ []) s = refl
last_snoc (t ∷ u ∷ ts) s = last_snoc (u ∷ ts) s

-- Two machines before a connection from socket `i` of the first, which has chosen its port, to the
-- port `q` of the second: nothing else of the first machine uses the port, the second has a listener,
-- a free socket `c`, and no connection of that name.
pub record AreReady (i c l p q ip_a da : ℕ) (a b : Net) : Type 0 where
  pub i_low : i < sock_max
  pub i_open : (a.socks i).in_use ≡ true
  pub i_dev : (a.socks i).dev ≡ some da
  pub i_port : (a.socks i).local_port ≡ p
  pub p_sized : p < 2 ^ 16
  pub q_sized : q < 2 ^ 16
  pub a_sized : a.isn < 2 ^ 32
  pub b_sized : b.isn < 2 ^ 32
  pub alone :
      (j : ℕ) → j < sock_max → j ≢ i → (a.socks j).in_use && (a.socks j).local_port == p ≡ false
  pub c_low : c < sock_max
  pub free : find (λ j. not (b.socks j).in_use) ≡ some c
  pub listener :
      find (λ j. (b.socks j).in_use && is_listen (b.socks j).state && (b.socks j).local_port == q)
      ≡ some l
  pub unknown :
      (j : ℕ)
      → j < sock_max
      → (b.socks j).in_use
          && (b.socks j).local_port == q
          && (b.socks j).remote_port == p
          && (b.socks j).remote_ip == ip_a
        ≡ false
