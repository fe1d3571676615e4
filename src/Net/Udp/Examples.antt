-- ===== src/Net/Udp/Examples.antt =====
-- The properties of kernel/udp.c at two sockets, of which the second is bound to port 68.
use axiome_os.Prelude.{
  zero, ℕ, suc, ◌<◌, ◌≡◌, ◌≢◌, refl, true, false, some, [], ◌∷◌, arith, ◌==◌, if◌then◌else◌,
}
use axiome_os.Net.Buf.{Mbuf}
use axiome_os.Net.Udp.{
  Udp, cleared, udp_init, udp_socket, udp_bind, uses_port, udp_build_and_send, udp_recvfrom, udp_rx,
}
use axiome_os.Net.Udp.Laws.{udp_recvfrom-udp_build_and_send}
use axiome_os.Net.Udp.Table.{IsSound}
use axiome_os.Net.Udp.Ports.{start, next, socket, bind, sockets-IsSound}

abbrev boot : Udp
boot = record { socks = λ i. cleared; next_port = 49152; pool = 4 }

abbrev two_sockets : Udp
two_sockets = (udp_bind 1 68 (udp_socket (udp_socket (udp_init boot)).1).1).1

sockets-IsSound_example : IsSound two_sockets
sockets-IsSound_example =
    sockets-IsSound two_sockets
      (next _ _ (next _ _ (next _ _ (start boot) (socket _)) (socket _)) (bind 1 68 _))

abbrev pair : Udp
pair = record {
  socks = λ i.
      if i == 0
      then record cleared { in_use = true; local_port = 5000 }
      else if i == 1
      then record cleared { in_use = true; local_port = 68 }
      else cleared;
  next_port = 49152;
  pool = 4;
}

alone : (j : ℕ) → j < 32 → j ≢ 1 → uses_port pair 68 j ≡ false
alone zero lt ne = refl
alone (suc zero) lt ne = absurd (ne refl)
alone (suc (suc j)) lt ne =
    let first : (suc (suc j) == 0) ≡ false = ground arith in
    let second : (suc (suc j) == 1) ≡ false = ground arith in rw (first, second) refl

udp_recvfrom-udp_build_and_send_example :
    (m : Mbuf) × (k : Udp) × (udp_build_and_send 0 1 2 68 (7 ∷ 8 ∷ 9 ∷ []) pair ≡ (some m, k))
    × ((udp_recvfrom [] 1 2 (udp_rx 1 m k)).0 ≡ some (7 ∷ 8 ∷ [], 1, 5000))
udp_recvfrom-udp_build_and_send_example =
    udp_recvfrom-udp_build_and_send [] 0 1 2 1 2 5000 68 1 (7 ∷ 8 ∷ 9 ∷ []) pair refl (omega arith)
      (omega arith) (omega arith) (omega arith) (omega arith)
      (record { low = omega arith; used = refl; port_is = refl; alone = alone }) refl
