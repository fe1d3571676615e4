-- ===== src/Net/Tcp/Loop.antt =====
-- The loopback device under TCP: its `tx` hands the frame to the receiving side within the call
-- (kernel/loopback.c), so that `tcp_rx` is entered again from `tcp_send_seg`.
use axiome_os.Prelude.{
  ℕ, zero, suc, ◌+◌, ◌≤◌, ◌≡◌, refl, true, false, List, ◌++◌, length, length-append, replicate,
  arith, ◌==◌, ltb, not_lt, if◌then◌else◌,
}
use axiome_os.Net.Buf.{Mbuf, data_size}
use axiome_os.Net.Tcp.{Seg, Carrier}
use axiome_os.Net.Tcp.Header.{header, be16, be32, le16}
use axiome_os.Net.Tcp.Rx.{tcp_rx, read_header, byte_at}
use axiome_os.Net.Tcp.Sound.{Keeps, branch_snd}
use axiome_os.Net.Tcp.Sound.Rx.{IsReceived, AreSound-tcp_rx}

-- The headers of the layers below, which the receiving side has taken off.
abbrev pub link_header : List ℕ
link_header = replicate 34 0

-- The one buffer that `netdev_rx_coalesce` makes of the frame, behind the headers taken off; the
-- bytes of those headers are left out, and the checksum, which `tcp_rx` does not read, is 0.
unfoldable pub frame : Seg → Mbuf
frame seg = record {
  bytes = link_header ++ (header seg 0 ++ seg.body);
  data_off = length link_header;
  len = length (header seg 0 ++ seg.body);
}

-- The device `lo` has the address `ip`. A frame that does not fit in a buffer is refused by
-- `ipv4_send`, or dropped by `netdev_rx_coalesce` where only the last header is too much; one to
-- another address is dropped by `ipv4_rx`. Fuel bounds how often the receiving
-- side is entered again; without fuel the segment is lost.
pub loopback : ℕ → ℕ → Carrier
loopback zero ip seg n = (true, n)
loopback (suc fuel) ip seg n =
    let m = frame seg in
    if ltb data_size (40 + length seg.body)
    then (false, n)
    else if ltb data_size (54 + length seg.body)
    then (true, n)
    else if seg.to == ip
    then (true, tcp_rx (loopback fuel ip) seg.via ip m n)
    else (true, n)

length-header : (s : Seg) (c : ℕ) → length (header s c) ≡ 20
unfolding header be16 be32 le16
length-header s c = refl

ihl-frame : (s : Seg) → (read_header (frame s)).ihl ≡ 20
unfolding read_header frame header be16 be32 le16 byte_at
ihl-frame s = refl

frame-IsReceived : (s : Seg) → length s.body ≤ data_size → IsReceived (frame s)
unfolding frame
frame-IsReceived s h =
    let e = length-append (link_header) (header s 0 ++ s.body) in
    let f = length-append (header s 0) s.body in
    (omega (arith, e), omega (arith, e, f, length-header s 0))

fits_header : (s : Seg) → (read_header (frame s)).ihl ≤ (frame s).len
unfolding frame
fits_header s = omega (arith, ihl-frame s, length-append (header s 0) s.body, length-header s 0)

-- For each fuel and address: the loopback device keeps every socket sound, through all the segments
-- that it delivers while one is being sent.
pub loopback-Keeps : (fuel ip : ℕ) → Keeps (loopback fuel ip)
unfolding loopback
loopback-Keeps zero ip seg n h = h
loopback-Keeps (suc fuel) ip seg n h =
    branch_snd (ltb data_size (40 + length seg.body)) (false, n) _ (λ e. h)
      (λ e.
        branch_snd (ltb data_size (54 + length seg.body)) (true, n) _ (λ d. h)
          (λ d.
            let fits = not_lt data_size (54 + length seg.body) d in
            branch_snd (seg.to == ip) (true, _) (true, n)
              (λ f.
                AreSound-tcp_rx (loopback fuel ip) (loopback-Keeps fuel ip) seg.via ip (frame seg) n
                  (frame-IsReceived seg (omega arith)) (fits_header seg) h)
              (λ f. h)))
