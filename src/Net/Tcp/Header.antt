-- ===== src/Net/Tcp/Header.antt =====
-- The header that `tcp_send_seg` of kernel/tcp.c writes, byte by byte, with `tcp_csum`; and what
-- `tcp_rx` reads of it.
use axiome_os.Prelude.{ℕ, ◌+◌, ◌-◌, ◌/◌, ◌%◌, List, [], ◌∷◌, ◌++◌, length, if◌then◌else◌, ltb}
use axiome_os.Net.Buf.{Mbuf, mbuf_csum_acc}
use axiome_os.Net.Csum.{csum_acc, csum_finish}
use axiome_os.Net.Tcp.{Seg}

-- The bytes of `htobe16 v` and `htobe32 v` in memory.
unfoldable pub be16 : ℕ → List ℕ
be16 v = v / 256 % 256 ∷ v % 256 ∷ []

unfoldable pub be32 : ℕ → List ℕ
be32 v = v / 16777216 % 256 ∷ v / 65536 % 256 ∷ v / 256 % 256 ∷ v % 256 ∷ []

-- The bytes of a number that is stored as it is: an address, or the checksum.
unfoldable pub le16 : ℕ → List ℕ
le16 v = v % 256 ∷ v / 256 % 256 ∷ []

unfoldable pub le32 : ℕ → List ℕ
le32 v = v % 256 ∷ v / 256 % 256 ∷ v / 65536 % 256 ∷ v / 16777216 % 256 ∷ []

-- The header with the checksum given.
unfoldable pub header : Seg → ℕ → List ℕ
header s csum =
    be16 s.sport
    ++ (be16 s.dport
        ++ (be32 s.seq
            ++ (be32 s.ack ++ (0x50 ∷ s.flags ∷ be16 s.wnd ++ (le16 csum ++ (0 ∷ 0 ∷ []))))))

-- The checksum over the pseudo-header, the header with a checksum of 0, and the data of the chain.
pub tcp_csum : ℕ → ℕ → List ℕ → List Mbuf → ℕ → ℕ
tcp_csum src dst hdr body tcp_len =
    let sum =
      csum_acc (csum_acc (csum_acc (csum_acc 0 (le32 src)) (le32 dst)) (0 ∷ 6 ∷ []))
        (be16 (tcp_len % 65536)) in
    let with_hdr = csum_acc sum hdr in
    csum_finish (if ltb 20 tcp_len then mbuf_csum_acc with_hdr body 0 (tcp_len - 20) else with_hdr)

-- The header of a segment whose data is the chain `body`, from a device with address `src`.
pub sealed_header : ℕ → Seg → List Mbuf → List ℕ
sealed_header src s body = header s (tcp_csum src s.to (header s 0) body (20 + length s.body))
