-- ===== src/Net/Tcp/Wire.antt =====
-- Reading back the header that is written.
use axiome_os.Prelude.{
  ℕ, suc, ◌+◌, ◌*◌, ◌/◌, ◌%◌, ◌^◌, ◌<◌, ◌≡◌, refl, ap, ◌∙◌, List, [], ◌∷◌, ◌++◌, length, arith,
  get_or,
}
use axiome_os.Net.Tcp.{Seg}
use axiome_os.Net.Tcp.Header.{header, be16, be32, le16}
use axiome_os.Net.Tcp.Rx.{Fields, read_header, byte_at, word_at}

-- The fields of a header have the widths of the format.
pub record IsSized (s : Seg) : Type 0 where
  pub sport : s.sport < 2 ^ 16
  pub dport : s.dport < 2 ^ 16
  pub seq : s.seq < 2 ^ 32
  pub ack : s.ack < 2 ^ 32
  pub wnd : s.wnd < 2 ^ 16

get_or_past :
    (before xs : List ℕ) (i : ℕ) → get_or (before ++ xs) (length before + i) 0 ≡ get_or xs i 0
get_or_past [] xs i = ap (λ k. get_or xs k 0) (omega arith)
get_or_past (b ∷ before) xs i =
    ap (λ k. get_or (b ∷ (before ++ xs)) k 0)
      (let e : suc (length before) + i ≡ suc (length before + i) = omega arith in e)
    ∙ get_or_past before xs i

word : (v : ℕ) → v < 2 ^ 16 → v / 256 % 256 * 256 + v % 256 ≡ v
word v h = omega arith

dword :
    (v : ℕ)
    → v < 2 ^ 32
    → (v / 16777216 % 256 * 256 + v / 65536 % 256) * 65536 + (v / 256 % 256 * 256 + v % 256) ≡ v
dword v h = omega arith

unfoldable pub fields_of : Seg → Fields
fields_of s = record {
  sport = s.sport;
  dport = s.dport;
  seq = s.seq;
  ack = s.ack;
  flags = s.flags;
  wnd = s.wnd;
  ihl = 20;
}

-- For a segment whose fields have their widths, wherever its header stands in the buffer and whatever
-- its checksum is: `tcp_rx` reads of the header that `tcp_send_seg` writes the same ports, numbers,
-- flags and window, and a length of 20 bytes.
pub read_header-header :
    (s : Seg) (csum len : ℕ) (before after : List ℕ)
    → IsSized s
    → read_header
        (record { bytes = before ++ (header s csum ++ after); data_off = length before; len = len })
      ≡ fields_of s
unfolding read_header byte_at word_at header be16 be32 le16 fields_of
read_header-header s csum len before after h = simp (get_or_past before) (
    rw
      (
        word s.sport h.sport,
        word s.dport h.dport,
        dword s.seq h.seq,
        dword s.ack h.ack,
        word s.wnd h.wnd,
      )
      refl)
