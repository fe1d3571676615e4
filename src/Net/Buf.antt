-- ===== src/Net/Buf.antt =====
-- kernel/net_buf.c: chains of network buffers. A chain is the list of its buffers along `next_seg`;
-- of the pool, the number of free buffers counts.
pub mod Laws
pub mod Append
use axiome_os.Prelude.{
  ℕ, zero, suc, ◌+◌, ◌-◌, ◌≤◌, ◌≡◌, Bool, true, false, List, [], ◌∷◌, ◌++◌, ltb, ◌==◌,
  if◌then◌else◌, length, take, drop, replicate,
}
use axiome_os.Net.Csum.{csum_acc}

abbrev pub data_size : ℕ
data_size = 2048

-- `bytes` is the data region. The physical address, the count of references of a buffer that is not
-- shared, and the sender's address are left out.
pub record Mbuf : Type 0 where
  pub bytes : List ℕ
  pub data_off : ℕ
  pub len : ℕ

-- What `mbuf_alloc0` gives: a cleared buffer and the rest of the pool, if the pool has one.
abbrev pub fresh : Mbuf
fresh = record { bytes = replicate data_size 0; data_off = 0; len = 0 }

unfoldable pub mbuf_total_len : List Mbuf → ℕ
mbuf_total_len [] = 0
mbuf_total_len (m ∷ ms) = m.len + mbuf_total_len ms

-- The bytes copied, with `room` bytes left in the destination.
pub mbuf_copyout : ℕ → List Mbuf → ℕ → List ℕ
mbuf_copyout room [] off = []
mbuf_copyout room (m ∷ ms) off =
    let n = if ltb room (m.len - off) then room else m.len - off in
    let copied = take n (drop (m.data_off + off) m.bytes) ++ mbuf_copyout (room - n) ms 0 in
    let skipped = mbuf_copyout room ms (off - m.len) in
    if room == 0 then [] else if ltb off m.len then copied else skipped

pub mbuf_csum_acc : ℕ → List Mbuf → ℕ → ℕ → ℕ
mbuf_csum_acc sum [] off len = sum
mbuf_csum_acc sum (m ∷ ms) off len =
    let avail = m.len - off in
    let n = if ltb len avail then len else avail in
    let added =
      mbuf_csum_acc (csum_acc sum (take n (drop (m.data_off + off) m.bytes))) ms 0 (len - n) in
    let skipped = mbuf_csum_acc sum ms (off - m.len) len in
    if len == 0 then sum else if ltb off m.len then added else skipped

-- The loop of `tcp_recv` that takes `n` bytes off a chain.
pub mbuf_consume : ℕ → List Mbuf → List Mbuf
mbuf_consume n [] = []
mbuf_consume n (m ∷ ms) =
    let rest = mbuf_consume (n - m.len) ms in
    if n == 0
    then m ∷ ms
    else if ltb n m.len
    then record m { data_off = m.data_off + n; len = m.len - n } ∷ ms
    else rest

-- `memcpy(tail->data + tail->len, p, n)`, with the new length.
unfoldable pub fill : Mbuf → List ℕ → Mbuf
fill m s = record m {
  bytes = take m.len m.bytes ++ (s ++ drop (m.len + length s) m.bytes);
  len = m.len + length s;
}

-- What a call leaves: the chain, the free buffers, and whether it succeeds.
pub record Appended : Type 0 where
  pub chain : List Mbuf
  pub free : ℕ
  pub done : Bool

abbrev pub behind : Mbuf → Appended → Appended
behind m a = record a { chain = m ∷ a.chain }

-- The loop from the last buffer on, on fuel; each round copies a byte at least.
pub append_loop : ℕ → ℕ → Mbuf → List ℕ → Appended
append_loop zero free tail s = record { chain = tail ∷ []; free = free; done = true }
append_loop (suc fuel) free tail s =
    let avail = data_size - tail.len in
    let here = append_loop fuel free (fill tail (take avail s)) (drop avail s) in
    let next =
      behind tail
        (append_loop fuel (free - 1) (fill fresh (take data_size s)) (drop data_size s)) in
    if length s == 0
    then record { chain = tail ∷ []; free = free; done = true }
    else if avail == 0
    then (if free == 0 then record { chain = tail ∷ []; free = 0; done = false } else next)
    else here

-- The walk to the last buffer.
pub append_chain : ℕ → Mbuf → List Mbuf → List ℕ → Appended
append_chain free m [] s = append_loop (length s) free m s
append_chain free m (n ∷ ms) s = behind m (append_chain free n ms s)

pub mbuf_append : ℕ → List Mbuf → List ℕ → Appended
mbuf_append free (m ∷ ms) s = append_chain free m ms s
mbuf_append free [] s =
    if length s == 0
    then record { chain = []; free = free; done = true }
    else if free == 0
    then record { chain = []; free = 0; done = false }
    else append_loop (length s) (free - 1) fresh s
