-- ===== src/Journal.antt =====
-- kernel/journal.c: the ring of log bytes and what is written of it to the file.
pub mod Writes
pub mod Laws
mod Examples
use axiome_os.Prelude.{
  ℕ, zero, suc, ◌+◌, ◌-◌, ◌%◌, ◌^◌, Bool, true, false, not, ◌&&◌, ◌||◌, Option, none, some, List,
  [], ◌∷◌, ◌++◌, ltb, ◌==◌, if◌then◌else◌, length,
}

abbrev pub ring_size : ℕ
ring_size = 65536

-- The static variables, with the ring as a function of the index; `file` is whether there is a file.
-- `calls` records the offset and the bytes of each write to the file, the last one last.
pub record Journal : Type 0 where
  pub ring : ℕ → ℕ
  pub prod : ℕ
  pub flushed : ℕ
  pub file : Bool
  pub off : ℕ
  pub ready : Bool
  pub calls : List (ℕ × List ℕ)

abbrev pub put_cell : Journal → ℕ → Journal
put_cell j c = record j {
  ring = λ i. if i == j.prod % ring_size then c else j.ring i;
  prod = (j.prod + 1) % 2 ^ 64;
}

pub ring_append : Journal → List ℕ → Journal
ring_append j [] = j
ring_append j (c ∷ s) = ring_append (put_cell j c) s

-- `journal_ring + start`, of `n` bytes.
pub ring_bytes : (ℕ → ℕ) → ℕ → ℕ → List ℕ
ring_bytes ring start zero = []
ring_bytes ring start (suc n) = ring start ∷ ring_bytes ring (start + 1) n

-- A write, of which the file takes `taken off bytes` bytes.
pub write_call : (ℕ → List ℕ → ℕ) → Journal → List ℕ → Journal
write_call taken j bytes = record j {
  off = (j.off + taken j.off bytes) % 2 ^ 64;
  calls = j.calls ++ (j.off, bytes) ∷ [];
}

-- What is written once the bytes to write, `pending` from the index `from` on, are known.
pub write_pending : (ℕ → List ℕ → ℕ) → Journal → ℕ → ℕ → Journal
write_pending taken j from pending =
    let start = from % ring_size in
    let first = if ltb ring_size (start + pending) then ring_size - start else pending in
    let j1 = write_call taken j (ring_bytes j.ring start first) in
    let j2 = write_call taken j1 (ring_bytes j.ring 0 (pending - first)) in
    let all = taken j.off (ring_bytes j.ring start first) == first in
    record (if ltb first pending && all then j2 else j1) { flushed = (from + pending) % 2 ^ 64 }

pub journal_flush_locked : (ℕ → List ℕ → ℕ) → Journal → Journal
journal_flush_locked taken j =
    let pending = (j.prod + 2 ^ 64 - j.flushed) % 2 ^ 64 in
    if not j.ready || not j.file
    then j
    else if ltb ring_size pending
    then write_pending taken j ((j.prod + 2 ^ 64 - ring_size) % 2 ^ 64) ring_size
    else if pending == 0
    then j
    else write_pending taken j j.flushed pending

-- `in_irq` and `locked` are the interrupt flag and whether the lock is taken.
pub journal_emit : (ℕ → List ℕ → ℕ) → Bool → Bool → Journal → List ℕ → Journal
journal_emit taken in_irq locked j s =
    if length s == 0
    then j
    else if in_irq
    then (if locked then j else ring_append j s)
    else journal_flush_locked taken (ring_append j s)

-- `found` is the size of the file that the lookup finds, if it finds one.
pub journal_init_late : (ℕ → List ℕ → ℕ) → Option ℕ → Journal → Journal
journal_init_late taken none j = j
journal_init_late taken (some size) j =
    if j.file
    then j
    else journal_flush_locked taken (record j { file = true; off = size; ready = true })

pub journal_clear : Journal → Journal
journal_clear j = record j { prod = 0; flushed = 0; off = if j.file then 0 else j.off }
