-- ===== src/Journal/Laws.antt =====
-- The ring holds the end of the log, and a flush writes the bytes that were not written yet.
use axiome_os.Prelude.{
  ℕ, zero, suc, ◌+◌, ◌-◌, ◌*◌, ◌/◌, ◌%◌, ◌^◌, ◌≤◌, ◌<◌, ◌≡◌, refl, sym, ap, ◌∙◌, inl, inr, Bool,
  true, false, not, ◌||◌, List, [], ◌∷◌, ◌++◌, ltb, ◌==◌, if◌then◌else◌, length, length-append,
  length-drop, take_all, get_or, take, drop, arith, Bool-cases, not_lt, ==_iff, ◌≢◌, lt_at,
}
use mathlib.Core.Path.{subst}
use mathlib.Core.List.{append-nil, append_assoc}
use axiome_os.Journal.Writes.{applied, all_taken, drop-all, IsAtEnd, applied-write_call}
use axiome_os.Journal.{
  Journal, ring_size, put_cell, ring_append, ring_bytes, write_call, write_pending,
  journal_flush_locked,
}

-- The ring holds the last 65536 bytes of the log, and the producer's index is the log's length.
pub record Holds (j : Journal) (log : List ℕ) : Type 0 where
  pub count : j.prod ≡ length log
  pub behind : j.flushed ≤ length log
  pub cells :
      (i : ℕ)
      → i < length log
      → length log ≤ i + ring_size
      → j.ring (i % ring_size) ≡ get_or log i 0

get_or-append_left :
    (xs ys : List ℕ) (i : ℕ) → i < length xs → get_or (xs ++ ys) i 0 ≡ get_or xs i 0
get_or-append_left [] ys i h = absurd (omega arith)
get_or-append_left (x ∷ xs) ys zero h = refl
get_or-append_left (x ∷ xs) ys (suc i) h = get_or-append_left xs ys i (omega arith)

get_or-append_last : (xs : List ℕ) (c : ℕ) → get_or (xs ++ c ∷ []) (length xs) 0 ≡ c
get_or-append_last [] c = refl
get_or-append_last (x ∷ xs) c = get_or-append_last xs c

append_snoc : (xs : List ℕ) (c : ℕ) (ys : List ℕ) → (xs ++ c ∷ []) ++ ys ≡ xs ++ c ∷ ys
append_snoc [] c ys = refl
append_snoc (x ∷ xs) c ys = ap (λ r. x ∷ r) (append_snoc xs c ys)

differ :
    {i n p : ℕ} → i < n → n + 1 ≤ i + ring_size → p ≡ n → i % ring_size == p % ring_size ≡ false
differ lt le e = ground arith

clash : (b : Bool) → b ≡ true → b ≢ false
clash true h k = ground arith
clash false h k = ground arith

Holds-cell :
    (j : Journal) (log : List ℕ) (c : ℕ)
    → Holds j log
    → length log + 1 < 2 ^ 64
    → Holds (put_cell j c) (log ++ c ∷ [])
Holds-cell j log c h lt =
    let n = length-append log (c ∷ []) in
    record {
      count = omega (arith, h.count, n);
      behind = omega (arith, h.behind, n);
      cells = λ i low high. elim (Bool-cases (i == length log)) [
        | inl e ↦
            let at : i ≡ length log = (==_iff i (length log)).0 e in
            let same : i % ring_size == j.prod % ring_size ≡ true =
              (==_iff _ _).1 (omega (arith, at, h.count)) in
            rw same (sym (ap (λ k. get_or (log ++ c ∷ []) k 0) at ∙ get_or-append_last log c))
        | inr e ↦
            let ne : i ≢ length log = λ at. clash _ ((==_iff i (length log)).1 at) e in
            let other : i % ring_size == j.prod % ring_size ≡ false =
              differ (omega (arith, n, low, ne)) (omega (arith, n, high)) h.count in
            rw other (
              h.cells i (omega (arith, n, low, ne)) (omega (arith, n, high))
              ∙ sym (get_or-append_left log (c ∷ []) i (omega (arith, n, low, ne))))
      ];
    }

-- Appending to a journal whose ring holds the end of a log, where both together stay below 2 ^ 64
-- bytes, leaves a journal whose ring holds the end of the log with the new bytes behind it.
pub Holds-ring_append :
    (s : List ℕ) (j : Journal) (log : List ℕ)
    → Holds j log
    → length log + length s < 2 ^ 64
    → Holds (ring_append j s) (log ++ s)
unfolding ring_append
Holds-ring_append [] j log h lt = subst (Holds j) (sym (append-nil log)) h
Holds-ring_append (c ∷ s) j log h lt =
    subst (Holds (ring_append (put_cell j c) s)) (append_snoc log c s) (
      Holds-ring_append s (put_cell j c) (log ++ c ∷ []) (Holds-cell j log c h (omega arith))
        (omega (arith, length-append log (c ∷ []))))

drop_cons : (xs : List ℕ) (k : ℕ) → k < length xs → drop k xs ≡ get_or xs k 0 ∷ drop (suc k) xs
drop_cons [] k h = absurd (omega arith)
drop_cons (x ∷ xs) zero h = refl
drop_cons (x ∷ xs) (suc k) h = drop_cons xs k (omega arith)

take-drop : (xs : List ℕ) (n : ℕ) → take n xs ++ drop n xs ≡ xs
take-drop xs zero = refl
take-drop [] (suc n) = refl
take-drop (x ∷ xs) (suc n) = ap (λ r. x ∷ r) (take-drop xs n)

-- A stretch of the ring that does not pass its end holds the log's bytes.
ring_bytes-log :
    (j : Journal) (log : List ℕ) (n k p q : ℕ)
    → Holds j log
    → k ≡ q * ring_size + p
    → p + n ≤ ring_size
    → k + n ≤ length log
    → length log ≤ k + ring_size
    → ring_bytes j.ring p n ≡ take n (drop k log)
unfolding ring_bytes
ring_bytes-log j log zero k p q h e fits room recent = refl
ring_bytes-log j log (suc n) k p q h e fits room recent =
    let m : k % ring_size ≡ p = omega arith in
    let ih =
      ring_bytes-log j log n (suc k) (p + 1) q h (omega arith) (omega arith) (omega arith)
        (omega arith) in
    let head : j.ring p ≡ get_or log k 0 = ap j.ring (sym m) ∙ h.cells k (omega arith) recent in
    rw (drop_cons log k (omega arith), head, ih) refl

length-ring_bytes : (ring : ℕ → ℕ) (p n : ℕ) → length (ring_bytes ring p n) ≡ n
unfolding ring_bytes
length-ring_bytes ring p zero = refl
length-ring_bytes ring p (suc n) = ap suc (length-ring_bytes ring (p + 1) n)

drop-nil : (m : ℕ) → drop {A = ℕ} m [] ≡ []
drop-nil zero = refl
drop-nil (suc m) = refl

drop-drop : (n m : ℕ) (xs : List ℕ) → drop m (drop n xs) ≡ drop (n + m) xs
drop-drop zero m xs = ap (λ k. drop k xs) (omega arith)
drop-drop (suc n) m [] = drop-nil m ∙ sym (drop-nil (suc n + m))
drop-drop (suc n) m (x ∷ xs) =
    drop-drop n m xs
    ∙ ap (λ k. drop k (x ∷ xs)) (let e : suc (n + m) ≡ suc n + m = omega arith in e)

-- Both parts of what is written are the end of the log.
two_parts :
    (j : Journal) (log : List ℕ) (from : ℕ)
    → Holds j log
    → length log ≤ from + ring_size
    → from + (ring_size - from % ring_size) ≤ length log
    → ring_bytes j.ring (from % ring_size) (ring_size - from % ring_size)
        ++ ring_bytes j.ring 0 (length log - from - (ring_size - from % ring_size))
      ≡ drop from log
two_parts j log from h recent wraps =
    let first = ring_size - from % ring_size in
    let rest = length log - from - first in
    let one =
      ring_bytes-log j log first from (from % ring_size) (from / ring_size) h (omega arith)
        (omega arith) wraps recent in
    let two =
      ring_bytes-log j log rest (from + first) 0 (from / ring_size + 1) h (omega arith)
        (omega arith) (omega arith) (omega arith) in
    let all =
      take_all rest (drop (from + first) log) (omega (arith, length-drop (from + first) log)) in
    rw (one, two, all, sym (drop-drop from first log)) (take-drop (drop from log) first)

one_part :
    (j : Journal) (log : List ℕ) (from : ℕ)
    → Holds j log
    → length log ≤ from + ring_size
    → from ≤ length log
    → from % ring_size + (length log - from) ≤ ring_size
    → ring_bytes j.ring (from % ring_size) (length log - from) ≡ drop from log
one_part j log from h recent le fits =
    let n = length log - from in
    ring_bytes-log j log n from (from % ring_size) (from / ring_size) h (omega arith) fits
      (omega arith) recent
    ∙ take_all n (drop from log) (omega (arith, length-drop from log))

-- What a flush of the bytes from `from` on makes of the file and the indices.
Flushed : List ℕ → Journal → List ℕ → ℕ → Journal → Type 0
Flushed file j log from k =
    (applied file k.calls ≡ applied file j.calls ++ drop from log)
    × IsAtEnd file k
    × (k.flushed ≡ length log)

write_pending_lem :
    (file : List ℕ) (j : Journal) (log : List ℕ) (from pending : ℕ)
    → Holds j log
    → IsAtEnd file j
    → length (applied file j.calls) + length log < 2 ^ 64
    → from ≤ length log
    → length log ≤ from + ring_size
    → pending ≡ length log - from
    → Flushed file j log from (write_pending all_taken j from pending)
unfolding write_pending write_call all_taken IsAtEnd Flushed
write_pending_lem file j log from pending h at lt le recent p =
    let start = from % ring_size in
    let short = ring_size - start in
    elim (Bool-cases (ltb ring_size (start + pending))) [
      | inl e ↦
          let wraps = lt_at ring_size (start + pending) e in
          let more : ltb short pending ≡ true = ground arith in
          let one = ring_bytes j.ring start short in
          let two = ring_bytes j.ring 0 (pending - short) in
          let len1 : length one ≡ short = length-ring_bytes j.ring start short in
          let len2 : length two ≡ pending - short = length-ring_bytes j.ring 0 (pending - short) in
          let whole : length one == short ≡ true = (==_iff _ _).1 len1 in
          let parts =
            ap (λ q. one ++ ring_bytes j.ring 0 (q - short)) p
            ∙ two_parts j log from h recent (omega (arith, wraps, p)) in
          let first = applied-write_call file j one at (omega (arith, len1)) in
          let size = ap length first.0 ∙ length-append (applied file j.calls) one in
          let second =
            applied-write_call file (write_call all_taken j one) two first.1
              (omega (arith, len1, len2, size, p)) in
          rw (e, more, whole)
            (
              second.0
                  ∙ ap (λ r. r ++ two) first.0
                  ∙ append_assoc (applied file j.calls) one two
                  ∙ ap (λ r. applied file j.calls ++ r) parts,
              second.1,
              omega arith,
            )
      | inr e ↦
          let none_left : ltb pending pending ≡ false = ground arith in
          let fits = not_lt ring_size (start + pending) e in
          let one = ring_bytes j.ring start pending in
          let len1 : length one ≡ pending = length-ring_bytes j.ring start pending in
          let part =
            ap (λ q. ring_bytes j.ring start q) p
            ∙ one_part j log from h recent le (omega (arith, fits, p)) in
          let first = applied-write_call file j one at (omega (arith, len1, p)) in
          rw (e, none_left)
            (first.0 ∙ ap (λ r. applied file j.calls ++ r) part, first.1, omega arith)
    ]

-- For each journal with a file, whose ring holds the end of a log and whose offset is the end of the
-- file that its writes, each at its offset, have made, and a file that takes all it is given, where
-- the file's size and the log's together are less than 2 ^ 64: a flush appends to the file exactly the
-- bytes of the log that were not written yet and that the ring still holds, in their order; the offset
-- is again the end of the file, and all is written.
pub applied-journal_flush_locked :
    (file : List ℕ) (j : Journal) (log : List ℕ)
    → Holds j log
    → j.off ≡ length (applied file j.calls)
    → length (applied file j.calls) + length log < 2 ^ 64
    → j.ready ≡ true
    → j.file ≡ true
    → let k = journal_flush_locked all_taken j in
      let from =
        if ltb ring_size (length log - j.flushed) then length log - ring_size else j.flushed in
      (applied file k.calls ≡ applied file j.calls ++ drop from log)
      × (k.off ≡ length (applied file k.calls))
      × (k.flushed ≡ length log)
unfolding journal_flush_locked Flushed IsAtEnd
applied-journal_flush_locked file j log h at lt ready has_file =
    let pending : (j.prod + 2 ^ 64 - j.flushed) % 2 ^ 64 ≡ length log - j.flushed =
      omega (arith, h.count, h.behind) in
    let guard : (not j.ready || not j.file) ≡ false = ground (arith, ready, has_file) in
    rw (guard, pending)
      (elim (Bool-cases (ltb ring_size (length log - j.flushed))) [
        | inl e ↦
            let from : (j.prod + 2 ^ 64 - ring_size) % 2 ^ 64 ≡ length log - ring_size =
              omega (arith, h.count, lt_at _ _ e) in
            let big = lt_at _ _ e in
            rw (e, from)
              (write_pending_lem file j log (length log - ring_size) ring_size h at lt (omega arith)
                (omega arith) (omega (arith, big)))
        | inr e ↦
            let small = not_lt _ _ e in
            rw e (elim (Bool-cases (length log - j.flushed == 0)) [
              | inl z ↦
                  let none_left : length log - j.flushed ≡ 0 = (==_iff _ _).0 z in
                  let gone = drop-all j.flushed log (omega (arith, none_left)) in
                  rw (z, gone)
                    (
                      sym (append-nil (applied file j.calls)),
                      at,
                      omega (arith, none_left, h.behind),
                    )
              | inr z ↦ rw z (
                  write_pending_lem file j log j.flushed (length log - j.flushed) h at lt h.behind
                    (omega (arith, small)) refl)
            ])
      ])
