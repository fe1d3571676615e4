-- ===== src/Net/Csum/Laws.antt =====
-- A checksum in pieces is the checksum of the whole, and detects what the Internet checksum detects.
use axiome_os.Prelude.{
  ℕ, ◌+◌, ◌-◌, ◌*◌, ◌/◌, ◌%◌, ◌^◌, ◌≤◌, ◌<◌, ◌≡◌, refl, ap, ◌∙◌, Bool, true, ◌&&◌, List, [], ◌∷◌,
  ◌++◌, ltb, ◌==◌, if◌then◌else◌, arith, length, length-append, if_either, lt_at, and_left,
  and_right,
}
use axiome_os.Net.Csum.{fold_loop, sum_words, inet_csum, csum_acc, csum_fold, csum_finish}

-- The value in 0 to 0xFFFF that two rounds of folding leave: 0 only for 0, and otherwise the
-- remainder by 0xFFFF, counted from 1.
folded : ℕ → ℕ
folded s = if s == 0 then 0 else (s - 1) % 0xFFFF + 1

fold_loop-folded : (s : ℕ) → s < 2 ^ 32 → fold_loop 2 s ≡ folded s
unfolding fold_loop folded
fold_loop-folded s h = ground arith

folded-step : (s : ℕ) → folded (s % 2 ^ 16 + s / 2 ^ 16) ≡ folded s
unfolding folded
folded-step s = ground arith

folded-add : (s t w : ℕ) → folded s ≡ folded t → folded (s + w) ≡ folded (t + w)
unfolding folded
folded-add s t w e = ground arith

-- The sum of the little-endian words, an odd last byte counting as a word.
total : List ℕ → ℕ
total [] = 0
total (a ∷ []) = a
total (a ∷ b ∷ p) = a + 2 ^ 8 * b + total p

abbrev pub are_bytes : List ℕ → Bool
are_bytes [] = true
are_bytes (b ∷ bs) = ltb b 256 && are_bytes bs

byte_head : (b : ℕ) (bs : List ℕ) → are_bytes (b ∷ bs) ≡ true → b < 256
byte_head b bs h = lt_at b 256 (and_left _ _ h)

are_bytes-append :
    (p q : List ℕ) → are_bytes p ≡ true → are_bytes q ≡ true → are_bytes (p ++ q) ≡ true
are_bytes-append [] q h k = k
are_bytes-append (b ∷ p) q h k = ground (arith, are_bytes-append p q)

total-bound : (p : List ℕ) → are_bytes p ≡ true → 2 * total p ≤ 65535 * (length p + 1)
unfolding total
total-bound [] h = omega arith
total-bound (a ∷ []) h = omega (arith, byte_head a [] h)
total-bound (a ∷ b ∷ p) h =
    let k = and_right _ _ h in
    omega (arith, byte_head a (b ∷ p) h, byte_head b p k, total-bound p (and_right _ _ k))

total-append : (p q : List ℕ) → length p % 2 ≡ 0 → total (p ++ q) ≡ total p + total q
unfolding total
total-append [] q even = omega arith
total-append (a ∷ []) q even = absurd (omega arith)
total-append (a ∷ b ∷ p) q even = omega (arith, total-append p q (omega arith))

sum_words-total : (s : ℕ) (p : List ℕ) → s + total p < 2 ^ 32 → sum_words s p ≡ s + total p
unfolding sum_words total
sum_words-total s [] h = omega arith
sum_words-total s (a ∷ []) h = omega arith
sum_words-total s (a ∷ b ∷ p) h =
    let e : (s + (a + 2 ^ 8 * b)) % 2 ^ 32 ≡ s + (a + 2 ^ 8 * b) = omega arith in
    rw e (omega (arith, sum_words-total (s + (a + 2 ^ 8 * b)) p (omega arith)))

folded-bound : (s : ℕ) → folded s ≤ 0xFFFF
unfolding folded
folded-bound s = ground arith

inet_csum-total : (p : List ℕ) → total p < 2 ^ 32 → inet_csum p ≡ 0xFFFF - folded (total p)
unfolding inet_csum
inet_csum-total p h =
    let z : 0 + total p ≡ total p = omega arith in
    let s = sum_words-total 0 p (omega arith) in
    let f = fold_loop-folded (total p) h in rw (s, z, f) (omega (arith, folded-bound (total p)))

csum_acc-total :
    (top s : ℕ) (p : List ℕ)
    → 2 ^ 17 ≤ top
    → top ≤ 2 ^ 20
    → are_bytes p ≡ true
    → s < top
    → (folded (csum_acc s p) ≡ folded (s + total p)) × (csum_acc s p < top + 2 ^ 8)
unfolding csum_acc total
csum_acc-total top s [] lo hi h k = (ap folded (omega arith), omega arith)
csum_acc-total top s (a ∷ []) lo hi h k =
    let lt = byte_head a [] h in (ap folded (omega arith), omega arith)
csum_acc-total top s (a ∷ b ∷ p) lo hi h k =
    let tail = and_right _ _ h in
    let w = a + 2 ^ 8 * b in
    let low = byte_head a (b ∷ p) h in
    let high = byte_head b p tail in
    let next = s + w in
    let e : (s + (a + 2 ^ 8 * b)) % 2 ^ 32 ≡ next = omega arith in
    let x = if ltb 0xFFFF next then next % 2 ^ 16 + next / 2 ^ 16 else next in
    let same =
      if_either (λ y. (folded y ≡ folded next) × (y < top)) (ltb 0xFFFF next)
        (next % 2 ^ 16 + next / 2 ^ 16) next (λ u. (folded-step next, omega arith))
        (λ u. (refl, ground arith)) in
    let ih = csum_acc-total top x p lo hi (and_right _ _ tail) same.1 in
    rw e (ih.0 ∙ folded-add x next (total p) same.0 ∙ ap folded (omega arith), ih.1)

csum_fold-folded : (s : ℕ) → s < 2 ^ 32 → csum_fold s ≡ folded s
unfolding csum_fold
csum_fold-folded s h = rw (fold_loop-folded s h) (omega (arith, folded-bound s))

total-pair : (c : ℕ) → total (c % 256 ∷ c / 256 ∷ []) ≡ c
unfolding total
total-pair c = omega arith

folded-complement : (t : ℕ) → folded (t + (0xFFFF - folded t)) ≡ 0xFFFF
unfolding folded
folded-complement t = ground arith

-- For each two pieces of bytes of at most 65536 in all, the first of even length: the checksum
-- gathered over the one and then the other is that of both together.
pub csum_finish-csum_acc :
    (p q : List ℕ)
    → are_bytes p ≡ true
    → are_bytes q ≡ true
    → length p % 2 ≡ 0
    → length p + length q ≤ 0x10000
    → csum_finish (csum_acc (csum_acc 0 p) q) ≡ inet_csum (p ++ q)
unfolding csum_finish
csum_finish-csum_acc p q bp bq even le =
    let half = csum_acc-total (2 ^ 17) 0 p (omega arith) (omega arith) bp (omega arith) in
    let whole =
      csum_acc-total (2 ^ 18) (csum_acc 0 p) q (omega arith) (omega arith) bq (omega arith) in
    let all = total-bound (p ++ q) (are_bytes-append p q bp bq) in
    let small : total (p ++ q) < 2 ^ 32 = omega (arith, all, length-append p q) in
    let same : folded (csum_acc (csum_acc 0 p) q) ≡ folded (total (p ++ q)) =
      whole.0
      ∙ folded-add (csum_acc 0 p) (0 + total p) (total q) half.0
      ∙ ap folded (omega (arith, total-append p q even)) in
    let left = csum_fold-folded (csum_acc (csum_acc 0 p) q) (omega arith) in
    let right = inet_csum-total (p ++ q) small in omega (arith, left, right, same)

-- For each bytes of even length, at most 65536 of them: with their checksum behind them, low byte
-- first, the checksum is 0.
pub inet_csum-inet_csum :
    (p : List ℕ)
    → are_bytes p ≡ true
    → length p % 2 ≡ 0
    → length p ≤ 0x10000
    → inet_csum (p ++ inet_csum p % 256 ∷ inet_csum p / 256 ∷ []) ≡ 0
inet_csum-inet_csum p bytes even le =
    let c = inet_csum p in
    let sum = total-bound p bytes in
    let own = inet_csum-total p (omega arith) in
    let appended = total-append p (c % 256 ∷ c / 256 ∷ []) even in
    let pair : total (c % 256 ∷ c / 256 ∷ []) ≡ c = total-pair c in
    let whole =
      inet_csum-total (p ++ c % 256 ∷ c / 256 ∷ []) (omega (arith, own, pair, appended, sum)) in
    let full = folded-complement (total p) in
    let both : total (p ++ c % 256 ∷ c / 256 ∷ []) ≡ total p + (0xFFFF - folded (total p)) =
      omega (arith, appended, pair, own) in
    whole ∙ ap (λ n. 0xFFFF - folded n) both ∙ omega (arith, full)
