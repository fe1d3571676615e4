-- ===== src/Net/Buf/Laws.antt =====
-- Copying from a chain and taking bytes off it, against the bytes that the chain holds.
use axiome_os.Prelude.{
  ℕ, ◌+◌, ◌-◌, ◌≤◌, ◌≡◌, refl, sym, ap, ◌∙◌, inl, inr, List, [], ◌∷◌, ◌++◌, ltb, ◌==◌, length,
  length-append, length-take, length-drop, take, drop, take_all, arith, Bool-cases, not_lt,
  take-take, take-append_short, lt_at, ==_iff,
}
use axiome_os.Prelude.Slices.{
  drop-drop, take-drop, take-append_long, drop-append_long, drop-append_short, drop-nil, take-nil,
}
use mathlib.Core.List.{append-nil}
use axiome_os.Net.Buf.{Mbuf, mbuf_total_len, mbuf_copyout, mbuf_consume}

-- The valid bytes of a buffer.
abbrev pub valid : Mbuf → List ℕ
valid m = take m.len (drop m.data_off m.bytes)

unfoldable pub contents : List Mbuf → List ℕ
contents [] = []
contents (m ∷ ms) = valid m ++ contents ms

-- The valid bytes lie in the data region.
abbrev pub AreChained : List Mbuf → Type 0
AreChained [] = Unit {0}
AreChained (m ∷ ms) = (m.data_off + m.len ≤ length m.bytes) × AreChained ms

length-valid : (m : Mbuf) → m.data_off + m.len ≤ length m.bytes → length (valid m) ≡ m.len
length-valid m h =
    omega (arith, length-take m.len (drop m.data_off m.bytes), length-drop m.data_off m.bytes)

pub length-contents : (ms : List Mbuf) → AreChained ms → length (contents ms) ≡ mbuf_total_len ms
unfolding contents mbuf_total_len
length-contents [] h = refl
length-contents (m ∷ ms) h =
    length-append (valid m) (contents ms)
    ∙ omega (arith, length-valid m h.0, length-contents ms h.1)

cong2 : {xs ys us vs : List ℕ} → xs ≡ us → ys ≡ vs → xs ++ ys ≡ us ++ vs
cong2 p q = λ i. p i ++ q i

slice-valid :
    (m : Mbuf) (n off : ℕ)
    → off + n ≤ m.len
    → take n (drop (m.data_off + off) m.bytes) ≡ take n (drop off (valid m))
slice-valid m n off h =
    let region = drop m.data_off m.bytes in
    let e : off + (m.len - off) ≡ m.len = omega arith in
    sym (ap (take n) (drop-drop m.data_off off m.bytes))
    ∙ sym (take-take n (m.len - off) (drop off region) (omega arith))
    ∙ ap (take n) (take-drop (m.len - off) off region ∙ ap (λ k. drop off (take k region)) e)

copyout_zero : (ms : List Mbuf) (off : ℕ) → mbuf_copyout 0 ms off ≡ []
unfolding mbuf_copyout
copyout_zero [] off = refl
copyout_zero (m ∷ ms) off = refl

-- For each chain whose valid bytes lie in their regions: `mbuf_copyout` copies, of the bytes that the
-- chain holds from the offset on, as many as the destination has room for.
pub mbuf_copyout-contents :
    (room : ℕ) (ms : List Mbuf) (off : ℕ)
    → AreChained ms
    → mbuf_copyout room ms off ≡ take room (drop off (contents ms))
unfolding mbuf_copyout contents
mbuf_copyout-contents room [] off h = sym (ap (take room) (drop-nil off) ∙ take-nil room)
mbuf_copyout-contents room (m ∷ ms) off h =
    let lv = length-valid m h.0 in
    let ld = length-drop off (valid m) in
    elim (Bool-cases (room == 0)) [
      | inl z ↦
          let e : room ≡ 0 = (==_iff room 0).0 z in
          rw z (ap (λ k. take k (drop off (valid m ++ contents ms))) (sym e))
      | inr nz ↦ rw nz (elim (Bool-cases (ltb off m.len)) [
        | inl lt ↦
            let short = lt_at off m.len lt in
            rw (lt, drop-append_short off (valid m) (contents ms) (omega arith))
              (elim (Bool-cases (ltb room (m.len - off))) [
                | inl l ↦
                    let small = lt_at room (m.len - off) l in
                    let z : room - room ≡ 0 = omega arith in
                    rw (l, z, copyout_zero ms 0)
                      (append-nil _
                        ∙ slice-valid m room off (omega arith)
                        ∙ sym (
                            take-append_short room (drop off (valid m)) (contents ms)
                              (omega arith)))
                | inr g ↦
                    let big = not_lt room (m.len - off) g in
                    rw (g, take-append_long room (drop off (valid m)) (contents ms) (omega arith))
                      (cong2
                        (slice-valid m (m.len - off) off (omega arith)
                          ∙ take_all (m.len - off) (drop off (valid m)) (omega arith))
                        (mbuf_copyout-contents (room - (m.len - off)) ms 0 h.1
                          ∙ ap (λ k. take k (contents ms)) (omega arith)))
              ])
        | inr ge ↦
            let past = not_lt off m.len ge in
            rw (ge, drop-append_long off (valid m) (contents ms) (omega arith))
              (mbuf_copyout-contents room ms (off - m.len) h.1
                ∙ ap (λ k. take room (drop k (contents ms))) (omega arith))
      ])
    ]

-- Taking `n` bytes off a chain leaves the bytes behind them, and the chain well formed.
pub contents-mbuf_consume :
    (n : ℕ) (ms : List Mbuf)
    → AreChained ms
    → (contents (mbuf_consume n ms) ≡ drop n (contents ms)) × AreChained (mbuf_consume n ms)
unfolding mbuf_consume contents
contents-mbuf_consume n [] h = (sym (drop-nil n), tt)
contents-mbuf_consume n (m ∷ ms) h =
    let lv = length-valid m h.0 in
    elim (Bool-cases (n == 0)) [
      | inl z ↦
          let e : n ≡ 0 = (==_iff n 0).0 z in
          rw z (ap (λ k. drop k (valid m ++ contents ms)) (sym e), h)
      | inr nz ↦ rw nz (elim (Bool-cases (ltb n m.len)) [
        | inl lt ↦
            let short = lt_at n m.len lt in
            rw lt (
              ap (λ r. r ++ contents ms)
                    (slice-valid m (m.len - n) n (omega arith)
                      ∙ take_all (m.len - n) (drop n (valid m))
                          (omega (arith, length-drop n (valid m))))
                  ∙ sym (drop-append_short n (valid m) (contents ms) (omega arith)),
              (omega arith, h.1),
            )
        | inr ge ↦
            let past = not_lt n m.len ge in
            let ih = contents-mbuf_consume (n - m.len) ms h.1 in
            rw (ge, drop-append_long n (valid m) (contents ms) (omega arith))
              (ih.0 ∙ ap (λ k. drop k (contents ms)) (omega arith), ih.1)
      ])
    ]
