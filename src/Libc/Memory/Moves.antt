-- ===== src/Libc/Memory/Moves.antt =====
-- What `memmove` leaves in memory.
use axiome_os.Prelude.{
  ℕ, zero, suc, ◌+◌, ◌-◌, ◌<◌, ◌≤◌, ◌≡◌, ◌≢◌, refl, sym, ap, ◌∙◌, inl, inr, ◌⊎◌, true, false, ◌&&◌,
  List, ltb, leb, lt_at, not_lt, if◌then◌else◌, if_either, Bool-cases, get_or, set, get_or-set_self,
  get_or-set_ne, length, length-set, arith,
}
use axiome_os.Libc.Memory.{move_up, move_down, memmove}

-- The byte at `j` after `n` bytes from `s` on are copied to `d`, taken from the memory before.
pub moved : List ℕ → ℕ → ℕ → ℕ → ℕ → ℕ
moved mem d s n j = if leb d j && ltb j (d + n) then get_or mem (s + (j - d)) 0 else get_or mem j 0

moved_in :
    (mem : List ℕ) (d s n j : ℕ)
    → d ≤ j
    → j < d + n
    → moved mem d s n j ≡ get_or mem (s + (j - d)) 0
unfolding moved
moved_in mem d s n j low high =
    let a : leb d j ≡ true = ground arith in
    let b : ltb j (d + n) ≡ true = ground arith in rw (a, b) refl

moved_out :
    (mem : List ℕ) (d s n j : ℕ) → (j < d) ⊎ (d + n ≤ j) → moved mem d s n j ≡ get_or mem j 0
unfolding moved
moved_out mem d s n j out = let a : leb d j && ltb j (d + n) ≡ false = ground arith in rw a refl

below : (j d : ℕ) → (j < d) ⊎ (d ≤ j)
below j d = elim (Bool-cases (ltb j d)) [ inl e ↦ inl (lt_at j d e) | inr e ↦ inr (not_lt j d e) ]

-- No byte is moved.
moved_none : (mem : List ℕ) (d s j : ℕ) → moved mem d s 0 j ≡ get_or mem j 0
moved_none mem d s j =
    moved_out mem d s 0 j (elim (below j d) [ inl low ↦ inl low | inr high ↦ inr (omega arith) ])

get_or-move_up :
    (mem : List ℕ) (d s n j : ℕ)
    → d < s
    → d + n ≤ length mem
    → get_or (move_up mem d s n) j 0 ≡ moved mem d s n j
unfolding move_up
get_or-move_up mem d s zero j lt fits = sym (moved_none mem d s j)
get_or-move_up mem d s (suc n) j lt fits =
    let v = get_or mem s 0 in
    let mem1 = set mem d v in
    let ih =
      get_or-move_up mem1 (suc d) (suc s) n j (omega arith) (omega (arith, length-set mem d v)) in
    elim (below j d) [
      | inl low ↦
          let ne : d ≢ j = λ e. absurd (omega (arith, e)) in
          ih
          ∙ moved_out mem1 (suc d) (suc s) n j (inl (omega arith))
          ∙ get_or-set_ne mem d j v 0 ne
          ∙ sym (moved_out mem d s (suc n) j (inl low))
      | inr high ↦ elim (below d j) [
        | inr le ↦
            let same : d ≡ j = omega arith in
            ih
            ∙ moved_out mem1 (suc d) (suc s) n j (inl (omega arith))
            ∙ ap (λ k. get_or mem1 k 0) (sym same)
            ∙ get_or-set_self mem d v 0 (omega arith)
            ∙ ap (λ k. get_or mem k 0) (let e : s ≡ s + (j - d) = omega arith in e)
            ∙ sym (moved_in mem d s (suc n) j high (omega arith))
        | inl past ↦ elim (below j (d + suc n)) [
          | inl inside ↦
              let ne : d ≢ suc s + (j - suc d) = λ e. absurd (omega (arith, e)) in
              ih
              ∙ moved_in mem1 (suc d) (suc s) n j (omega arith) (omega arith)
              ∙ get_or-set_ne mem d (suc s + (j - suc d)) v 0 ne
              ∙ ap (λ k. get_or mem k 0)
                  (let e : suc s + (j - suc d) ≡ s + (j - d) = omega arith in e)
              ∙ sym (moved_in mem d s (suc n) j high inside)
          | inr behind ↦
              let ne : d ≢ j = λ e. absurd (omega (arith, e)) in
              ih
              ∙ moved_out mem1 (suc d) (suc s) n j (inr (omega arith))
              ∙ get_or-set_ne mem d j v 0 ne
              ∙ sym (moved_out mem d s (suc n) j (inr behind))
        ]
      ]
    ]

get_or-move_down :
    (mem : List ℕ) (d s n j : ℕ)
    → s ≤ d
    → d + n ≤ length mem
    → get_or (move_down mem d s n) j 0 ≡ moved mem d s n j
unfolding move_down
get_or-move_down mem d s zero j lt fits = sym (moved_none mem d s j)
get_or-move_down mem d s (suc n) j lt fits =
    let v = get_or mem (s + n) 0 in
    let mem1 = set mem (d + n) v in
    let ih = get_or-move_down mem1 d s n j lt (omega (arith, length-set mem (d + n) v)) in
    elim (below j d) [
      | inl low ↦
          let ne : d + n ≢ j = λ e. absurd (omega (arith, e)) in
          ih
          ∙ moved_out mem1 d s n j (inl low)
          ∙ get_or-set_ne mem (d + n) j v 0 ne
          ∙ sym (moved_out mem d s (suc n) j (inl low))
      | inr high ↦ elim (below j (d + n)) [
        | inl inside ↦
            let ne : d + n ≢ s + (j - d) = λ e. absurd (omega (arith, e)) in
            ih
            ∙ moved_in mem1 d s n j high inside
            ∙ get_or-set_ne mem (d + n) (s + (j - d)) v 0 ne
            ∙ sym (moved_in mem d s (suc n) j high (omega arith))
        | inr past ↦ elim (below (d + n) j) [
          | inr le ↦
              let same : d + n ≡ j = omega arith in
              ih
              ∙ moved_out mem1 d s n j (inr past)
              ∙ ap (λ k. get_or mem1 k 0) (sym same)
              ∙ get_or-set_self mem (d + n) v 0 (omega arith)
              ∙ ap (λ k. get_or mem k 0) (let e : s + n ≡ s + (j - d) = omega arith in e)
              ∙ sym (moved_in mem d s (suc n) j high (omega arith))
          | inl behind ↦
              let ne : d + n ≢ j = λ e. absurd (omega (arith, e)) in
              ih
              ∙ moved_out mem1 d s n j (inr past)
              ∙ get_or-set_ne mem (d + n) j v 0 ne
              ∙ sym (moved_out mem d s (suc n) j (inr (omega arith)))
        ]
      ]
    ]

-- For each memory, a destination that lies in it, and each source, which may overlap it on either
-- side: after `memmove` each byte of the destination is the byte that the source had before, and
-- every other byte is as it was.
pub get_or-memmove :
    (mem : List ℕ) (d s n j : ℕ)
    → d + n ≤ length mem
    → get_or (memmove mem d s n) j 0
      ≡ (if leb d j && ltb j (d + n) then get_or mem (s + (j - d)) 0 else get_or mem j 0)
unfolding memmove moved
get_or-memmove mem d s n j fits =
    if_either (λ m. get_or m j 0 ≡ moved mem d s n j) (ltb d s) (move_up mem d s n)
      (move_down mem d s n) (λ e. get_or-move_up mem d s n j (lt_at d s e) fits)
      (λ e. get_or-move_down mem d s n j (not_lt d s e) fits)
