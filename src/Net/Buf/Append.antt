-- ===== src/Net/Buf/Append.antt =====
-- Appending to a chain, against the bytes that the chain holds.
use mathlib.Core.Path.{subst}
use mathlib.Core.List.{append-nil, append_assoc}
use axiome_os.Prelude.{
  ℕ, zero, suc, ◌+◌, ◌-◌, ◌≤◌, ◌<◌, ◌≡◌, refl, sym, ap, ◌∙◌, ◌⊎◌, inl, inr, true, false, List, [],
  ◌∷◌, ◌++◌, ◌==◌, length, length-append, length-take, length-drop, length-replicate, take, drop,
  take-append, arith, if_either, ==_iff,
}
use axiome_os.Prelude.Slices.{take-split, take-append_long, take-nil}
use axiome_os.Net.Buf.{
  Mbuf, data_size, fresh, fill, Appended, append_loop, append_chain, mbuf_append, behind,
}
use axiome_os.Net.Buf.Laws.{valid, contents}

-- A buffer that is filled from the region's start.
pub record IsFilled (m : Mbuf) : Type 0 where
  pub from_start : m.data_off ≡ 0
  pub region : length m.bytes ≡ data_size
  pub fits : m.len ≤ data_size

fresh-IsFilled : IsFilled fresh
fresh-IsFilled = record {
  from_start = refl;
  region = length-replicate {A = ℕ} data_size 0;
  fits = omega arith;
}

valid-fill :
    (m : Mbuf) (s : List ℕ)
    → IsFilled m
    → m.len + length s ≤ data_size
    → (valid (fill m s) ≡ valid m ++ s) × IsFilled (fill m s)
unfolding fill
valid-fill m s v h =
    let old = take m.len m.bytes in
    let rest = drop (m.len + length s) m.bytes in
    let lo : length old ≡ m.len = omega (arith, length-take m.len m.bytes, v.region) in
    let whole : length (old ++ (s ++ rest)) ≡ data_size =
      length-append old (s ++ rest)
      ∙ omega (arith, lo, length-append s rest, length-drop (m.len + length s) m.bytes, v.region) in
    (
      ap (λ k. take (m.len + length s) (drop k (old ++ (s ++ rest)))) v.from_start
          ∙ ap (take (m.len + length s)) (sym (append_assoc old s rest))
          ∙ take-append (m.len + length s) (old ++ s) rest (omega (arith, length-append old s, lo))
          ∙ ap (λ k. take m.len (drop k m.bytes) ++ s) (sym v.from_start),
      record { from_start = v.from_start; region = whole; fits = h },
    )

contents_one : (m : Mbuf) → contents (m ∷ []) ≡ valid m
unfolding contents
contents_one m = append-nil (valid m)

-- What a call leaves: all the bytes are appended, or the pool is empty and the first of them are.
unfoldable pub IsAppended : List ℕ → List ℕ → Appended → Type 0
IsAppended before s a =
    (contents a.chain ≡ before ++ s) × (a.done ≡ true)
    ⊎ (k : ℕ) × ((contents a.chain ≡ before ++ take k s) × (a.done ≡ false) × (a.free ≡ 0))

take_past : (t rest : List ℕ) (k : ℕ) → take (length t + k) (t ++ rest) ≡ t ++ take k rest
take_past t rest k =
    take-append_long (length t + k) t rest (omega arith) ∙ ap (λ j. t ++ take j rest) (omega arith)

-- The bytes `t` that a round puts into the buffer join what was there.
joined_here :
    (b t rest : List ℕ) (a : Appended) → IsAppended (b ++ t) rest a → IsAppended b (t ++ rest) a
unfolding IsAppended
joined_here b t rest a (inl r) = inl (r.0 ∙ append_assoc b t rest, r.1)
joined_here b t rest a (inr (k, r)) = inr (
  length t + k,
  (r.0 ∙ append_assoc b t (take k rest) ∙ ap (λ l. b ++ l) (sym (take_past t rest k)), r.1, r.2),
)

IsAppended-behind :
    (m : Mbuf) (b s : List ℕ) (a : Appended)
    → IsAppended b s a
    → IsAppended (valid m ++ b) s (behind m a)
unfolding IsAppended contents
IsAppended-behind m b s a (inl r) =
    inl (ap (λ l. valid m ++ l) r.0 ∙ sym (append_assoc (valid m) b s), r.1)
IsAppended-behind m b s a (inr (k, r)) =
    inr (k, (ap (λ l. valid m ++ l) r.0 ∙ sym (append_assoc (valid m) b (take k s)), r.1, r.2))

take_none : (n : ℕ) (s : List ℕ) → length s ≡ 0 → take n s ≡ []
take_none n [] h = take-nil n
take_none n (c ∷ s) h = absurd (omega arith)

no_bytes : (s : List ℕ) → length s ≡ 0 → s ≡ []
no_bytes [] h = refl
no_bytes (c ∷ s) h = absurd (omega arith)

joined_all :
    (free : ℕ) (tail : Mbuf) (s : List ℕ)
    → length s ≡ 0
    → IsAppended (valid tail) s (record { chain = tail ∷ []; free = free; done = true })
unfolding IsAppended contents
joined_all free tail s h = inl (ap (λ l. valid tail ++ l) (sym (no_bytes s h)), refl)

pool_empty :
    (tail : Mbuf) (s : List ℕ)
    → IsAppended (valid tail) s (record { chain = tail ∷ []; free = 0; done = false })
unfolding IsAppended contents
pool_empty tail s = inr (0, (refl, refl, refl))

fits_take : (n : ℕ) (s : List ℕ) → length (take n s) ≤ n
fits_take n s = omega (arith, length-take n s)

-- A round that puts `n` bytes into the last buffer, and one that puts them into a new one.
round_here :
    (n : ℕ) (m : Mbuf) (b s : List ℕ) (a : Appended)
    → valid m ≡ b ++ take n s
    → IsAppended (valid m) (drop n s) a
    → IsAppended b s a
round_here n m b s a e r =
    subst (λ l. IsAppended b l a) (take-split n s)
      (joined_here b (take n s) (drop n s) a (subst (λ l. IsAppended l (drop n s) a) e r))

round_behind :
    (n : ℕ) (tail m : Mbuf) (s : List ℕ) (a : Appended)
    → valid m ≡ take n s
    → IsAppended (valid m) (drop n s) a
    → IsAppended (valid tail) s (behind tail a)
round_behind n tail m s a e r =
    subst (λ l. IsAppended (valid tail) l (behind tail a)) (take-split n s)
      (joined_here (valid tail) (take n s) (drop n s) (behind tail a) (
        IsAppended-behind tail (take n s) (drop n s) a
          (subst (λ l. IsAppended l (drop n s) a) e r)))

nonzero : (n : ℕ) → n == 0 ≡ false → 0 < n
nonzero n h = ground arith

IsAppended-append_loop :
    (fuel free : ℕ) (tail : Mbuf) (s : List ℕ)
    → IsFilled tail
    → length s ≤ fuel
    → IsAppended (valid tail) s (append_loop fuel free tail s)
unfolding append_loop
IsAppended-append_loop zero free tail s v le = joined_all free tail s (omega arith)
IsAppended-append_loop (suc fuel) free tail s v le =
    if_either (IsAppended (valid tail) s) (length s == 0) _ _
      (λ e. joined_all free tail s ((==_iff (length s) 0).0 e))
      (λ ne.
        let some_bytes = nonzero (length s) ne in
        if_either (IsAppended (valid tail) s) (data_size - tail.len == 0) _ _
          (λ full.
            if_either (IsAppended (valid tail) s) (free == 0) _ _ (λ e. pool_empty tail s)
              (λ some_left.
                let t = take data_size s in
                let f = valid-fill fresh t fresh-IsFilled (omega (arith, fits_take data_size s)) in
                round_behind data_size tail (fill fresh t) s
                  (append_loop fuel (free - 1) (fill fresh t) (drop data_size s)) f.0
                  (IsAppended-append_loop fuel (free - 1) (fill fresh t) (drop data_size s) f.1
                    (omega (arith, length-drop data_size s)))))
          (λ room.
            let avail = data_size - tail.len in
            let some_room = nonzero (data_size - tail.len) room in
            let f = valid-fill tail (take avail s) v (omega (arith, v.fits, fits_take avail s)) in
            round_here avail (fill tail (take avail s)) (valid tail) s
              (append_loop fuel free (fill tail (take avail s)) (drop avail s)) f.0
              (IsAppended-append_loop fuel free (fill tail (take avail s)) (drop avail s) f.1
                (omega (arith, length-drop avail s)))))

-- The last buffer of a chain is filled from the region's start.
abbrev pub EndsFilled : List Mbuf → Type 0
EndsFilled [] = Unit {0}
EndsFilled (m ∷ []) = IsFilled m
EndsFilled (m ∷ n ∷ ms) = EndsFilled (n ∷ ms)

IsAppended-append_chain :
    (free : ℕ) (m : Mbuf) (ms : List Mbuf) (s : List ℕ)
    → EndsFilled (m ∷ ms)
    → IsAppended (contents (m ∷ ms)) s (append_chain free m ms s)
unfolding append_chain contents
IsAppended-append_chain free m [] s h =
    subst (λ l. IsAppended l s (append_loop (length s) free m s)) (sym (contents_one m))
      (IsAppended-append_loop (length s) free m s h (omega arith))
IsAppended-append_chain free m (n ∷ ms) s h =
    IsAppended-behind m (contents (n ∷ ms)) s (append_chain free n ms s)
      (IsAppended-append_chain free n ms s h)

-- For each chain whose last buffer is filled from its start: after `mbuf_append` the chain holds what
-- it held and then all the bytes given, and the call succeeds; or the pool of buffers is empty, the
-- call fails, and what it held is followed by the first of the bytes.
pub mbuf_append-contents :
    (free : ℕ) (ms : List Mbuf) (s : List ℕ)
    → EndsFilled ms
    → IsAppended (contents ms) s (mbuf_append free ms s)
unfolding mbuf_append contents IsAppended
mbuf_append-contents free (m ∷ ms) s h = IsAppended-append_chain free m ms s h
mbuf_append-contents free [] s h =
    if_either (IsAppended [] s) (length s == 0) _ _
      (λ e. inl (sym (no_bytes s ((==_iff (length s) 0).0 e)), refl))
      (λ ne.
        if_either (IsAppended [] s) (free == 0) _ _ (λ e. inr (0, (refl, refl, refl)))
          (λ some_left.
            IsAppended-append_loop (length s) (free - 1) fresh s fresh-IsFilled (omega arith)))
