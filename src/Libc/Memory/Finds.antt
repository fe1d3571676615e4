-- ===== src/Libc/Memory/Finds.antt =====
-- What `strstr` finds.
use axiome_os.Prelude.{
  ℕ, zero, suc, ◌<◌, ◌≡◌, refl, true, false, Option, none, some, List, [], ◌∷◌, ◌==◌, if◌then◌else◌,
  if_either, drop, arith,
}
use axiome_os.KString.{strlen}
use axiome_os.Libc.Memory.{starts, strstr_loop, strstr, later, first_is_zero}

-- The needle starts at the place found and at none before; without one it starts nowhere in the
-- string.
pub IsFirst : List ℕ → List ℕ → Option ℕ → Type 0
IsFirst h n none = (j : ℕ) → j < strlen h → starts (drop j h) n ≡ false
IsFirst h n (some i) =
    (starts (drop i h) n ≡ true) × ((j : ℕ) → j < i → starts (drop j h) n ≡ false)

IsFirst-later :
    (b : ℕ) (h n : List ℕ) (o : Option ℕ)
    → b == 0 ≡ false
    → starts (b ∷ h) n ≡ false
    → IsFirst h n o
    → IsFirst (b ∷ h) n (later o)
unfolding IsFirst strlen
IsFirst-later b h n none z f k = rw z (λ j. at j)
  where
    at : (j : ℕ) → j < suc (strlen h) → starts (drop j (b ∷ h)) n ≡ false
    at zero lt = f
    at (suc j) lt = k j (omega arith)
IsFirst-later b h n (some i) z f k = (k.0, at)
  where
    at : (j : ℕ) → j < suc i → starts (drop j (b ∷ h)) n ≡ false
    at zero lt = f
    at (suc j) lt = k.1 j (omega arith)

strlen_nil : strlen [] ≡ 0
unfolding strlen
strlen_nil = refl

strlen_zero : (b : ℕ) (h : List ℕ) → b == 0 ≡ true → strlen (b ∷ h) ≡ 0
unfolding strlen
strlen_zero b h z = rw z refl

IsFirst-strstr_loop : (h n : List ℕ) → IsFirst h n (strstr_loop h n)
unfolding strstr_loop IsFirst
IsFirst-strstr_loop [] n = λ j lt. absurd (omega (arith, strlen_nil))
IsFirst-strstr_loop (b ∷ h) n =
    if_either (IsFirst (b ∷ h) n) (b == 0) none
      (if starts (b ∷ h) n then some 0 else later (strstr_loop h n))
      (λ z j lt. absurd (omega (arith, strlen_zero b h z)))
      (λ z.
        if_either (IsFirst (b ∷ h) n) (starts (b ∷ h) n) (some 0) (later (strstr_loop h n))
          (λ f. (f, λ j lt. absurd (omega arith)))
          (λ f. IsFirst-later b h n (strstr_loop h n) z f (IsFirst-strstr_loop h n)))

zero_starts : (h n : List ℕ) → first_is_zero n ≡ true → starts h n ≡ true
unfolding starts first_is_zero
zero_starts h [] z = refl
zero_starts [] (c ∷ n) z = z
zero_starts (b ∷ h) (c ∷ n) z = rw z refl

-- For each string and needle: at the place that `strstr` gives the needle starts, and at no place
-- before; where it gives none the needle starts at no place of the string.
pub strstr-IsFirst : (h n : List ℕ) → IsFirst h n (strstr h n)
unfolding strstr IsFirst
strstr-IsFirst h n =
    if_either (IsFirst h n) (first_is_zero n) (some 0) (strstr_loop h n)
      (λ z. (zero_starts h n z, λ j lt. absurd (omega arith))) (λ z. IsFirst-strstr_loop h n)
