-- ===== src/Libc/Memory.antt =====
-- Moving and searching bytes, kernel/userspace/libc/string.c. For `memmove`, whose regions may
-- overlap, both are given by their places in one memory; the searches take the bytes from the
-- pointer on.
pub mod Moves
pub mod Finds
mod Examples
use axiome_os.Prelude.{
  ℕ, zero, suc, ◌+◌, ◌-◌, ◌%◌, Bool, true, false, not, ◌&&◌, Option, none, some, List, [], ◌∷◌, ltb,
  ◌==◌, if◌then◌else◌, get_or, set,
}

-- The loop from the first byte on.
pub move_up : List ℕ → ℕ → ℕ → ℕ → List ℕ
move_up mem d s zero = mem
move_up mem d s (suc n) = move_up (set mem d (get_or mem s 0)) (suc d) (suc s) n

-- The loop from the last byte down.
pub move_down : List ℕ → ℕ → ℕ → ℕ → List ℕ
move_down mem d s zero = mem
move_down mem d s (suc n) = move_down (set mem (d + n) (get_or mem (s + n) 0)) d s n

pub memmove : List ℕ → ℕ → ℕ → ℕ → List ℕ
memmove mem d s n = if ltb d s then move_up mem d s n else move_down mem d s n

abbrev pub later : Option ℕ → Option ℕ
later none = none
later (some i) = some (suc i)

-- The index of the byte, if one of the first `n` is it.
pub memchr : List ℕ → ℕ → ℕ → Option ℕ
memchr p c zero = none
memchr [] c (suc n) = none
memchr (b ∷ p) c (suc n) = let rest = later (memchr p c n) in if b == c % 256 then some 0 else rest

-- The inner loop of `strstr`: whether the needle ends before a byte differs.
pub starts : List ℕ → List ℕ → Bool
starts h [] = true
starts [] (c ∷ n) = c == 0
starts (b ∷ h) (c ∷ n) =
    let rest = starts h n in if c == 0 then true else if not (b == 0) && b == c then rest else false

pub strstr_loop : List ℕ → List ℕ → Option ℕ
strstr_loop [] n = none
strstr_loop (b ∷ h) n =
    let rest = later (strstr_loop h n) in
    if b == 0 then none else if starts (b ∷ h) n then some 0 else rest

first_is_zero : List ℕ → Bool
first_is_zero [] = true
first_is_zero (c ∷ n) = c == 0

-- The index of the place found. Behind the end of a list stands a NUL.
pub strstr : List ℕ → List ℕ → Option ℕ
strstr h n = if first_is_zero n then some 0 else strstr_loop h n
