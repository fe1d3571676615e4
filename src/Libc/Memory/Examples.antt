-- ===== src/Libc/Memory/Examples.antt =====
-- Moving and searching at fixed inputs.
use axiome_os.Prelude.{
  ℕ, ◌+◌, ◌-◌, ◌≡◌, ◌&&◌, List, [], ◌∷◌, ltb, leb, get_or, if◌then◌else◌, arith,
}
use axiome_os.Libc.Memory.{memmove}
use axiome_os.Libc.Memory.Moves.{get_or-memmove}

abbrev letters : List ℕ
letters = 97 ∷ 97 ∷ 98 ∷ 97 ∷ 98 ∷ 99 ∷ []

-- The source and the destination overlap.
get_or-memmove_example :
    get_or (memmove letters 1 0 4) 3 0
    ≡ (if leb 1 3 && ltb 3 (1 + 4) then get_or letters (0 + (3 - 1)) 0 else get_or letters 3 0)
get_or-memmove_example = get_or-memmove letters 1 0 4 3 (omega arith)
