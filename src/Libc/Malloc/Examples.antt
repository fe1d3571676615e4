-- ===== src/Libc/Malloc/Examples.antt =====
-- The allocator at fixed inputs: a heap with a block in use between two that are free.
use axiome_os.Prelude.{◌≡◌, refl, true, false, List, [], ◌∷◌, arith}
use axiome_os.Libc.Malloc.{Block, init_heap, malloc, free}
use axiome_os.Libc.Malloc.Restores.{free-malloc, total}
use axiome_os.Libc.Malloc.Regions.{Gives, malloc-AreApart}

abbrev holes : List Block
holes =
    record { size = 32; free = true }
    ∷ record { size = 64; free = false }
    ∷ record { size = 4096; free = true }
    ∷ []

free-malloc_example : free (malloc 100 holes).0 (malloc 100 holes).1 ≡ init_heap holes
unfolding init_heap total
free-malloc_example =
    free-malloc 100 holes (refl, (refl, tt)) (omega arith) (λ e. absurd (omega (arith, e)))

malloc-AreApart_example : Gives 100 (init_heap holes) (malloc 100 holes)
unfolding init_heap total
malloc-AreApart_example =
    malloc-AreApart 100 holes (omega arith) (λ e. absurd (omega (arith, e))) (omega arith)
