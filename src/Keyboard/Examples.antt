-- ===== src/Keyboard/Examples.antt =====
-- kernel/keyboard.c at the keys Escape, `[`, a and b.
use axiome_os.Prelude.{ℕ, ◌≡◌, refl, List, [], ◌∷◌, arith}
use axiome_os.Keyboard.{Kbd, idle, handle_escape, brack, irqs}
use axiome_os.Keyboard.Laws.{IsKbd, AllTyped, zeros-AllTyped, irqs-AllTyped}

abbrev fresh : Kbd
fresh = record { esc_state = idle; esc_buf = 0 ∷ 0 ∷ 0 ∷ 0 ∷ []; esc_idx = 0 }

-- The state machine knows the Up key's sequence, with its capital letter.
up_sequence : (handle_escape b'A' (record fresh { esc_state = brack })).1 ≡ 0x100 ∷ []
unfolding handle_escape
up_sequence = refl

abbrev keys : List (ℕ × ℕ)
keys = (1, 1) ∷ (1, 0x1A) ∷ (1, 0x1E) ∷ (1, 0x30) ∷ []

-- From the keys the table gives the small letter, and the sequence is sent on as it was typed.
sequence_of_keys : (irqs keys fresh).1 ≡ 27 ∷ b'[' ∷ b'a' ∷ b'b' ∷ []
unfolding irqs
sequence_of_keys = refl

fresh-IsKbd : IsKbd fresh
fresh-IsKbd = record { cells = refl; index = omega arith; buffered = zeros-AllTyped }

irqs-AllTyped_example : IsKbd (irqs keys fresh).0 × AllTyped (irqs keys fresh).1
irqs-AllTyped_example = irqs-AllTyped keys fresh fresh-IsKbd
