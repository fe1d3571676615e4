-- ===== src/Keyboard/Laws.antt =====
-- What the keyboard driver can send, and where its buffer index stays.
use axiome_os.Prelude.{
  ℕ, zero, suc, ◌+◌, ◌%◌, ◌≤◌, ◌<◌, ◌≡◌, refl, inl, inr, Bool, true, false, ◌&&◌, not, ==_iff, List,
  [], ◌∷◌, ◌++◌, arith, ltb, leb, ◌==◌, Bool-cases, set, take, length, length-set,
}
use mathlib.Core.Path.{subst}
use axiome_os.Prelude.Members.{is_in}
use axiome_os.Prelude.Bits.{holds_below, holds_below-lt}
use axiome_os.Keyboard.{
  scancode_ansi, EscState, idle, esc, brack, csi, Kbd, char_of, to_idle, plain, on_idle, on_esc,
  on_digit, on_brack, dispatch, on_char, keyboard_irq_handler, irqs, is_idle,
}

-- The characters of the driver's table, 0 included.
pub is_typed : ℕ → Bool
is_typed c = is_in c scancode_ansi

char_of_table : holds_below (λ s. is_typed (char_of s)) 128 ≡ true
unfolding holds_below char_of is_typed is_in
char_of_table = refl

char_of-typed : (s : ℕ) → s < 128 → is_typed (char_of s) ≡ true
char_of-typed s lt = holds_below-lt (λ s. is_typed (char_of s)) 128 char_of_table s lt

escape-typed : (is_typed 27 ≡ true) × (is_typed b'[' ≡ true)
unfolding is_typed is_in
escape-typed = (refl, refl)

-- Every code is one that the table can give.
abbrev pub AllTyped : List ℕ → Type 0
AllTyped [] = Unit {0}
AllTyped (c ∷ s) = (is_typed c ≡ true) × AllTyped s

AllTyped-append : (s r : List ℕ) → AllTyped s → AllTyped r → AllTyped (s ++ r)
AllTyped-append [] r a b = b
AllTyped-append (c ∷ s) r a b = (a.0, AllTyped-append s r a.1 b)

AllTyped-take : (n : ℕ) (s : List ℕ) → AllTyped s → AllTyped (take n s)
AllTyped-take zero s a = tt
AllTyped-take (suc n) [] a = tt
AllTyped-take (suc n) (c ∷ s) a = (a.0, AllTyped-take n s a.1)

AllTyped-set : (s : List ℕ) (i c : ℕ) → is_typed c ≡ true → AllTyped s → AllTyped (set s i c)
AllTyped-set [] i c t a = tt
AllTyped-set (x ∷ s) zero c t a = (t, a.1)
AllTyped-set (x ∷ s) (suc i) c t a = (a.0, AllTyped-set s i c t a.1)

-- The driver's invariant: four cells, an index inside them while a sequence is read and at most 4
-- otherwise, and only typed characters buffered.
abbrev pub Indexed : EscState → ℕ → Type 0
Indexed brack i = i < 4
Indexed idle i = i ≤ 4
Indexed esc i = i < 4
Indexed csi i = i < 4

pub record IsKbd (k : Kbd) : Type 0 where
  pub cells : length k.esc_buf ≡ 4
  pub index : Indexed k.esc_state k.esc_idx
  pub buffered : AllTyped k.esc_buf

pub zeros-AllTyped : AllTyped (0 ∷ 0 ∷ 0 ∷ 0 ∷ [])
unfolding is_typed is_in
zeros-AllTyped = (refl, (refl, (refl, (refl, tt))))

-- What one call keeps and sends.
record Good (r : Kbd × List ℕ) : Type 0 where
  kbd : IsKbd r.0
  sent : AllTyped r.1

plain-AllTyped : (c : ℕ) → is_typed c ≡ true → AllTyped (plain c)
unfolding plain
plain-AllTyped c t = elim (Bool-cases (leb 32 c && ltb c 127)) [
  | inl e ↦ rw (e, plain) (t, tt)
  | inr e ↦ rw (e, plain) tt
]

on_digit-Good :
    (c : ℕ) (k : Kbd)
    → is_typed c ≡ true
    → IsKbd k
    → k.esc_state ≡ brack
    → k.esc_idx < 4
    → Good (on_digit c k)
unfolding on_digit
on_digit-Good c k t v s lt = elim (Bool-cases (leb 4 (k.esc_idx + 1))) [
  | inl e ↦
      rw (e, on_digit)
        (record {
          kbd = record {
            cells = omega (arith, length-set k.esc_buf k.esc_idx c, v.cells);
            index = omega arith;
            buffered = AllTyped-set k.esc_buf k.esc_idx c t v.buffered;
          };
          sent = (escape-typed.0, tt);
        })
  | inr e ↦
      rw (e, on_digit)
        (record {
          kbd = record {
            cells = omega (arith, length-set k.esc_buf k.esc_idx c, v.cells);
            index = rw s (ground arith);
            buffered = AllTyped-set k.esc_buf k.esc_idx c t v.buffered;
          };
          sent = tt;
        })
]

to_idle-IsKbd : (k : Kbd) → IsKbd k → k.esc_idx < 4 → IsKbd (to_idle k)
unfolding to_idle
to_idle-IsKbd k v lt = record { cells = v.cells; index = omega arith; buffered = v.buffered }

all_pass : (ℕ → Bool) → List ℕ → Bool
all_pass test [] = true
all_pass test (x ∷ xs) = test x && all_pass test xs

all_pass-is_in :
    (test : ℕ → Bool) (c : ℕ) (xs : List ℕ)
    → all_pass test xs ≡ true
    → is_in c xs ≡ true
    → test c ≡ true
unfolding all_pass is_in
all_pass-is_in test c [] all h = absurd (ground arith)
all_pass-is_in test c (x ∷ xs) all h = elim (Bool-cases (x == c)) [
  | inl e ↦ subst (λ y. test y ≡ true) ((==_iff x c).0 e) (ground arith)
  | inr e ↦ all_pass-is_in test c xs (ground arith) (ground arith)
]

-- No character that ends an escape sequence.
abbrev not_final : ℕ → Bool
not_final c =
    not (leb b'A' c && leb c b'D') && not (c == b'H') && not (c == b'F') && not (c == b'~')

table_not_final : all_pass not_final scancode_ansi ≡ true
unfolding all_pass
table_not_final = refl

-- A typed character is no letter that ends an escape sequence.
no_final :
    (c : ℕ)
    → is_typed c ≡ true
    → ((leb b'A' c && leb c b'D') ≡ false)
      × ((c == b'H') ≡ false)
      × ((c == b'F') ≡ false)
      × ((c == b'~') ≡ false)
unfolding is_typed
no_final c t =
    let passes : not_final c ≡ true = all_pass-is_in not_final c scancode_ansi table_not_final t in
    ground (arith, passes)

on_brack-Good :
    (c : ℕ) (k : Kbd)
    → is_typed c ≡ true
    → IsKbd k
    → k.esc_state ≡ brack
    → k.esc_idx < 4
    → Good (on_brack c k)
unfolding on_brack
on_brack-Good c k t v s lt =
    let (no_arrow, no_home, no_end, no_tilde) = no_final c t in
    elim (Bool-cases (leb b'0' c && leb c b'9')) [
      | inl e ↦ rw (e, on_brack) (on_digit-Good c k t v s lt)
      | inr e ↦
          rw (e, no_arrow, no_home, no_end, no_tilde, on_brack)
            (record {
              kbd = to_idle-IsKbd k v lt;
              sent =
                  AllTyped-append (27 ∷ b'[' ∷ take k.esc_idx k.esc_buf) (plain c)
                    (escape-typed.0, (escape-typed.1, AllTyped-take k.esc_idx k.esc_buf v.buffered))
                    (plain-AllTyped c t);
            })
    ]

on_esc-Good : (c : ℕ) (k : Kbd) → is_typed c ≡ true → IsKbd k → k.esc_idx < 4 → Good (on_esc c k)
unfolding on_esc
on_esc-Good c k t v lt = elim (Bool-cases (c == b'[')) [
  | inl e ↦
      rw (e, on_esc)
        (record {
          kbd = record { cells = v.cells; index = omega arith; buffered = v.buffered };
          sent = tt;
        })
  | inr e ↦
      rw (e, on_esc)
        (record { kbd = to_idle-IsKbd k v lt; sent = (escape-typed.0, plain-AllTyped c t) })
]

on_idle-Good : (c : ℕ) (k : Kbd) → is_typed c ≡ true → IsKbd k → Good (on_idle c k)
unfolding on_idle
on_idle-Good c k t v = elim (Bool-cases (c == 27)) [
  | inl e ↦
      rw (e, on_idle)
        (record {
          kbd = record { cells = v.cells; index = omega arith; buffered = v.buffered };
          sent = tt;
        })
  | inr e ↦ rw (e, on_idle) (record { kbd = v; sent = (t, tt) })
]

dispatch-Good :
    (s : EscState) (c : ℕ) (k : Kbd)
    → k.esc_state ≡ s
    → Indexed s k.esc_idx
    → is_typed c ≡ true
    → IsKbd k
    → Good (dispatch s c k)
unfolding dispatch
dispatch-Good idle c k e i t v = on_idle-Good c k t v
dispatch-Good esc c k e i t v = on_esc-Good c k t v i
dispatch-Good brack c k e i t v = on_brack-Good c k t v e i
dispatch-Good csi c k e i t v = record { kbd = v; sent = tt }

on_char-Good : (c : ℕ) (k : Kbd) → is_typed c ≡ true → IsKbd k → Good (on_char c k)
unfolding on_char
on_char-Good c k t v = elim (Bool-cases (c == 0)) [
  | inl e ↦ rw (e, on_char) (record { kbd = v; sent = tt })
  | inr e ↦ elim (Bool-cases (c == 27)) [
    | inl e' ↦
        rw (e, e', on_char)
          (record {
            kbd = record { cells = v.cells; index = omega arith; buffered = v.buffered };
            sent = tt;
          })
    | inr e' ↦ elim (Bool-cases (is_idle k.esc_state)) [
      | inl q ↦ rw (e, e', q, on_char) (record { kbd = v; sent = (t, tt) })
      | inr q ↦ rw (e, e', q, on_char) (dispatch-Good k.esc_state c k refl v.index t v)
    ]
  ]
]

handler-Good :
    (status scancode : ℕ) (k : Kbd) → IsKbd k → Good (keyboard_irq_handler status scancode k)
unfolding keyboard_irq_handler
handler-Good status scancode k v = elim (Bool-cases (status % 2 == 1)) [
  | inl e ↦ elim (Bool-cases (ltb scancode 0x80)) [
    | inl q ↦
        rw (e, q, keyboard_irq_handler)
          (on_char-Good (char_of scancode) k (char_of-typed scancode (ground arith)) v)
    | inr q ↦ rw (e, q, keyboard_irq_handler) (record { kbd = v; sent = tt })
  ]
  | inr e ↦ rw (e, keyboard_irq_handler) (record { kbd = v; sent = tt })
]

-- Whatever scancodes arrive, from a state whose buffer has four cells, all with characters of the
-- scancode table, 0 included, and whose index is below 4 while a sequence is read and at most 4
-- otherwise: the state stays like that, and every code handed to the terminal is a character of the
-- table, never one of the special keys' codes, all above 0xFF, that the escape sequences are to produce.
pub irqs-AllTyped :
    (events : List (ℕ × ℕ)) (k : Kbd)
    → IsKbd k
    → IsKbd (irqs events k).0 × AllTyped (irqs events k).1
unfolding irqs
irqs-AllTyped [] k v = (v, tt)
irqs-AllTyped ((status, scancode) ∷ rest) k v =
    let g = handler-Good status scancode k v in
    let (kbd, sent) = irqs-AllTyped rest (keyboard_irq_handler status scancode k).0 g.kbd in
    (kbd, AllTyped-append _ _ g.sent sent)
