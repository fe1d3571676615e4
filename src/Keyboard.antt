-- ===== src/Keyboard.antt =====
-- kernel/keyboard.c: scancodes to characters, and the state machine for escape sequences. Each
-- call returns the new state and the codes that it hands to `tty_input_char`, in order.
mod Laws
mod Examples
use axiome_os.Prelude.{
  ℕ, ◌+◌, ◌%◌, Bool, true, false, ◌&&◌, List, [], ◌∷◌, ◌++◌, ltb, leb, ◌==◌, if◌then◌else◌, get_or,
  set, take,
}

pub data EscState : Type 0 where
  idle esc brack csi : EscState

pub record Kbd : Type 0 where
  pub esc_state : EscState
  pub esc_buf : List ℕ
  pub esc_idx : ℕ

-- `scancode_ansi` from code 0 on; the codes past the end of this list are 0.
abbrev pub scancode_ansi : List ℕ
scancode_ansi =
    0 ∷ 27 ∷ b'1' ∷ b'2' ∷ b'3' ∷ b'4' ∷ b'5' ∷ b'6' ∷ b'7' ∷ b'8' ∷ b'9' ∷ b'0' ∷ b'-' ∷ b'=' ∷ 8
    ∷ 9 ∷ b'q' ∷ b'w' ∷ b'e' ∷ b'r' ∷ b't' ∷ b'y' ∷ b'u' ∷ b'i' ∷ b'o' ∷ b'p' ∷ b'[' ∷ b']' ∷ 10 ∷ 0
    ∷ b'a' ∷ b's' ∷ b'd' ∷ b'f' ∷ b'g' ∷ b'h' ∷ b'j' ∷ b'k' ∷ b'l' ∷ b';' ∷ 39 ∷ b'`' ∷ 0 ∷ 92
    ∷ b'z' ∷ b'x' ∷ b'c' ∷ b'v' ∷ b'b' ∷ b'n' ∷ b'm' ∷ b',' ∷ b'.' ∷ b'/' ∷ 0 ∷ b'*' ∷ 0 ∷ b' ' ∷ 0
    ∷ 0 ∷ 0 ∷ 0 ∷ 0 ∷ 0 ∷ 0 ∷ 0 ∷ 0 ∷ 0 ∷ 0 ∷ 0 ∷ 0 ∷ 0 ∷ 0 ∷ 0 ∷ b'-' ∷ 0 ∷ 0 ∷ 0 ∷ b'+' ∷ []

pub char_of : ℕ → ℕ
char_of scancode = get_or scancode_ansi scancode 0

pub to_idle : Kbd → Kbd
to_idle k = record k { esc_state = idle }

pub to_state : EscState → Kbd → Kbd
to_state s k = record k { esc_state = s; esc_idx = 0 }

pub plain : ℕ → List ℕ
plain c = if leb 32 c && ltb c 127 then c ∷ [] else []

pub on_idle : ℕ → Kbd → Kbd × List ℕ
unfolding to_state
on_idle c k = if c == 27 then (to_state esc k, []) else (k, c ∷ [])

pub on_esc : ℕ → Kbd → Kbd × List ℕ
unfolding to_state to_idle plain
on_esc c k = if c == b'[' then (to_state brack k, []) else (to_idle k, 27 ∷ plain c)

-- `esc_buf[esc_idx++] = c;`
pub on_digit : ℕ → Kbd → Kbd × List ℕ
unfolding to_idle
on_digit c k =
    let k' = record k { esc_buf = set k.esc_buf k.esc_idx c; esc_idx = k.esc_idx + 1 } in
    if leb 4 k'.esc_idx then (to_idle k', 27 ∷ []) else (k', [])

pub on_tilde : Kbd → List ℕ
on_tilde k =
    let d = get_or k.esc_buf 0 0 in
    if (k.esc_idx == 1) && (d == b'1')
    then 0x104 ∷ []
    else if (k.esc_idx == 1) && (d == b'3')
    then 0x109 ∷ []
    else if (k.esc_idx == 1) && (d == b'4')
    then 0x105 ∷ []
    else if (k.esc_idx == 1) && (d == b'5')
    then 0x106 ∷ []
    else if (k.esc_idx == 1) && (d == b'6')
    then 0x107 ∷ []
    else []

pub arrow : ℕ → List ℕ
arrow c =
    if c == b'A'
    then 0x100 ∷ []
    else if c == b'B'
    then 0x101 ∷ []
    else if c == b'C'
    then 0x103 ∷ []
    else if c == b'D'
    then 0x102 ∷ []
    else []

pub on_brack : ℕ → Kbd → Kbd × List ℕ
unfolding on_digit arrow to_idle on_tilde plain
on_brack c k =
    if leb b'0' c && leb c b'9'
    then on_digit c k
    else if leb b'A' c && leb c b'D'
    then (to_idle k, arrow c)
    else if c == b'H'
    then (to_idle k, 0x104 ∷ [])
    else if c == b'F'
    then (to_idle k, 0x105 ∷ [])
    else if c == b'~'
    then (to_idle k, on_tilde k)
    else (to_idle k, 27 ∷ b'[' ∷ take k.esc_idx k.esc_buf ++ plain c)

pub dispatch : EscState → ℕ → Kbd → Kbd × List ℕ
unfolding on_idle on_esc on_brack
dispatch idle c k = on_idle c k
dispatch esc c k = on_esc c k
dispatch brack c k = on_brack c k
dispatch csi c k = (k, [])

pub handle_escape : ℕ → Kbd → Kbd × List ℕ
unfolding dispatch
handle_escape c k = dispatch k.esc_state c k

pub is_idle : EscState → Bool
is_idle idle = true
is_idle esc = false
is_idle brack = false
is_idle csi = false

pub on_char : ℕ → Kbd → Kbd × List ℕ
unfolding to_state handle_escape is_idle
on_char c k =
    if c == 0
    then (k, [])
    else if c == 27
    then (to_state esc k, [])
    else if is_idle k.esc_state
    then (k, c ∷ [])
    else handle_escape c k

-- `status` is read from port 0x64 and `scancode` from port 0x60.
pub keyboard_irq_handler : (status scancode : ℕ) → Kbd → Kbd × List ℕ
unfolding char_of on_char
keyboard_irq_handler status scancode k =
    if status % 2 == 1
    then (if ltb scancode 0x80 then on_char (char_of scancode) k else (k, []))
    else (k, [])

-- The interrupts in order, each with its status and its scancode.
pub irqs : List (ℕ × ℕ) → Kbd → Kbd × List ℕ
unfolding keyboard_irq_handler
irqs [] k = (k, [])
irqs ((status, scancode) ∷ rest) k =
    let (k', out) = keyboard_irq_handler status scancode k in
    let (k'', out') = irqs rest k' in (k'', out ++ out')
