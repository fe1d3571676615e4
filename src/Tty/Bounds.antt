-- ===== src/Tty/Bounds.antt =====
-- No access of the line buffer is out of bounds, whatever is typed and read.
use axiome_os.Prelude.{ℕ, ◌<◌, ◌≡◌, refl, ◌∙◌, true, Option, none, some, List, [], ◌∷◌, arith}
use axiome_os.Tty.{
  Tty, Running, tty_line_max, put, tty_echo, put_all, escape_of, escape, ctrl_c_target, interrupt,
  wake_reader, enter, tty_input_char, tty_read_char, tty_init,
}
use axiome_os.Tty.Content.{IsTty, content-tty_input_char}

-- A call that a driver or a reader makes.
pub data Call : Type 0 where
  key : Option Running → ℕ → Call
  read : Call
  reset : Call

pub step : Call → Tty → Tty
step (key cur c) t = tty_input_char cur c t
step read t = (tty_read_char t).1
step reset t = tty_init t

pub run : List Call → Tty → Tty
unfolding step
run [] t = t
run (c ∷ cs) t = run cs (step c t)

-- `tty_line[tty_pos]` and `tty_line[tty_len]` both lie in the array.
pub record IsInBounds (t : Tty) : Type 0 where
  pub valid : IsTty t
  pub pos : t.pos < tty_line_max

pos-put_all : (s : List ℕ) (t : Tty) → (put_all s t).pos ≡ t.pos
unfolding put_all put
pos-put_all [] t = refl
pos-put_all (c ∷ s) t = pos-put_all s (put c t) ∙ ground arith

pos-escape : (o : Option (List ℕ)) (t : Tty) → (escape o t).pos ≡ t.pos
unfolding escape
pos-escape none t = refl
pos-escape (some s) t = pos-put_all s t

pos-interrupt : (o : Option ℕ) (t : Tty) → (interrupt o t).pos ≡ t.pos
unfolding interrupt
pos-interrupt none t = refl
pos-interrupt (some r) t = refl

pos-wake_reader : (o : Option ℕ) (t : Tty) → (wake_reader o t).pos ≡ t.pos
unfolding wake_reader
pos-wake_reader none t = refl
pos-wake_reader (some r) t = refl

pos-enter : (t : Tty) → (enter t).pos ≡ t.pos
unfolding enter
pos-enter t =
    let u = record (tty_echo 10 (put 10 t)) { ready = true } in
    let e : u.pos ≡ t.pos = ground arith in pos-wake_reader u.wait_read u ∙ e

pos-tty_input_char : (cur : Option Running) (c : ℕ) (t : Tty) → (tty_input_char cur c t).pos ≡ t.pos
unfolding tty_input_char
pos-tty_input_char cur c t =
    ground (arith, pos-escape (escape_of c) t, pos-interrupt (ctrl_c_target cur t) t, pos-enter t)

step-IsInBounds : (c : Call) (t : Tty) → IsInBounds t → IsInBounds (step c t)
unfolding step tty_read_char tty_init
step-IsInBounds (key cur c) t b = record {
  valid = (content-tty_input_char cur c t b.valid).1;
  pos = omega (arith, pos-tty_input_char cur c t, b.pos);
}
step-IsInBounds read t b = ground (arith, b.valid.storage, b.valid.room, b.pos)
step-IsInBounds reset t b = ground (arith, b.valid.storage, b.valid.room, b.pos)

-- Whatever is typed, read and reset, in any order, from a state whose indices are inside the array
-- of 512 bytes, they are inside it after every call.
pub run-IsInBounds : (cs : List Call) (t : Tty) → IsInBounds t → IsInBounds (run cs t)
unfolding run
run-IsInBounds [] t b = b
run-IsInBounds (c ∷ cs) t b = run-IsInBounds cs (step c t) (step-IsInBounds c t b)
