-- ===== src/Tty.antt =====
-- kernel/tty.c: the line discipline between the input drivers and the readers. What a call does
-- outside the buffer (echo, signal, wake-up) is recorded in `log`, newest first. The lock is held
-- from each call's start to its end, so a call is one step.
mod Content
mod Bounds
mod Signals
mod Reads
mod Erased
mod Examples
use axiome_os.Prelude.{
  ℕ, zero, suc, ◌+◌, ◌-◌, Bool, true, false, not, ◌&&◌, ◌||◌, Option, none, some, List, [], ◌∷◌,
  ltb, leb, ◌==◌, if◌then◌else◌, get_or, set,
}

abbrev pub tty_line_max : ℕ
tty_line_max = 512

pub data Effect : Type 0 where
  echo : ℕ → Effect
  sigint : ℕ → Effect
  wake : ℕ → Effect

-- `line` is the array of 512 bytes; `wait_read` is the thread blocked in a read, by its number.
pub record Tty : Type 0 where
  pub line : List ℕ
  pub len : ℕ
  pub pos : ℕ
  pub ready : Bool
  pub wait_read : Option ℕ
  pub log : List Effect

-- The running thread, `sched_current()`: its number and its pid.
pub record Running : Type 0 where
  pub thread : ℕ
  pub pid : ℕ

pub tty_init : Tty → Tty
tty_init t = record t { len = 0; pos = 0; ready = false }

-- `if (tty_len < TTY_LINE_MAX - 1) tty_line[tty_len++] = c;`
pub put : ℕ → Tty → Tty
put c t =
    if ltb t.len (tty_line_max - 1)
    then record t { line = set t.line t.len c; len = t.len + 1 }
    else t

pub tty_echo : ℕ → Tty → Tty
tty_echo c t = record t { log = echo c ∷ t.log }

pub put_all : List ℕ → Tty → Tty
put_all [] t = t
put_all (c ∷ s) t = put_all s (put c t)

pub send_escape : List ℕ → Tty → Tty
unfolding put_all put
send_escape s t = record (put_all s t) { ready = true }

-- The escape sequences of the special keys, 0x100 to 0x109; any other code has none.
pub escape_of : ℕ → Option (List ℕ)
escape_of c =
    if c == 0x100
    then some (27 ∷ b'[' ∷ b'A' ∷ [])
    else if c == 0x101
    then some (27 ∷ b'[' ∷ b'B' ∷ [])
    else if c == 0x103
    then some (27 ∷ b'[' ∷ b'C' ∷ [])
    else if c == 0x102
    then some (27 ∷ b'[' ∷ b'D' ∷ [])
    else if c == 0x104
    then some (27 ∷ b'[' ∷ b'H' ∷ [])
    else if c == 0x105
    then some (27 ∷ b'[' ∷ b'F' ∷ [])
    else if c == 0x106
    then some (27 ∷ b'[' ∷ b'5' ∷ b'~' ∷ [])
    else if c == 0x107
    then some (27 ∷ b'[' ∷ b'6' ∷ b'~' ∷ [])
    else if c == 0x108
    then some (27 ∷ b'[' ∷ b'2' ∷ b'~' ∷ [])
    else if c == 0x109
    then some (27 ∷ b'[' ∷ b'3' ∷ b'~' ∷ [])
    else none

-- The thread that Ctrl-C is for: the running one if it is a process, else the blocked reader.
pub ctrl_c_target : Option Running → Tty → Option ℕ
ctrl_c_target none t = t.wait_read
ctrl_c_target (some r) t = if r.pid == 0 then t.wait_read else some r.thread

pub interrupt : Option ℕ → Tty → Tty
interrupt none t = record t { wait_read = none }
interrupt (some r) t = record t { wait_read = none; log = wake r ∷ sigint r ∷ t.log }

pub wake_reader : Option ℕ → Tty → Tty
wake_reader none t = t
wake_reader (some r) t = record t { wait_read = none; log = wake r ∷ t.log }

pub escape : Option (List ℕ) → Tty → Tty
unfolding send_escape
escape none t = t
escape (some s) t = send_escape s t

pub enter : Tty → Tty
unfolding put tty_echo wake_reader
enter t = let t = record (tty_echo 10 (put 10 t)) { ready = true } in wake_reader t.wait_read t

pub backspace : Tty → Tty
unfolding tty_echo
backspace t =
    if ltb 0 t.len && not (get_or t.line (t.len - 1) 0 == 10)
    then tty_echo 8 (tty_echo 32 (tty_echo 8 (record t { len = t.len - 1 })))
    else t

pub printable : ℕ → Tty → Tty
unfolding put tty_echo
printable c t = if ltb t.len (tty_line_max - 1) then tty_echo c (put c t) else t

pub tty_input_char : Option Running → ℕ → Tty → Tty
unfolding ctrl_c_target interrupt escape enter backspace printable
tty_input_char cur c t =
    if c == 3
    then interrupt (ctrl_c_target cur t) t
    else if leb 0x100 c
    then escape (escape_of c) t
    else if (c == 13) || (c == 10)
    then enter t
    else if (c == 8) || (c == 0x7F)
    then backspace t
    else if leb 0x20 c && ltb c 0x7F
    then printable c t
    else t

pub type_all : Option Running → List ℕ → Tty → Tty
type_all cur [] t = t
type_all cur (c ∷ s) t = type_all cur s (tty_input_char cur c t)

-- Take the byte at `pos`; at the end of the line the buffer is reset.
pub take_char : Tty → ℕ × Tty
take_char t = (
  get_or t.line t.pos 0,
  if leb t.len (t.pos + 1)
      then record t { ready = false; len = 0; pos = 0 }
      else record t { pos = t.pos + 1 },
)

-- `none` where it returns 0.
pub tty_read_char : Tty → Option ℕ × Tty
unfolding take_char
tty_read_char t = if t.ready then (let (c, t') = take_char t in (some c, t')) else (none, t)

pub data BlockedRead : Type 0 where
  got : ℕ → BlockedRead
  interrupted : BlockedRead
  waiting : BlockedRead

pub is_sigint : ℕ → Effect → Bool
is_sigint self (sigint r) = r == self
is_sigint self (echo c) = false
is_sigint self (wake r) = false

-- `self->sig_pending & (1 << SIGINT)`, of a signal raised here and not delivered yet
pub sig_pending : ℕ → List Effect → Bool
unfolding is_sigint
sig_pending self [] = false
sig_pending self (e ∷ es) = is_sigint self e || sig_pending self es

-- The loop of `tty_read_char_blocked` in thread `self`. Each element of the list is what is typed
-- during one `sched_yield()`, with the thread that runs then; `waiting` when the list ends first.
pub tty_read_char_blocked : ℕ → List (Option Running × List ℕ) → Tty → BlockedRead × Tty
unfolding sig_pending take_char
tty_read_char_blocked self [] t =
    if sig_pending self t.log
    then (interrupted, t)
    else if t.ready
    then (let (c, t') = take_char t in (got c, t'))
    else (waiting, record t { wait_read = some self })
tty_read_char_blocked self ((cur, typed) ∷ later) t =
    let t' = type_all cur typed (record t { wait_read = some self }) in
    let rest = tty_read_char_blocked self later (record t' { wait_read = none }) in
    if sig_pending self t.log
    then (interrupted, t)
    else if t.ready
    then (let (c, t') = take_char t in (got c, t'))
    else rest
