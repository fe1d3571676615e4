-- ===== src/Tty/Signals.antt =====
-- Ctrl-C and the blocked reader.
use axiome_os.Prelude.{
  ℕ, ◌≡◌, refl, ap, ◌∙◌, inl, inr, Bool-cases, false, Option, none, some, List, [], ◌∷◌, ◌==◌,
  if◌then◌else◌,
}
use axiome_os.Tty.{
  Tty, Running, ctrl_c_target, interrupt, tty_input_char, type_all, BlockedRead, interrupted,
  waiting, sigint, wake, sig_pending, tty_read_char_blocked,
}

-- One round of the wait.
waits :
    (self : ℕ) (cur : Option Running) (typed : List ℕ) (later : List (Option Running × List ℕ))
    (t : Tty)
    → sig_pending self t.log ≡ false
    → t.ready ≡ false
    → tty_read_char_blocked self ((cur, typed) ∷ later) t
      ≡ tty_read_char_blocked self later
          (record (type_all cur typed (record t { wait_read = some self })) { wait_read = none })
unfolding tty_read_char_blocked
waits self cur typed later t quiet idle = rw (quiet, idle)

after_ctrl_c :
    (self : ℕ) (cur : Option Running) (t : Tty) (o : Option ℕ)
    → ctrl_c_target cur (record t { wait_read = some self }) ≡ o
    → record (type_all cur (3 ∷ []) (record t { wait_read = some self })) { wait_read = none }
      ≡ interrupt o t
unfolding tty_input_char type_all interrupt
after_ctrl_c self cur t none e = rw e refl
after_ctrl_c self cur t (some r) e = rw e refl

-- The thread that a Ctrl-C is for while `self` waits: the running one if it is a process, else `self`.
pub signalled : ℕ → Option Running → ℕ
signalled self none = self
signalled self (some run) = if run.pid == 0 then self else run.thread

target_lem :
    (self : ℕ) (cur : Option Running) (t : Tty)
    → ctrl_c_target cur (record t { wait_read = some self }) ≡ some (signalled self cur)
unfolding ctrl_c_target signalled
target_lem self none t = refl
target_lem self (some run) t = elim (Bool-cases (run.pid == 0)) [
  | inl e ↦ rw e refl
  | inr e ↦ rw e refl
]

-- What the waiting thread comes to once thread `r` has been signalled and woken.
woken : ℕ → ℕ → Tty → BlockedRead × Tty
woken self r t = (
  if r == self then interrupted else waiting,
  record t { wait_read = if r == self then none else some self; log = wake r ∷ sigint r ∷ t.log },
)

after_interrupt :
    (self r : ℕ) (t : Tty)
    → sig_pending self t.log ≡ false
    → t.ready ≡ false
    → tty_read_char_blocked self [] (interrupt (some r) t) ≡ woken self r t
unfolding tty_read_char_blocked interrupt sig_pending woken
after_interrupt self r t quiet idle = elim (Bool-cases (r == self)) [
  | inl e ↦ rw e refl
  | inr e ↦ rw (e, quiet, idle) refl
]

-- A reader that waits with no line ready and no signal pending, when Ctrl-C is typed in the one time
-- that it yields: the signal goes to the running thread if that is a process, and to the reader if it
-- is not or none runs; that thread is signalled and then woken, and nothing else of the terminal
-- changes but the place of the waiting reader. The read returns -EINTR, with no reader left in that
-- place, if the reader itself was signalled, and else waits again, in that place.
pub tty_read_char_blocked-ctrl_c :
    (self : ℕ) (cur : Option Running) (t : Tty)
    → sig_pending self t.log ≡ false
    → t.ready ≡ false
    → let r = signalled self cur in
      tty_read_char_blocked self ((cur, 3 ∷ []) ∷ []) t ≡ (
        if r == self then interrupted else waiting,
        record t {
          wait_read = if r == self then none else some self;
          log = wake r ∷ sigint r ∷ t.log;
        },
      )
unfolding woken
tty_read_char_blocked-ctrl_c self cur t quiet idle =
    waits self cur (3 ∷ []) [] t quiet idle
    ∙ ap (tty_read_char_blocked self [])
        (after_ctrl_c self cur t (some (signalled self cur)) (target_lem self cur t))
    ∙ after_interrupt self (signalled self cur) t quiet idle
