-- ===== src/Tty/Examples.antt =====
-- kernel/tty.c at an empty buffer.
use axiome_os.Prelude.{
  ℕ, ◌≡◌, refl, false, Option, none, some, List, [], ◌∷◌, arith, replicate, length-replicate,
  if◌then◌else◌, ◌==◌,
}
use axiome_os.Tty.{
  Tty, Running, tty_input_char, type_all, tty_read_char_blocked, interrupted, waiting, wake, sigint,
  sig_pending,
}
use axiome_os.Tty.Content.{IsTty, content, edit, content-tty_input_char}
use axiome_os.Tty.Bounds.{Call, key, read, run, IsInBounds, run-IsInBounds}
use axiome_os.Tty.Reads.{Empty, read_bytes, read_bytes-type_all}
use axiome_os.Tty.Signals.{signalled, tty_read_char_blocked-ctrl_c}

abbrev fresh : Tty
fresh = record {
  line = replicate 512 0;
  len = 0;
  pos = 0;
  ready = false;
  wait_read = none;
  log = [];
}

fresh-IsTty : IsTty fresh
fresh-IsTty = record { storage = length-replicate {A = ℕ} 512 0; room = omega arith }

content-tty_input_char_example :
    (content (tty_input_char none b'a' fresh) ≡ edit b'a' (content fresh))
    × IsTty (tty_input_char none b'a' fresh)
content-tty_input_char_example = content-tty_input_char none b'a' fresh fresh-IsTty

abbrev calls : List Call
calls = key none 0x100 ∷ read ∷ read ∷ key none 8 ∷ read ∷ []

run-IsInBounds_example : IsInBounds (run calls fresh)
run-IsInBounds_example =
    run-IsInBounds calls fresh (record { valid = fresh-IsTty; pos = omega arith })

read_bytes-type_all_example :
    let (bytes, t) = read_bytes 3 (type_all none (b'o' ∷ b'k' ∷ 10 ∷ []) fresh) in
    (bytes ≡ b'o' ∷ b'k' ∷ 10 ∷ []) × Empty t × (t.ready ≡ false)
read_bytes-type_all_example =
    read_bytes-type_all none (b'o' ∷ b'k' ∷ []) fresh fresh-IsTty (refl, refl) (omega arith)
      (omega arith)

-- The reader is thread 7 and process 4 runs, as thread 9, when Ctrl-C is typed.
abbrev other : Option Running
other = some (record { thread = 9; pid = 4 })

tty_read_char_blocked-ctrl_c_example : tty_read_char_blocked 7 ((other, 3 ∷ []) ∷ []) fresh ≡ (
  if signalled 7 other == 7 then interrupted else waiting,
  record fresh {
    wait_read = if signalled 7 other == 7 then none else some 7;
    log = wake (signalled 7 other) ∷ sigint (signalled 7 other) ∷ [];
  },
)
unfolding sig_pending
tty_read_char_blocked-ctrl_c_example = tty_read_char_blocked-ctrl_c 7 other fresh quiet refl
  where
    quiet : sig_pending 7 [] ≡ false
    quiet = refl
