-- ===== src/Tty/Erased.antt =====
-- Backspace in a line that an escape sequence has completed.
use axiome_os.Prelude.{ℕ, ◌≤◌, ◌≡◌, refl, Bool, Option, some, List, [], ◌∷◌, arith, length}
use axiome_os.Tty.{Tty, Running, Effect, tty_input_char, type_all, tty_read_char, escape_of}
use axiome_os.Tty.Content.{IsTty, content}
use axiome_os.Tty.Reads.{Empty}

-- The buffer with no line in it and with the rest of its state given.
abbrev bare : List ℕ → Bool → Option ℕ → List Effect → Tty
bare line ready wait log = record {
  line = line;
  len = 0;
  pos = 0;
  ready = ready;
  wait_read = wait;
  log = log;
}

erased_bare :
    (cur : Option Running) (line : List ℕ) (ready : Bool) (wait : Option ℕ) (log : List Effect)
    → 3 ≤ length line
    → let u = type_all cur (0x100 ∷ 8 ∷ 8 ∷ 8 ∷ []) (bare line ready wait log) in
      (content u ≡ []) × ((tty_read_char u).0 ≡ some 27)
unfolding type_all tty_input_char tty_read_char escape_of
erased_bare cur [] ready wait log h = absurd (omega arith)
erased_bare cur (x ∷ []) ready wait log h = absurd (omega arith)
erased_bare cur (x ∷ y ∷ []) ready wait log h = absurd (omega arith)
erased_bare cur (x ∷ y ∷ z ∷ line) ready wait log h = (refl, refl)

-- An escape sequence completes the line, but Backspace erases its bytes like any others. In an empty
-- buffer of 512 bytes, after the Up key and three times Backspace nothing of the line is left, and
-- still a read succeeds and returns the byte 27 that was erased.
pub tty_read_char-erased :
    (cur : Option Running) (t : Tty)
    → IsTty t
    → Empty t
    → let u = type_all cur (0x100 ∷ 8 ∷ 8 ∷ 8 ∷ []) t in
      (content u ≡ []) × ((tty_read_char u).0 ≡ some 27)
tty_read_char-erased cur t v (len0, pos0) =
    let e : t ≡ bare t.line t.ready t.wait_read t.log =
      λ i. record t { len = len0 i; pos = pos0 i } in
    rw e (erased_bare cur t.line t.ready t.wait_read t.log (omega (arith, v.storage)))
