-- ===== src/Tty/Reads.antt =====
-- What readers get.
use axiome_os.Prelude.{
  ℕ, zero, suc, ◌+◌, ◌≤◌, ◌<◌, ◌≡◌, refl, ap, sym, ◌∙◌, true, false, Option, none, some, List, [],
  ◌∷◌, ◌++◌, arith, get_or, take, length, length-append,
}
use mathlib.Core.List.{append_assoc, append-nil}
use axiome_os.Tty.{
  Tty, Running, put, tty_echo, wake_reader, tty_input_char, type_all, tty_read_char, enter,
  printable,
}
use axiome_os.Tty.Content.{
  IsTty, content, length-content, append_byte, edit, content-tty_input_char, content-enter,
}

-- The bytes of `n` reads in a row, with the state after them; it stops where a read has nothing.
pub read_bytes : ℕ → Tty → List ℕ × Tty
read_bytes zero t = ([], t)
read_bytes (suc n) t = elim (tty_read_char t).0 [
  | none ↦ ([], t)
  | some c ↦ let (s, t') = read_bytes n (tty_read_char t).1 in (c ∷ s, t')
]

slice : List ℕ → ℕ → ℕ → List ℕ
slice xs i zero = []
slice xs i (suc n) = get_or xs i 0 ∷ slice xs (i + 1) n

slice-cons : (x : ℕ) (xs : List ℕ) (i n : ℕ) → slice (x ∷ xs) (suc i) n ≡ slice xs i n
unfolding slice
slice-cons x xs i zero = refl
slice-cons x xs i (suc n) =
    let e : suc i + 1 ≡ suc (i + 1) = omega arith in
    rw e (ap (λ ys. get_or xs i 0 ∷ ys) (slice-cons x xs (i + 1) n))

slice-take : (xs : List ℕ) (n : ℕ) → n ≤ length xs → slice xs 0 n ≡ take n xs
unfolding slice
slice-take xs zero h = refl
slice-take [] (suc n) h = absurd (omega arith)
slice-take (x ∷ xs) (suc n) h =
    let e : 0 + 1 ≡ suc 0 = refl in
    rw (slice-cons x xs 0 n) (ap (λ ys. x ∷ ys) (slice-take xs n (omega arith)))

-- From inside a complete line the reads deliver the rest of it and then reset the buffer.
read_bytes-slice :
    (n : ℕ) (t : Tty)
    → t.ready ≡ true
    → t.pos + suc n ≡ t.len
    → read_bytes (suc n) t
      ≡ (slice t.line t.pos (suc n), record t { ready = false; len = 0; pos = 0 })
unfolding read_bytes tty_read_char slice
read_bytes-slice zero t r e = ground arith
read_bytes-slice (suc n) t r e =
    ground (arith, read_bytes-slice n (record t { pos = t.pos + 1 }) r (omega arith))

-- A text of printable ASCII bytes.
abbrev pub Printable : List ℕ → Type 0
Printable [] = Unit {0}
Printable (c ∷ s) = (0x20 ≤ c) × (c < 0x7F) × Printable s

key-printable :
    (cur : Option Running) (c : ℕ) (t : Tty)
    → 0x20 ≤ c
    → c < 0x7F
    → tty_input_char cur c t ≡ printable c t
unfolding tty_input_char
key-printable cur c t lo hi = ground arith

key-enter : (cur : Option Running) (t : Tty) → tty_input_char cur 10 t ≡ enter t
unfolding tty_input_char
key-enter cur t = refl

-- One key kept the reader's place and the flag.
record SamePlace (t u : Tty) : Type 0 where
  pos : u.pos ≡ t.pos
  ready : u.ready ≡ t.ready

printable-SamePlace : (c : ℕ) (t : Tty) → SamePlace t (printable c t)
unfolding printable
printable-SamePlace c t = ground arith

wake_reader-SamePlace : (r : Option ℕ) (t : Tty) → SamePlace t (wake_reader r t)
unfolding wake_reader
wake_reader-SamePlace none t = record { pos = refl; ready = refl }
wake_reader-SamePlace (some r) t = record { pos = refl; ready = refl }

enter-place : (t : Tty) → ((enter t).pos ≡ t.pos) × ((enter t).ready ≡ true)
unfolding enter
enter-place t =
    let u = record (tty_echo 10 (put 10 t)) { ready = true } in
    let s = wake_reader-SamePlace u.wait_read u in (s.pos ∙ put-pos, s.ready)
  where
    put-pos : (put 10 t).pos ≡ t.pos
    put-pos = ground arith

-- What has been typed of a text that fits.
record Typed (s : List ℕ) (t u : Tty) : Type 0 where
  bytes : content u ≡ content t ++ s
  valid : IsTty u
  place : SamePlace t u

length-Typed : {s : List ℕ} {t u : Tty} → IsTty t → Typed s t u → u.len ≡ t.len + length s
length-Typed {s} {t} {u} v e = omega (
  arith,
  length-content v,
  length-content e.valid,
  ap length e.bytes,
  length-append (content t) s,
)

type_one :
    (cur : Option Running) (c : ℕ) (t : Tty)
    → IsTty t
    → 0x20 ≤ c
    → c < 0x7F
    → t.len < 511
    → Typed (c ∷ []) t (tty_input_char cur c t)
unfolding edit
type_one cur c t v lo hi room =
    let (e, v') = content-tty_input_char cur c t v in
    record {
      bytes = e ∙ ground (arith, length-content v);
      valid = v';
      place = rw (key-printable cur c t lo hi) (printable-SamePlace c t);
    }

type_text :
    (cur : Option Running) (s : List ℕ) (t : Tty)
    → IsTty t
    → Printable s
    → t.len + length s ≤ 511
    → Typed s t (type_all cur s t)
unfolding type_all
type_text cur [] t v p fit = record {
  bytes = rw append-nil;
  valid = v;
  place = record { pos = refl; ready = refl };
}
type_text cur (c ∷ s) t v (lo, hi, p) fit =
    let one = type_one cur c t v lo hi (omega arith) in
    let rest =
      type_text cur s (tty_input_char cur c t) one.valid p (omega (arith, length-Typed v one)) in
    record {
      bytes = rest.bytes ∙ ap (λ w. w ++ s) one.bytes ∙ append_assoc (content t) (c ∷ []) s;
      valid = rest.valid;
      place = record {
        pos = rest.place.pos ∙ one.place.pos;
        ready = rest.place.ready ∙ one.place.ready;
      };
    }

type_all-append :
    (cur : Option Running) (s r : List ℕ) (t : Tty)
    → type_all cur (s ++ r) t ≡ type_all cur r (type_all cur s t)
unfolding type_all
type_all-append cur [] r t = refl
type_all-append cur (c ∷ s) r t = type_all-append cur s r (tty_input_char cur c t)

append_byte-room : (c : ℕ) (s : List ℕ) → length s < 511 → append_byte c s ≡ s ++ (c ∷ [])
unfolding append_byte
append_byte-room c s h = ground arith

-- The state of the buffer with no line in it.
abbrev pub Empty : Tty → Type 0
Empty t = (t.len ≡ 0) × (t.pos ≡ 0)

-- Typing a printable text of at most 510 bytes and Enter into an empty buffer, and then reading as
-- many bytes and one more, delivers the text and a newline; the buffer is empty and not ready again.
pub read_bytes-type_all :
    (cur : Option Running) (s : List ℕ) (t : Tty)
    → IsTty t
    → Empty t
    → Printable s
    → length s ≤ 510
    → let (bytes, t') = read_bytes (suc (length s)) (type_all cur (s ++ (10 ∷ [])) t) in
      (bytes ≡ s ++ (10 ∷ [])) × Empty t' × (t'.ready ≡ false)
unfolding type_all append_byte
read_bytes-type_all cur s t v (len0, pos0) p fit =
    let typed = type_text cur s t v p (omega arith) in
    let u = type_all cur s t in
    let (bytes, v') = content-enter u typed.valid in
    let (pos, ready) = enter-place u in
    let text : content u ≡ s = typed.bytes ∙ ap (λ n. take n t.line ++ s) len0 in
    let size : u.len ≡ length s = omega (arith, length-Typed v typed) in
    let body : content (enter u) ≡ s ++ (10 ∷ []) =
      bytes
      ∙ append_byte-room 10 (content u) (omega (arith, ap length text))
      ∙ ap (λ w. w ++ (10 ∷ [])) text in
    let len : (enter u).len ≡ suc (length s) =
      omega (arith, length-content v', ap length body, length-append s (10 ∷ [])) in
    let start : (enter u).pos ≡ 0 = pos ∙ typed.place.pos ∙ pos0 in
    rw
      (
        type_all-append cur s (10 ∷ []) t,
        key-enter cur u,
        read_bytes-slice (length s) (enter u) ready (omega arith),
        start,
        slice-take (enter u).line (suc (length s)) (omega (arith, v'.room, v'.storage)),
      )
      (ap (λ n. take n (enter u).line) (sym len) ∙ body, (refl, refl), refl)
