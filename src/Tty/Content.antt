-- ===== src/Tty/Content.antt =====
-- The buffer against a line editor on lists.
use axiome_os.Prelude.{
  ℕ, zero, suc, ◌+◌, ◌-◌, ◌≤◌, ◌<◌, ◌≡◌, refl, ap, inl, inr, ◌∙◌, true, not, ◌&&◌, ◌||◌, Option,
  none, some, List, [], ◌∷◌, ◌++◌, arith, ltb, leb, ◌==◌, if◌then◌else◌, Bool-cases, get_or, set,
  take, length, length-set, length-take,
}
use axiome_os.Tty.{
  Tty, Running, tty_line_max, put, put_all, tty_echo, escape_of, escape, ctrl_c_target, interrupt,
  wake_reader, enter, backspace, printable, tty_input_char,
}

-- The bytes of the line so far.
abbrev pub content : Tty → List ℕ
content t = take t.len t.line

-- The array has its 512 bytes and one of them stays unused.
pub record IsTty (t : Tty) : Type 0 where
  pub storage : length t.line ≡ tty_line_max
  pub room : t.len < tty_line_max

take-set :
    (xs : List ℕ) (n c : ℕ) → n < length xs → take (suc n) (set xs n c) ≡ take n xs ++ (c ∷ [])
take-set [] n c h = absurd (omega arith)
take-set (x ∷ xs) zero c h = refl
take-set (x ∷ xs) (suc n) c h = ap (λ ys. x ∷ ys) (take-set xs n c (omega arith))

take-set_out : (xs : List ℕ) (n c : ℕ) → take n (set xs n c) ≡ take n xs
take-set_out [] n c = refl
take-set_out (x ∷ xs) zero c = refl
take-set_out (x ∷ xs) (suc n) c = ap (λ ys. x ∷ ys) (take-set_out xs n c)

pub length-content : {t : Tty} → IsTty t → length (content t) ≡ t.len
length-content {t} v = omega (arith, length-take t.len t.line, v.storage, v.room)

-- The reference editor: what a key does to the line, as a list.
unfoldable pub append_byte : ℕ → List ℕ → List ℕ
append_byte c s = if ltb (length s) 511 then s ++ (c ∷ []) else s

unfoldable pub append_bytes : List ℕ → List ℕ → List ℕ
append_bytes [] s = s
append_bytes (c ∷ cs) s = append_bytes cs (append_byte c s)

-- Drop the last byte, unless it ends an earlier line.
unfoldable pub rub_out : List ℕ → List ℕ
rub_out [] = []
rub_out (c ∷ []) = if c == 10 then c ∷ [] else []
rub_out (c ∷ d ∷ s) = c ∷ rub_out (d ∷ s)

unfoldable pub append_escape : Option (List ℕ) → List ℕ → List ℕ
append_escape none s = s
append_escape (some e) s = append_bytes e s

unfoldable pub edit : ℕ → List ℕ → List ℕ
unfolding append_byte append_escape append_bytes rub_out
edit c s =
    if c == 3
    then s
    else if leb 0x100 c
    then append_escape (escape_of c) s
    else if (c == 13) || (c == 10)
    then append_byte 10 s
    else if (c == 8) || (c == 0x7F)
    then rub_out s
    else if leb 0x20 c && ltb c 0x7F
    then append_byte c s
    else s

content-put :
    (c : ℕ) (t : Tty) → IsTty t → (content (put c t) ≡ append_byte c (content t)) × IsTty (put c t)
unfolding put append_byte
content-put c t v = ground (
  arith,
  length-content v,
  take-set t.line t.len c,
  length-set t.line t.len c,
  ap (λ n. take n (set t.line t.len c)) (succ t.len),
)
  where
    succ : (n : ℕ) → n + 1 ≡ suc n
    succ n = omega arith

content-put_all :
    (s : List ℕ) (t : Tty)
    → IsTty t
    → (content (put_all s t) ≡ append_bytes s (content t)) × IsTty (put_all s t)
unfolding put_all append_bytes
content-put_all [] t v = (refl, v)
content-put_all (c ∷ s) t v =
    let (e, v') = content-put c t v in
    let (e', v'') = content-put_all s (put c t) v' in (e' ∙ ap (append_bytes s) e, v'')

rub_out-take :
    (n : ℕ) (xs : List ℕ)
    → n < length xs
    → rub_out (take (suc n) xs) ≡ (if get_or xs n 0 == 10 then take (suc n) xs else take n xs)
unfolding rub_out
rub_out-take n [] h = absurd (omega arith)
rub_out-take zero (x ∷ xs) h = ground arith
rub_out-take (suc n) (x ∷ []) h = absurd (omega arith)
rub_out-take (suc n) (x ∷ y ∷ xs) h = ground (arith, rub_out-take n (y ∷ xs))

rub_out_lem :
    (n : ℕ) (xs : List ℕ)
    → n ≤ length xs
    → rub_out (take n xs)
      ≡ (if ltb 0 n && not (get_or xs (n - 1) 0 == 10) then take (n - 1) xs else take n xs)
unfolding rub_out
rub_out_lem zero xs h = refl
rub_out_lem (suc n) xs h =
    let e : suc n - 1 ≡ n = omega arith in rw e (ground (arith, rub_out-take n xs))

content-backspace :
    (t : Tty) → IsTty t → (content (backspace t) ≡ rub_out (content t)) × IsTty (backspace t)
unfolding backspace
content-backspace t v = ground (arith, v.storage, v.room, rub_out_lem t.len t.line)

content-wake_reader :
    (r : Option ℕ) (t : Tty)
    → IsTty t
    → (content (wake_reader r t) ≡ content t) × IsTty (wake_reader r t)
unfolding wake_reader
content-wake_reader none t v = (refl, v)
content-wake_reader (some r) t v = (refl, record { storage = v.storage; room = v.room })

pub content-enter :
    (t : Tty) → IsTty t → (content (enter t) ≡ append_byte 10 (content t)) × IsTty (enter t)
unfolding enter
content-enter t v =
    let (e, v') = content-put 10 t v in
    let u = record (tty_echo 10 (put 10 t)) { ready = true } in
    let (e', v'') =
      content-wake_reader u.wait_read u (record { storage = v'.storage; room = v'.room }) in
    (e' ∙ e, v'')

content-escape :
    (o : Option (List ℕ)) (t : Tty)
    → IsTty t
    → (content (escape o t) ≡ append_escape o (content t)) × IsTty (escape o t)
unfolding escape append_escape
content-escape none t v = (refl, v)
content-escape (some s) t v =
    let (e, v') = content-put_all s t v in (e, record { storage = v'.storage; room = v'.room })

content-printable :
    (c : ℕ) (t : Tty)
    → IsTty t
    → (content (printable c t) ≡ append_byte c (content t)) × IsTty (printable c t)
unfolding printable append_byte
content-printable c t v = ground (arith, content-put c t v, length-content v)

content-interrupt :
    (r : Option ℕ) (t : Tty)
    → IsTty t
    → (content (interrupt r t) ≡ content t) × IsTty (interrupt r t)
unfolding interrupt
content-interrupt none t v = (refl, record { storage = v.storage; room = v.room })
content-interrupt (some r) t v = (refl, record { storage = v.storage; room = v.room })

-- Every key does to the line what the reference editor does to a list of bytes, and the array keeps
-- its size with one byte to spare, so that no write is out of bounds.
pub content-tty_input_char :
    (cur : Option Running) (c : ℕ) (t : Tty)
    → IsTty t
    → (content (tty_input_char cur c t) ≡ edit c (content t)) × IsTty (tty_input_char cur c t)
unfolding tty_input_char edit
content-tty_input_char cur c t v = elim (Bool-cases (c == 3)) [
  | inl e ↦ rw (e, tty_input_char, edit) (content-interrupt (ctrl_c_target cur t) t v)
  | inr e ↦ elim (Bool-cases (leb 0x100 c)) [
    | inl e' ↦ rw (e, e', tty_input_char, edit) (content-escape (escape_of c) t v)
    | inr e' ↦ elim (Bool-cases ((c == 13) || (c == 10))) [
      | inl q ↦ rw (e, e', q, tty_input_char, edit) (content-enter t v)
      | inr q ↦ elim (Bool-cases ((c == 8) || (c == 0x7F))) [
        | inl q' ↦ rw (e, e', q, q', tty_input_char, edit) (content-backspace t v)
        | inr q' ↦ elim (Bool-cases (leb 0x20 c && ltb c 0x7F)) [
          | inl k ↦ rw (e, e', q, q', k, tty_input_char, edit) (content-printable c t v)
          | inr k ↦ rw (e, e', q, q', k, tty_input_char, edit) (refl, v)
        ]
      ]
    ]
  ]
]
