-- ===== src/Security/Passwd/Lines.antt =====
-- The loop over the lines of /etc/passwd against the lines of its text.
use axiome_os.Prelude.{
  ℕ, zero, suc, ◌≤◌, ◌<◌, ◌≡◌, refl, ap, ◌∙◌, false, some, List, [], ◌∷◌, ◌++◌, ◌==◌, length,
  length-append, if◌then◌else◌, arith,
}
use axiome_os.Prelude.Members.{is_in, or_left, or_right}
use axiome_os.KString.{first}
use axiome_os.Security.Users.{User}
use axiome_os.Security.Passwd.{
  parse_passwd_line, load_lines, line_of, after_line, security_load_passwd,
}

-- The lines, each with its newline, and a last part without one.
unfoldable pub text : List (List ℕ) → List ℕ → List ℕ
text [] last = last
text (l ∷ ls) last = l ++ b'\n' ∷ text ls last

-- No line has a newline inside.
unfoldable pub AreLines : List (List ℕ) → Type 0
AreLines [] = Unit {0}
AreLines (l ∷ ls) = (is_in b'\n' l ≡ false) × AreLines ls

-- The users that one line adds; an empty line, or one that begins with a NUL, is skipped.
pub add_line : List User → List ℕ → List User
add_line us line = if first line == 0 then us else parse_passwd_line us line

-- The lines from the first to the last, and then the last part.
unfoldable pub add_lines : List User → List (List ℕ) → List ℕ → List User
add_lines us [] last = add_line us last
add_lines us (l ∷ ls) last = add_lines (add_line us l) ls last

line_of-line :
    (l r : List ℕ)
    → is_in b'\n' l ≡ false
    → (line_of (l ++ b'\n' ∷ r) ≡ l) × (after_line (l ++ b'\n' ∷ r) ≡ r)
unfolding is_in line_of after_line
line_of-line [] r h = (refl, refl)
line_of-line (c ∷ l) r h =
    let e : c == b'\n' ≡ false = or_left (c == b'\n') (is_in b'\n' l) h in
    let ih = line_of-line l r (or_right (c == b'\n') (is_in b'\n' l) h) in
    rw e (ap (λ s. c ∷ s) ih.0, ih.1)

line_of-last : (l : List ℕ) → is_in b'\n' l ≡ false → (line_of l ≡ l) × (after_line l ≡ [])
unfolding is_in line_of after_line
line_of-last [] h = (refl, refl)
line_of-last (c ∷ l) h =
    let e : c == b'\n' ≡ false = or_left (c == b'\n') (is_in b'\n' l) h in
    let ih = line_of-last l (or_right (c == b'\n') (is_in b'\n' l) h) in
    rw e (ap (λ s. c ∷ s) ih.0, ih.1)

-- One round, where the buffer is not at its end.
load_lines-step :
    (n : ℕ) (us : List User) (buf : List ℕ)
    → 0 < length buf
    → load_lines (suc n) us buf ≡ load_lines n (add_line us (line_of buf)) (after_line buf)
unfolding load_lines add_line
load_lines-step n us [] pos = absurd (omega arith)
load_lines-step n us (c ∷ buf) pos = refl

load_lines-nil : (n : ℕ) (us : List User) → load_lines n us [] ≡ us
unfolding load_lines
load_lines-nil zero us = refl
load_lines-nil (suc n) us = refl

load_lines-last :
    (n : ℕ) (us : List User) (last : List ℕ)
    → length last ≤ n
    → is_in b'\n' last ≡ false
    → load_lines n us last ≡ add_line us last
unfolding add_line
load_lines-last n us [] le h = load_lines-nil n us
load_lines-last zero us (c ∷ l) le h = absurd (omega arith)
load_lines-last (suc n) us (c ∷ l) le h =
    let cut = line_of-last (c ∷ l) h in
    load_lines-step n us (c ∷ l) (omega arith)
    ∙ ap (λ r. load_lines n (add_line us (line_of (c ∷ l))) r) cut.1
    ∙ load_lines-nil n (add_line us (line_of (c ∷ l)))
    ∙ ap (add_line us) cut.0

load_lines-text :
    (ls : List (List ℕ)) (last : List ℕ) (n : ℕ) (us : List User)
    → length (text ls last) ≤ n
    → AreLines ls
    → is_in b'\n' last ≡ false
    → load_lines n us (text ls last) ≡ add_lines us ls last
unfolding text AreLines add_lines
load_lines-text [] last n us le lines h = load_lines-last n us last le h
load_lines-text (l ∷ ls) last zero us le lines h =
    absurd (omega (arith, length-append l (b'\n' ∷ text ls last)))
load_lines-text (l ∷ ls) last (suc n) us le lines h =
    let rest = text ls last in
    let size = length-append l (b'\n' ∷ rest) in
    let cut = line_of-line l rest lines.0 in
    load_lines-step n us (l ++ b'\n' ∷ rest) (omega (arith, size))
    ∙ ap (λ r. load_lines n (add_line us (line_of (l ++ b'\n' ∷ rest))) r) cut.1
    ∙ ap (λ k. load_lines n (add_line us k) rest) cut.0
    ∙ load_lines-text ls last n (add_line us l) (omega (arith, size)) lines.1 h

-- For each list of lines without a newline, with a newline behind each, and each last part without
-- one: reading the file that is their text takes the lines in their order and then the last part, each
-- once and none cut or joined, skips those that are empty or begin with a NUL, and parses each other one
-- into the database.
pub security_load_passwd-text :
    (ls : List (List ℕ)) (last : List ℕ)
    → AreLines ls
    → is_in b'\n' last ≡ false
    → security_load_passwd (some (text ls last)) ≡ add_lines [] ls last
unfolding security_load_passwd
security_load_passwd-text ls last lines h =
    load_lines-text ls last (length (text ls last)) [] (omega arith) lines h
