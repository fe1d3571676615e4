-- ===== src/Hid.antt =====
-- kernel/hid_boot.c: boot-protocol keyboard reports. A report of six key codes is turned into the
-- codes handed to `tty_input_char`, in order, and becomes the previous report.
mod Laws
mod Examples
use axiome_os.Prelude.{
  ℕ, ◌+◌, ◌-◌, Bool, true, false, not, ◌&&◌, ◌||◌, List, [], ◌∷◌, ◌++◌, bit_and, leb, ◌==◌,
  if◌then◌else◌, get_or,
}

pub key_present : List ℕ → ℕ → Bool
key_present [] key = false
key_present (k ∷ ks) key = (k == key) || key_present ks key

abbrev digits : List ℕ
digits = b'1' ∷ b'2' ∷ b'3' ∷ b'4' ∷ b'5' ∷ b'6' ∷ b'7' ∷ b'8' ∷ b'9' ∷ b'0' ∷ []

abbrev shifted_digits : List ℕ
shifted_digits = b'!' ∷ b'@' ∷ b'#' ∷ b'$' ∷ b'%' ∷ b'^' ∷ b'&' ∷ b'*' ∷ b'(' ∷ b')' ∷ []

-- The cases 0x28 to 0x38 of the switch, without and with shift.
abbrev punctuation : List ℕ
punctuation =
    10 ∷ 27 ∷ 8 ∷ 9 ∷ b' ' ∷ b'-' ∷ b'=' ∷ b'[' ∷ b']' ∷ 92 ∷ 0 ∷ b';' ∷ 39 ∷ b'`' ∷ b',' ∷ b'.'
    ∷ b'/' ∷ []

abbrev shifted_punctuation : List ℕ
shifted_punctuation =
    10 ∷ 27 ∷ 8 ∷ 9 ∷ b' ' ∷ b'_' ∷ b'+' ∷ b'{' ∷ b'}' ∷ b'|' ∷ 0 ∷ b':' ∷ 34 ∷ b'~' ∷ b'<' ∷ b'>'
    ∷ b'?' ∷ []

-- The cases 0x49 to 0x52: insert, home, page up, delete, end, page down, right, left, down, up.
abbrev navigation : List ℕ
navigation = 0x108 ∷ 0x104 ∷ 0x106 ∷ 0x109 ∷ 0x105 ∷ 0x107 ∷ 0x103 ∷ 0x102 ∷ 0x101 ∷ 0x100 ∷ []

pub hid_key : ℕ → Bool → ℕ
hid_key key shift =
    if leb 0x04 key && leb key 0x1d
    then (if shift then b'A' else b'a') + key - 0x04
    else if leb 0x1e key && leb key 0x27
    then get_or (if shift then shifted_digits else digits) (key - 0x1e) 0
    else if leb 0x28 key && leb key 0x38
    then get_or (if shift then shifted_punctuation else punctuation) (key - 0x28) 0
    else if leb 0x49 key && leb key 0x52
    then get_or navigation (key - 0x49) 0
    else 0

-- Codes 1 to 3 say that the keyboard could not tell which keys are down.
pub rollover : List ℕ → Bool
rollover [] = false
rollover (k ∷ ks) = (leb 1 k && leb k 3) || rollover ks

pub press : Bool → List ℕ → ℕ → List ℕ
unfolding key_present hid_key
press shift previous key =
    if not (key == 0) && not (key_present previous key)
    then (if hid_key key shift == 0 then [] else hid_key key shift ∷ [])
    else []

pub presses : Bool → List ℕ → List ℕ → List ℕ
unfolding press
presses shift previous [] = []
presses shift previous (k ∷ ks) = press shift previous k ++ presses shift previous ks

-- `previous` before and after, and the codes sent.
pub keyboard_hid_boot_report : ℕ → List ℕ → List ℕ → List ℕ × List ℕ
unfolding rollover presses
keyboard_hid_boot_report modifiers keys previous =
    if rollover keys
    then (previous, [])
    else (keys, presses (not (bit_and modifiers 0x22 == 0)) previous keys)
