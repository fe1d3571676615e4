-- ===== src/Hid/Laws.antt =====
-- Keys that stay down are sent once.
use axiome_os.Prelude.{ℕ, ◌≡◌, refl, Bool, true, false, List, [], ◌∷◌, arith}
use axiome_os.Hid.{key_present, presses, rollover, keyboard_hid_boot_report}

-- Each key of the first list is in the second.
abbrev Within : List ℕ → List ℕ → Type 0
Within [] ks = Unit {0}
Within (k ∷ r) ks = (key_present ks k ≡ true) × Within r ks

Within-cons : (r ks : List ℕ) (k : ℕ) → Within r ks → Within r (k ∷ ks)
unfolding key_present
Within-cons [] ks k w = tt
Within-cons (j ∷ r) ks k w = (ground (arith, w.0), Within-cons r ks k w.1)

Within-refl : (ks : List ℕ) → Within ks ks
unfolding key_present
Within-refl [] = tt
Within-refl (k ∷ ks) = (ground arith, Within-cons ks ks k (Within-refl ks))

presses-Within : (shift : Bool) (r ks : List ℕ) → Within r ks → presses shift ks r ≡ []
unfolding presses
presses-Within shift [] ks w = refl
presses-Within shift (k ∷ r) ks w = rw (w.0) (ground (arith, presses-Within shift r ks w.1))

report_again :
    (m : ℕ) (keys : List ℕ)
    → rollover keys ≡ false
    → keyboard_hid_boot_report m keys keys ≡ (keys, [])
unfolding keyboard_hid_boot_report
report_again m keys ok = rw (ok, presses-Within _ keys keys (Within-refl keys))

-- The state after some reports, each with its modifiers.
pub reports : List (ℕ × List ℕ) → List ℕ → List ℕ
reports [] previous = previous
reports ((m, keys) ∷ rest) previous = reports rest (keyboard_hid_boot_report m keys previous).0

-- None of the reports could name its keys.
abbrev pub AllLost : List (ℕ × List ℕ) → Type 0
AllLost [] = Unit {0}
AllLost ((m, keys) ∷ rest) = (rollover keys ≡ true) × AllLost rest

reports_lost :
    (lost : List (ℕ × List ℕ)) (previous : List ℕ) → AllLost lost → reports lost previous ≡ previous
unfolding reports keyboard_hid_boot_report
reports_lost [] previous gone = refl
reports_lost ((m, keys) ∷ rest) previous gone =
    rw (gone.0, reports) (reports_lost rest previous gone.1)

first_report :
    (m : ℕ) (keys previous : List ℕ)
    → rollover keys ≡ false
    → (keyboard_hid_boot_report m keys previous).0 ≡ keys
unfolding keyboard_hid_boot_report
first_report m keys previous ok = rw ok

-- A report that names its keys is remembered across any number of reports that do not (rollover):
-- the same keys, reported again with any modifiers, send nothing.
pub report-held :
    (m m' : ℕ) (keys previous : List ℕ) (lost : List (ℕ × List ℕ))
    → rollover keys ≡ false
    → AllLost lost
    → (keyboard_hid_boot_report m' keys
        (reports lost (keyboard_hid_boot_report m keys previous).0)).1
      ≡ []
report-held m m' keys previous lost ok gone =
    rw (first_report m keys previous ok, reports_lost lost keys gone, report_again m' keys ok)
