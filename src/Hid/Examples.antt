-- ===== src/Hid/Examples.antt =====
-- kernel/hid_boot.c with the a key held.
use axiome_os.Prelude.{ℕ, ◌≡◌, refl, List, [], ◌∷◌}
use axiome_os.Hid.{keyboard_hid_boot_report}
use axiome_os.Hid.Laws.{reports, report-held}

abbrev held : List ℕ
held = 0x04 ∷ 0 ∷ 0 ∷ 0 ∷ 0 ∷ 0 ∷ []

abbrev none_down : List ℕ
none_down = 0 ∷ 0 ∷ 0 ∷ 0 ∷ 0 ∷ 0 ∷ []

abbrev lost_report : List (ℕ × List ℕ)
lost_report = (0, 1 ∷ 1 ∷ 1 ∷ 1 ∷ 1 ∷ 1 ∷ []) ∷ []

shifted_letter : keyboard_hid_boot_report 0x20 held none_down ≡ (held, b'A' ∷ [])
unfolding keyboard_hid_boot_report
shifted_letter = refl

report-held_example :
    (keyboard_hid_boot_report 2 held
      (reports lost_report (keyboard_hid_boot_report 0 held none_down).0)).1
    ≡ []
unfolding keyboard_hid_boot_report
report-held_example = report-held 0 2 held none_down lost_report refl (refl, tt)
