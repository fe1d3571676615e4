-- ===== src/Journal/Examples.antt =====
-- A journal at fixed inputs.
use axiome_os.Prelude.{
  ℕ, ◌+◌, ◌-◌, ◌^◌, ◌<◌, length, replicate, ◌≡◌, refl, true, List, [], ◌∷◌, ◌++◌, drop, ltb,
  if◌then◌else◌, arith,
}
use axiome_os.Journal.{Journal, ring_size, ring_append, journal_flush_locked}
use axiome_os.Journal.Laws.{Holds, Holds-ring_append, applied-journal_flush_locked}
use axiome_os.Journal.Writes.{applied, all_taken}

abbrev empty_journal : Journal
empty_journal = record {
  ring = λ i. 0;
  prod = 0;
  flushed = 0;
  file = true;
  off = 7;
  ready = true;
  calls = [];
}

empty-Holds : Holds empty_journal []
empty-Holds = record {
  count = refl;
  behind = omega arith;
  cells = λ i low high. absurd (omega arith);
}

abbrev ok_line : List ℕ
ok_line = b'o' ∷ b'k' ∷ b'\n' ∷ []

abbrev one_line : Journal
one_line = ring_append empty_journal ok_line

one_line_ready : (one_line.ready ≡ true) × (one_line.file ≡ true) × (one_line.flushed ≡ 0)
unfolding ring_append
one_line_ready = (refl, refl, refl)

-- The file had seven bytes.
abbrev old_file : List ℕ
old_file = replicate 7 b'-'

one_line_at_end :
    (one_line.off ≡ length (applied old_file one_line.calls))
    × (length (applied old_file one_line.calls) + 3 < 2 ^ 64)
unfolding ring_append applied
one_line_at_end = (refl, omega arith)

applied-journal_flush_locked_example :
    let k = journal_flush_locked all_taken one_line in
    let from = if ltb ring_size (3 - one_line.flushed) then 3 - ring_size else one_line.flushed in
    (applied old_file k.calls ≡ applied old_file one_line.calls ++ drop from ok_line)
    × (k.off ≡ length (applied old_file k.calls))
    × (k.flushed ≡ 3)
applied-journal_flush_locked_example =
    applied-journal_flush_locked old_file one_line ok_line
      (Holds-ring_append ok_line empty_journal [] empty-Holds (omega arith)) one_line_at_end.0
      one_line_at_end.1 one_line_ready.0 one_line_ready.1
