-- ===== src/Mouse/Examples.antt =====
-- kernel/mouse.c with one event waiting, at the ring's last cell.
use axiome_os.Prelude.{◌≡◌, refl, [], ◌∷◌, ◌++◌, arith, replicate, ltb, length, if◌then◌else◌, ◌&&◌}
use axiome_os.Prelude.Int.{pos}
use axiome_os.Mouse.{Mouse, no_event, mouse_irq_handler}
use axiome_os.Mouse.Fifo.{IsMouse, pending}
use axiome_os.Mouse.Packets.{event_of, is_packet, pending-three_bytes}

abbrev one_waiting : Mouse
one_waiting = record {
  evbuf = replicate 32 no_event;
  evhead = 0;
  evtail = 31;
  cycle = 0;
  packet = 0 ∷ 0 ∷ 0 ∷ [];
}

one_waiting-IsMouse : IsMouse one_waiting
one_waiting-IsMouse = omega arith

-- Down moves are negative in the packet and positive on the screen.
moved : event_of 9 5 0xFE ≡ record { dx = pos 5; dy = pos 2; buttons = 1 }
moved = refl

pending-three_bytes_example :
    let m =
      mouse_irq_handler 0x20 0xFE
        (mouse_irq_handler 0x20 5 (mouse_irq_handler 0x20 9 one_waiting)) in
    (pending m ≡ (
      if is_packet 9 && ltb (length (pending one_waiting)) 31
      then pending one_waiting ++ (event_of 9 5 0xFE ∷ [])
      else pending one_waiting))
    × (m.cycle ≡ 0)
pending-three_bytes_example =
    pending-three_bytes 0x20 9 5 0xFE one_waiting refl one_waiting-IsMouse refl
