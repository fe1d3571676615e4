-- ===== src/Mouse.antt =====
-- kernel/mouse.c: the PS/2 packet assembly and the ring of 32 events. The port reads are arguments.
mod Fifo
mod Packets
mod Examples
use axiome_os.Prelude.{
  ℕ, ◌+◌, ◌/◌, ◌%◌, Bool, true, false, not, ◌&&◌, ◌||◌, Option, none, some, List, bit_and, leb,
  ◌==◌, if◌then◌else◌, get_or, set,
}
use axiome_os.Prelude.Int.{ℤ, pos, int8, negate}

abbrev pub event_buf : ℕ
event_buf = 32

pub record Event : Type 0 where
  pub dx : ℤ
  pub dy : ℤ
  pub buttons : ℕ

abbrev pub no_event : Event
no_event = record { dx = pos 0; dy = pos 0; buttons = 0 }

pub record Mouse : Type 0 where
  pub evbuf : List Event
  pub evhead : ℕ
  pub evtail : ℕ
  pub cycle : ℕ
  pub packet : List ℕ

pub mouse_submit_event : Event → Mouse → Mouse
mouse_submit_event e m =
    let next = (m.evhead + 1) % event_buf in
    if next == m.evtail then m else record m { evbuf = set m.evbuf m.evhead e; evhead = next }

pub mouse_process_packet : Mouse → Mouse
unfolding mouse_submit_event
mouse_process_packet m =
    let flags = get_or m.packet 0 0 in
    if (bit_and flags 0x08 == 0) || not (bit_and flags 0xc0 == 0)
    then m
    else mouse_submit_event
        (record {
          dx = int8 (get_or m.packet 1 0);
          dy = negate (int8 (get_or m.packet 2 0));
          buttons = bit_and flags 7;
        })
        m

-- `status` is read from port 0x64 and `byte` from port 0x60.
pub mouse_irq_handler : (status byte : ℕ) → Mouse → Mouse
unfolding mouse_process_packet
mouse_irq_handler status byte m =
    if bit_and status 0x20 == 0
    then m
    else let m' = record m { packet = set m.packet m.cycle byte; cycle = m.cycle + 1 } in
      if leb 3 m'.cycle then mouse_process_packet (record m' { cycle = 0 }) else m'

pub mouse_read_event : Mouse → Option Event × Mouse
mouse_read_event m =
    if m.evtail == m.evhead
    then (none, m)
    else (some (get_or m.evbuf m.evtail no_event), record m { evtail = (m.evtail + 1) % event_buf })
