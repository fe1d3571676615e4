-- ===== src/Mouse/Packets.antt =====
-- Three bytes from the mouse make one packet.
use axiome_os.Prelude.{
  ℕ, ◌+◌, ◌≡◌, refl, ap, ◌∙◌, inl, inr, Bool, false, not, ◌&&◌, ◌||◌, List, [], ◌∷◌, ◌++◌, arith,
  bit_and, ltb, leb, ◌==◌, if◌then◌else◌, Bool-cases, get_or, set, length, length-set,
}
use axiome_os.Prelude.Int.{int8, negate}
use axiome_os.Mouse.{Mouse, Event, mouse_submit_event, mouse_process_packet, mouse_irq_handler}
use axiome_os.Mouse.Fifo.{IsMouse, pending, pending-mouse_submit_event}

process-IsMouse : (m : Mouse) → IsMouse m → IsMouse (mouse_process_packet m)
unfolding mouse_process_packet
process-IsMouse m v = ground (
  arith,
  pending-mouse_submit_event
      (record {
        dx = int8 (get_or m.packet 1 0);
        dy = negate (int8 (get_or m.packet 2 0));
        buttons = bit_and (get_or m.packet 0 0) 7;
      })
      m v,
)

-- An interrupt keeps the indices of the ring and of the packet in range.
pub mouse_irq_handler-IsMouse :
    (status byte : ℕ) (m : Mouse) → IsMouse m → IsMouse (mouse_irq_handler status byte m)
unfolding mouse_irq_handler
mouse_irq_handler-IsMouse status byte m v =
    let m' = record m { packet = set m.packet m.cycle byte; cycle = m.cycle + 1 } in
    let stored : length (set m.packet m.cycle byte) ≡ 3 =
      omega (arith, length-set m.packet m.cycle byte, v.packet) in
    elim (Bool-cases (bit_and status 0x20 == 0)) [
      | inl e ↦ rw (e, mouse_irq_handler) v
      | inr e ↦ elim (Bool-cases (leb 3 (m.cycle + 1))) [
        | inl last ↦
            rw (e, last, mouse_irq_handler)
              (process-IsMouse (record m' { cycle = 0 })
                (record {
                  cells = v.cells;
                  head = v.head;
                  tail = v.tail;
                  packet = stored;
                  cycle = omega arith;
                }))
        | inr more ↦
            rw (e, more, mouse_irq_handler)
              (record {
                cells = v.cells;
                head = v.head;
                tail = v.tail;
                packet = stored;
                cycle = ground arith;
              })
      ]
    ]

-- The event of a packet, and the flags that make a packet one: the sync bit and no overflow.
abbrev pub event_of : ℕ → ℕ → ℕ → Event
event_of flags x y = record { dx = int8 x; dy = negate (int8 y); buttons = bit_and flags 7 }

abbrev pub is_packet : ℕ → Bool
is_packet flags = not ((bit_and flags 0x08 == 0) || not (bit_and flags 0xc0 == 0))

abbrev bare : List Event → ℕ → ℕ → List ℕ → Mouse
bare buf head tail packet = record {
  evbuf = buf;
  evhead = head;
  evtail = tail;
  cycle = 0;
  packet = packet;
}

three_bytes_bare :
    (status b0 b1 b2 : ℕ) (buf : List Event) (head tail : ℕ) (packet : List ℕ)
    → (bit_and status 0x20 == 0) ≡ false
    → length packet ≡ 3
    → mouse_irq_handler status b2
        (mouse_irq_handler status b1 (mouse_irq_handler status b0 (bare buf head tail packet)))
      ≡ (if is_packet b0
          then mouse_submit_event (event_of b0 b1 b2) (bare buf head tail (b0 ∷ b1 ∷ b2 ∷ []))
          else bare buf head tail (b0 ∷ b1 ∷ b2 ∷ []))
unfolding mouse_irq_handler
three_bytes_bare status b0 b1 b2 buf head tail [] aux size = absurd (omega arith)
three_bytes_bare status b0 b1 b2 buf head tail (p ∷ []) aux size = absurd (omega arith)
three_bytes_bare status b0 b1 b2 buf head tail (p ∷ q ∷ []) aux size = absurd (omega arith)
three_bytes_bare status b0 b1 b2 buf head tail (p ∷ q ∷ r ∷ []) aux size =
    elim (Bool-cases (bit_and b0 0x08 == 0)) [
      | inl e ↦ rw (aux, e) refl
      | inr e ↦ elim (Bool-cases (bit_and b0 0xc0 == 0)) [
        | inl e' ↦ rw (aux, e, e') refl
        | inr e' ↦ rw (aux, e, e') refl
      ]
    ]
three_bytes_bare status b0 b1 b2 buf head tail (p ∷ q ∷ r ∷ s ∷ l) aux size = absurd (omega arith)

cycle-submit : (e : Event) (m : Mouse) → (mouse_submit_event e m).cycle ≡ m.cycle
unfolding mouse_submit_event
cycle-submit e m = ground arith

three_bytes :
    (status b0 b1 b2 : ℕ) (m : Mouse)
    → (bit_and status 0x20 == 0) ≡ false
    → IsMouse m
    → m.cycle ≡ 0
    → mouse_irq_handler status b2 (mouse_irq_handler status b1 (mouse_irq_handler status b0 m)) ≡ (
        if is_packet b0
        then mouse_submit_event
            (event_of b0 b1 b2)
            (bare m.evbuf m.evhead m.evtail (b0 ∷ b1 ∷ b2 ∷ []))
        else bare m.evbuf m.evhead m.evtail (b0 ∷ b1 ∷ b2 ∷ []))
three_bytes status b0 b1 b2 m aux v start =
    let e : m ≡ bare m.evbuf m.evhead m.evtail m.packet = λ i. record m { cycle = start i } in
    ap
      (λ k.
        mouse_irq_handler status b2 (mouse_irq_handler status b1 (mouse_irq_handler status b0 k)))
      e
    ∙ three_bytes_bare status b0 b1 b2 m.evbuf m.evhead m.evtail m.packet aux v.packet

-- Three bytes that arrive at the start of a packet, from the mouse's port: if the first has the sync
-- bit and no overflow, the event that they encode joins the waiting ones unless 31 wait; otherwise
-- the waiting events stay as they were. In both cases the next byte starts a packet.
pub pending-three_bytes :
    (status b0 b1 b2 : ℕ) (m : Mouse)
    → (bit_and status 0x20 == 0) ≡ false
    → IsMouse m
    → m.cycle ≡ 0
    → let m' =
        mouse_irq_handler status b2 (mouse_irq_handler status b1 (mouse_irq_handler status b0 m)) in
      (pending m' ≡ (
        if is_packet b0 && ltb (length (pending m)) 31
        then pending m ++ (event_of b0 b1 b2 ∷ [])
        else pending m))
      × (m'.cycle ≡ 0)
pending-three_bytes status b0 b1 b2 m aux v start =
    let k = bare m.evbuf m.evhead m.evtail (b0 ∷ b1 ∷ b2 ∷ []) in
    let w : IsMouse k = record {
      cells = v.cells;
      head = v.head;
      tail = v.tail;
      packet = refl;
      cycle = omega arith;
    } in
    rw (three_bytes status b0 b1 b2 m aux v start) (elim (Bool-cases (is_packet b0)) [
      | inl e ↦ rw e (
        (pending-mouse_submit_event (event_of b0 b1 b2) k w).0,
        cycle-submit (event_of b0 b1 b2) k,
      )
      | inr e ↦ rw e (refl, refl)
    ])
