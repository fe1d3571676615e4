-- ===== src/Mouse/Fifo.antt =====
-- The ring of events against a bounded queue.
use axiome_os.Prelude.{
  ℕ, zero, suc, ◌+◌, ◌-◌, ◌%◌, ◌<◌, ◌≢◌, ◌≡◌, refl, ap, ◌∙◌, ◌⊎◌, inl, inr, true, false, none, some,
  List, [], ◌∷◌, ◌++◌, arith, ltb, ◌==◌, if◌then◌else◌, Bool-cases, get_or, set, length, length-set,
  get_or-set_self, get_or-set_ne,
}
use axiome_os.Mouse.{Mouse, Event, no_event, event_buf, mouse_submit_event, mouse_read_event}

pub record IsMouse (m : Mouse) : Type 0 where
  pub cells : length m.evbuf ≡ event_buf
  pub head : m.evhead < event_buf
  pub tail : m.evtail < event_buf
  pub packet : length m.packet ≡ 3
  pub cycle : m.cycle < 3

-- The `n` events from index `i` on, round the ring.
pub events_from : List Event → ℕ → ℕ → List Event
events_from buf i zero = []
events_from buf i (suc n) = get_or buf i no_event ∷ events_from buf ((i + 1) % event_buf) n

abbrev pub waiting : Mouse → ℕ
waiting m = (m.evhead + event_buf - m.evtail) % event_buf

-- The events not read yet, oldest first.
abbrev pub pending : Mouse → List Event
pending m = events_from m.evbuf m.evtail (waiting m)

length-events_from : (buf : List Event) (i n : ℕ) → length (events_from buf i n) ≡ n
unfolding events_from
length-events_from buf i zero = refl
length-events_from buf i (suc n) = ap suc (length-events_from buf ((i + 1) % event_buf) n)

-- Writing the cell behind `n` events, fewer than 31, appends to them.
events_from-set :
    (buf : List Event) (e : Event) (i n j : ℕ)
    → length buf ≡ event_buf
    → i < event_buf
    → n < 31
    → j ≡ (i + n) % event_buf
    → events_from (set buf j e) i (suc n) ≡ events_from buf i n ++ (e ∷ [])
unfolding events_from
events_from-set buf e i zero j size lt few at =
    let same : j ≡ i = omega arith in rw (same, get_or-set_self buf i e no_event (omega arith))
events_from-set buf e i (suc n) j size lt few at =
    let other : j ≢ i = omega arith in
    rw (
      get_or-set_ne buf j i e no_event other,
      events_from-set buf e ((i + 1) % event_buf) n j size (omega arith) (omega arith)
          (omega arith),
    )

-- The indices round the ring: a submission that fits, and a read.
ring_room :
    (h t : ℕ)
    → h < event_buf
    → t < event_buf
    → ((h + 1) % event_buf == t) ≡ false
    → ((h + event_buf - t) % event_buf < 31)
      × (((h + 1) % event_buf + event_buf - t) % event_buf ≡ suc ((h + event_buf - t) % event_buf))
ring_room h t hh ht e = ground arith

ring_full :
    (h t : ℕ)
    → h < event_buf
    → t < event_buf
    → ((h + 1) % event_buf == t) ≡ true
    → (h + event_buf - t) % event_buf ≡ 31
ring_full h t hh ht e = ground arith

ring_next :
    (h t : ℕ)
    → h < event_buf
    → t < event_buf
    → (t == h) ≡ false
    → (h + event_buf - t) % event_buf ≡ suc ((h + event_buf - (t + 1) % event_buf) % event_buf)
ring_next h t hh ht e = ground arith

-- `mouse_submit_event` appends the event to the waiting ones if they are fewer than 31, and drops
-- it otherwise; the indices stay in the ring.
pub pending-mouse_submit_event :
    (e : Event) (m : Mouse)
    → IsMouse m
    → (pending (mouse_submit_event e m)
        ≡ (if ltb (length (pending m)) 31 then pending m ++ (e ∷ []) else pending m))
      × IsMouse (mouse_submit_event e m)
unfolding mouse_submit_event
pending-mouse_submit_event e m v =
    let size = length-events_from m.evbuf m.evtail (waiting m) in
    elim (Bool-cases ((m.evhead + 1) % event_buf == m.evtail)) [
      | inl full ↦
          let at = ring_full m.evhead m.evtail v.head v.tail full in
          let q : ltb (length (pending m)) 31 ≡ false = ground (arith, size, at) in
          rw (full, mouse_submit_event, q) (refl, v)
      | inr room ↦
          let (few, next) = ring_room m.evhead m.evtail v.head v.tail room in
          let q : ltb (length (pending m)) 31 ≡ true = ground (arith, size, few) in
          rw (room, mouse_submit_event, q)
            (
              ap (events_from (set m.evbuf m.evhead e) m.evtail) next
                  ∙ events_from-set m.evbuf e m.evtail (waiting m) m.evhead v.cells v.tail few
                      (omega (arith, v.head, v.tail)),
              record {
                cells = omega (arith, length-set m.evbuf m.evhead e, v.cells);
                head = omega arith;
                tail = v.tail;
                packet = v.packet;
                cycle = v.cycle;
              },
            )
    ]

-- `mouse_read_event` takes the oldest waiting event, and has none exactly when none waits.
pub pending-mouse_read_event :
    (m : Mouse)
    → IsMouse m
    → (((mouse_read_event m).0 ≡ none) × (pending m ≡ []) × ((mouse_read_event m).1 ≡ m))
      ⊎ ((e : Event) × ((mouse_read_event m).0 ≡ some e)
          × (pending m ≡ e ∷ pending (mouse_read_event m).1)
          × IsMouse (mouse_read_event m).1)
unfolding mouse_read_event events_from
pending-mouse_read_event m v = elim (Bool-cases (m.evtail == m.evhead)) [
  | inl e ↦
      let none_left : waiting m ≡ 0 = ground (arith, v.head) in
      rw (e, mouse_read_event) (inl (refl, ap (events_from m.evbuf m.evtail) none_left, refl))
  | inr e ↦
      let next = ring_next m.evhead m.evtail v.head v.tail e in
      rw (e, mouse_read_event)
        (inr (
          get_or m.evbuf m.evtail no_event,
          refl,
          ap (events_from m.evbuf m.evtail) next,
          record {
            cells = v.cells;
            head = v.head;
            tail = omega arith;
            packet = v.packet;
            cycle = v.cycle;
          },
        ))
]
