-- ===== src/Net/Tcp/Sound.antt =====
-- What holds of each socket at all times: its counts are those of its queues, its buffers are well
-- formed, and one that is in use has a state that the code reaches.
pub mod Rx
pub mod Calls
pub mod Traffic
pub mod Timer
use axiome_os.Prelude.{
  ℕ, zero, suc, ◌+◌, ◌-◌, ◌%◌, ◌^◌, ◌<◌, ◌≤◌, ◌≡◌, ◌≢◌, inl, inr, refl, sym, ap, ◌∙◌, Bool, true,
  false, Option, none, some, List, [], ◌∷◌, ◌++◌, length, length-append, arith, if_either, ◌==◌,
  if◌then◌else◌, leb, le_at, Bool-cases, and_left, and_right, ltb,
}
use axiome_os.Net.Buf.{Mbuf, mbuf_total_len}
use axiome_os.Net.Buf.Laws.{AreChained}
use axiome_os.Net.Tcp.{
  State, closed, listen, syn_sent, syn_received, established, fin_wait_1, fin_wait_2, time_wait,
  close_wait, last_ack, closing, Sock, TxSeg, Net, Seg, Carrier, put, find, find_from, tcp_send_seg,
  send_on, tcp_enter_state, tcp_alloc_sock, claim_sock, allocated, cleared,
}

-- The states that an open socket can have.
abbrev pub IsLive : State → Type 0
IsLive closed = Unit {0}
IsLive listen = Unit {0}
IsLive syn_sent = Unit {0}
IsLive syn_received = Unit {0}
IsLive established = Unit {0}
IsLive close_wait = Unit {0}
IsLive fin_wait_1 = ⊥
IsLive fin_wait_2 = ⊥
IsLive time_wait = ⊥
IsLive last_ack = ⊥
IsLive closing = ⊥

pub record IsSoundOf (in_use : Bool) (state : State) (rx_buf : List Mbuf) (rx_len : ℕ)
    (tx_queue : List TxSeg) (tx_queue_len : ℕ) : Type 0 where
  pub live : in_use ≡ true → IsLive state
  pub chained : AreChained rx_buf
  pub rx_total : rx_len ≡ mbuf_total_len rx_buf
  pub rx_bound : rx_len ≤ 65536
  pub tx_count : tx_queue_len ≡ length tx_queue

abbrev pub IsSound : Sock → Type 0
IsSound s = IsSoundOf s.in_use s.state s.rx_buf s.rx_len s.tx_queue s.tx_queue_len

pub record AreSound (n : Net) : Type 0 where
  pub at : (i : ℕ) → IsSound (n.socks i)

-- A layer below that keeps every socket sound.
abbrev pub Keeps : Carrier → Type 0
Keeps carry = (seg : Seg) (n : Net) → AreSound n → AreSound (carry seg n).1

pub AreSound-put : (i : ℕ) (s : Sock) (n : Net) → IsSound s → AreSound n → AreSound (put i s n)
unfolding put
AreSound-put i s n v h = record {
  at = λ j. if_either IsSound (j == i) s (n.socks j) (λ e. v) (λ e. h.at j);
}

pub allocated-IsSound : IsSound allocated
unfolding mbuf_total_len
allocated-IsSound = record {
  live = λ e. tt;
  chained = tt;
  rx_total = refl;
  rx_bound = omega arith;
  tx_count = refl;
}

-- A socket whose state is changed to one that an open socket can have.
pub with_state : (st : State) (s : Sock) → IsLive st → IsSound s → IsSound (record s { state = st })
with_state st s l v = record {
  live = λ e. l;
  chained = v.chained;
  rx_total = v.rx_total;
  rx_bound = v.rx_bound;
  tx_count = v.tx_count;
}

pub AreSound-tcp_enter_state :
    (i : ℕ) (st : State) (n : Net) → IsLive st → AreSound n → AreSound (tcp_enter_state i st n)
unfolding tcp_enter_state
AreSound-tcp_enter_state i st n l h =
    AreSound-put i (record (n.socks i) { state = st }) n (with_state st (n.socks i) l (h.at i)) h

AreSound-send_on :
    (carry : Carrier) (d : Option ℕ) (s : Sock) (flags seq ack wnd : ℕ) (body : List ℕ) (n : Net)
    → Keeps carry
    → AreSound n
    → AreSound (send_on carry d s flags seq ack wnd body n).1
unfolding send_on
AreSound-send_on carry none s flags seq ack wnd body n k h = h
AreSound-send_on carry (some d) s flags seq ack wnd body n k h = k _ n h

pub AreSound-tcp_send_seg :
    (carry : Carrier) (i flags seq ack wnd : ℕ) (body : List ℕ) (n : Net)
    → Keeps carry
    → AreSound n
    → AreSound (tcp_send_seg carry i flags seq ack wnd body n).1
unfolding tcp_send_seg
AreSound-tcp_send_seg carry i flags seq ack wnd body n k h =
    AreSound-send_on carry (n.socks i).dev (n.socks i) flags seq ack wnd body n k h

AreSound-claim_sock : (o : Option ℕ) (n : Net) → AreSound n → AreSound (claim_sock o n).1
unfolding claim_sock
AreSound-claim_sock none n h = h
AreSound-claim_sock (some i) n h = AreSound-put i allocated n allocated-IsSound h

pub AreSound-tcp_alloc_sock : (n : Net) → AreSound n → AreSound (tcp_alloc_sock n).1
unfolding tcp_alloc_sock
AreSound-tcp_alloc_sock n h = AreSound-claim_sock (find _) n h

-- A scan gives an index that passes its test, if it gives one.
abbrev pub Passes : (ℕ → Bool) → Option ℕ → Type 0
Passes test none = Unit {0}
Passes test (some i) = test i ≡ true

pub Passes-find_from : (test : ℕ → Bool) (count i : ℕ) → Passes test (find_from test count i)
unfolding find_from
Passes-find_from test zero i = tt
Passes-find_from test (suc count) i =
    if_either (Passes test) (test i) _ _ (λ e. e) (λ e. Passes-find_from test count (suc i))

-- A change of one socket that leaves it sound.
pub step :
    (i : ℕ) (f : Sock → Sock) (n : Net)
    → ((s : Sock) → IsSound s → IsSound (f s))
    → AreSound n
    → AreSound (put i (f (n.socks i)) n)
step i f n g h = AreSound-put i (f (n.socks i)) n (g (n.socks i) (h.at i)) h

-- Both branches of a test leave the sockets sound.
pub branch :
    (b : Bool) (x y : Net)
    → (b ≡ true → AreSound x)
    → (b ≡ false → AreSound y)
    → AreSound (if b then x else y)
branch b x y = if_either AreSound b x y

pub branch_snd {ℓ} :
    {A : Type ℓ} (b : Bool) (x y : A × Net)
    → (b ≡ true → AreSound x.1)
    → (b ≡ false → AreSound y.1)
    → AreSound (if b then x else y).1
branch_snd {A = A} b x y h k = if_either {A = A × Net} (λ r. AreSound r.1) b x y h k
