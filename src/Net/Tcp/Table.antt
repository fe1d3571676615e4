-- ===== src/Net/Tcp/Table.antt =====
-- The table of sockets under the changes of kernel/tcp.c, and sending over a card.
use axiome_os.Prelude.{
  ℕ, zero, suc, ◌+◌, ◌<◌, ◌≤◌, ◌≡◌, ◌≢◌, refl, ap, ◌∙◌, inl, inr, Bool, true, false, Option, none,
  some, List, [], ◌∷◌, ◌++◌, arith, ◌==◌, ==_iff, Bool-cases,
}
use axiome_os.Net.Tcp.{Sock, Seg, Net, put, find, find_from, card, send_on, tcp_send_seg, sock_max}

pub ==_self : (i : ℕ) → i == i ≡ true
==_self i = (==_iff i i).1 refl

pub ==_ne : (i j : ℕ) → i ≢ j → i == j ≡ false
==_ne i j h = elim (Bool-cases (i == j)) [ inl e ↦ absurd (h ((==_iff i j).0 e)) | inr e ↦ e ]

pub put_self : (i : ℕ) (s : Sock) (n : Net) → (put i s n).socks i ≡ s
unfolding put
put_self i s n = rw (==_self i) refl

pub put_ne : (i j : ℕ) (s : Sock) (n : Net) → j ≢ i → (put i s n).socks j ≡ n.socks j
unfolding put
put_ne i j s n h = rw (==_ne j i h) refl

-- The segment that a socket sends over its device.
abbrev pub seg_of : ℕ → Sock → ℕ → ℕ → ℕ → ℕ → List ℕ → Seg
seg_of d s flags seq ack wnd body = record {
  via = d;
  to = s.remote_ip;
  sport = s.local_port;
  dport = s.remote_port;
  seq = seq;
  ack = ack;
  flags = flags;
  wnd = wnd;
  body = body;
}

abbrev pub logged : Seg → Net → Net
logged seg n = record n { sent = n.sent ++ seg ∷ [] }

pub tcp_send_seg-card :
    (i d flags seq ack wnd : ℕ) (body : List ℕ) (n : Net)
    → (n.socks i).dev ≡ some d
    → tcp_send_seg card i flags seq ack wnd body n
      ≡ (true, logged (seg_of d (n.socks i) flags seq ack wnd body) n)
unfolding tcp_send_seg send_on card
tcp_send_seg-card i d flags seq ack wnd body n e = rw e refl

socks-send_on :
    (o : Option ℕ) (s : Sock) (flags seq ack wnd : ℕ) (body : List ℕ) (n : Net)
    → (send_on card o s flags seq ack wnd body n).1.socks ≡ n.socks
unfolding send_on card
socks-send_on none s flags seq ack wnd body n = refl
socks-send_on (some d) s flags seq ack wnd body n = refl

-- A card leaves the table as it is.
pub socks-tcp_send_seg :
    (i flags seq ack wnd : ℕ) (body : List ℕ) (n : Net)
    → (tcp_send_seg card i flags seq ack wnd body n).1.socks ≡ n.socks
unfolding tcp_send_seg
socks-tcp_send_seg i flags seq ack wnd body n =
    socks-send_on (n.socks i).dev (n.socks i) flags seq ack wnd body n

ne_of : (i k : ℕ) → i == k ≡ false → i ≢ k
ne_of i k e = λ same. absurd (ground arith)

find_from_only :
    (test : ℕ → Bool) (count i k : ℕ)
    → test k ≡ true
    → ((j : ℕ) → j < i + count → j ≢ k → test j ≡ false)
    → i ≤ k
    → k < i + count
    → find_from test count i ≡ some k
unfolding find_from
find_from_only test zero i k passes others le lt = absurd (omega arith)
find_from_only test (suc count) i k passes others le lt = elim (Bool-cases (i == k)) [
  | inl e ↦ let same = (==_iff i k).0 e in rw (ap test same ∙ passes) (ap some same)
  | inr e ↦
      let ne : i ≢ k = ne_of i k e in
      let later : suc i ≤ k = ground arith in
      rw (others i (omega arith) ne) (
        find_from_only test count (suc i) k passes (λ j b. others j (omega arith)) later
          (omega arith))
]

-- The scan finds the one index of the table that passes.
pub find_only :
    (test : ℕ → Bool) (k : ℕ)
    → k < sock_max
    → test k ≡ true
    → ((j : ℕ) → j < sock_max → j ≢ k → test j ≡ false)
    → find test ≡ some k
find_only test k lt passes others =
    find_from_only test sock_max 0 k passes (λ j b. others j (omega arith)) (omega arith)
      (omega arith)

find_from_misses :
    (test : ℕ → Bool) (count i : ℕ)
    → ((j : ℕ) → j < i + count → test j ≡ false)
    → find_from test count i ≡ none
unfolding find_from
find_from_misses test zero i fails = refl
find_from_misses test (suc count) i fails =
    rw (fails i (omega arith)) (find_from_misses test count (suc i) (λ j b. fails j (omega arith)))

pub find_misses : (test : ℕ → Bool) → ((j : ℕ) → j < sock_max → test j ≡ false) → find test ≡ none
find_misses test fails = find_from_misses test sock_max 0 (λ j b. fails j (omega arith))
