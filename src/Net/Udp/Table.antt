-- ===== src/Net/Udp/Table.antt =====
-- The table of sockets of kernel/udp.c: no two that are open have the same port, and the count of each
-- that is open is that of its queue.
use axiome_os.Prelude.{
  ℕ, zero, suc, ◌+◌, ◌<◌, ◌≤◌, ◌≡◌, ◌≢◌, refl, sym, ap, ◌∙◌, inl, inr, Bool, true, false, some,
  List, arith, length, ◌==◌, ==_iff, if◌then◌else◌, Bool-cases, if_either,
}
use axiome_os.Prelude.Members.{==_self, ==_ne, ne_of}
use axiome_os.Net.Tcp.{find_from, taken}
use axiome_os.Net.Udp.{Datagram, UdpSock, Udp, put, uses_port}

pub record IsSound (n : Udp) : Type 0 where
  pub counted :
      (i : ℕ) → (n.socks i).in_use ≡ true → (n.socks i).rx_count ≡ length (n.socks i).rx_queue
  pub unique :
      (i j : ℕ)
      → i < 32
      → j < 32
      → i ≢ j
      → (n.socks i).in_use ≡ true
      → (n.socks j).in_use ≡ true
      → (n.socks i).local_port ≡ (n.socks j).local_port
      → (n.socks i).local_port ≡ 0

-- A socket that can be put in the place `i` of the table.
pub record Suits (i : ℕ) (s : UdpSock) (n : Udp) : Type 0 where
  pub count : s.in_use ≡ true → s.rx_count ≡ length s.rx_queue
  pub own :
      (j : ℕ)
      → j < 32
      → j ≢ i
      → s.in_use ≡ true
      → (n.socks j).in_use ≡ true
      → s.local_port ≡ (n.socks j).local_port
      → s.local_port ≡ 0

-- The table is what counts.
pub same-IsSound : (n m : Udp) → ((i : ℕ) → m.socks i ≡ n.socks i) → IsSound n → IsSound m
same-IsSound n m e v = record {
  counted = λ i u.
      ap (λ s. s.rx_count) (e i)
      ∙ v.counted i (sym (ap (λ s. s.in_use) (e i)) ∙ u)
      ∙ sym (ap (λ s. length s.rx_queue) (e i));
  unique = λ i j a b ne u w p.
      ap (λ s. s.local_port) (e i)
      ∙ v.unique i j a b ne (sym (ap (λ s. s.in_use) (e i)) ∙ u)
          (sym (ap (λ s. s.in_use) (e j)) ∙ w)
          (sym (ap (λ s. s.local_port) (e i)) ∙ p ∙ ap (λ s. s.local_port) (e j));
}

pub put_self : (i : ℕ) (s : UdpSock) (n : Udp) → (put i s n).socks i ≡ s
unfolding put
put_self i s n = rw (==_self i) refl

pub put_ne : (i j : ℕ) (s : UdpSock) (n : Udp) → j ≢ i → (put i s n).socks j ≡ n.socks j
unfolding put
put_ne i j s n h = rw (==_ne j i h) refl

pub put-IsSound : (i : ℕ) (s : UdpSock) (n : Udp) → Suits i s n → IsSound n → IsSound (put i s n)
unfolding put
put-IsSound i s n f v = record {
  counted = λ j.
      if_either (λ t. t.in_use ≡ true → t.rx_count ≡ length t.rx_queue) (j == i) s (n.socks j)
        (λ e. f.count) (λ e. v.counted j);
  unique = λ a b la lb ne. elim (Bool-cases (a == i)) [
    | inl e ↦
        let other : b ≢ i = λ same. ne ((==_iff a i).0 e ∙ sym same) in
        rw (e, ==_ne b i other) (λ u w p. f.own b lb other u w p)
    | inr e ↦ rw e (
        if_either
          (λ t.
            (n.socks a).in_use ≡ true
            → t.in_use ≡ true
            → (n.socks a).local_port ≡ t.local_port
            → (n.socks a).local_port ≡ 0)
          (b == i) s (n.socks b) (λ g u w p. p ∙ f.own a la (ne_of a i e) w u (sym p))
          (λ g. v.unique a b la lb ne))
  ];
}

pub find_from_none :
    (test : ℕ → Bool) (count i : ℕ)
    → taken (find_from test count i) ≡ false
    → (j : ℕ) → i ≤ j
    → j < i + count
    → test j ≡ false
unfolding find_from taken
find_from_none test zero i e j le lt = absurd (omega arith)
find_from_none test (suc count) i e j le lt =
    let pick : Bool → Bool = λ b. taken (if b then some i else find_from test count (suc i)) in
    elim (Bool-cases (test i)) [
      | inl f ↦ absurd (ground (arith, sym (ap pick f) ∙ e))
      | inr f ↦ elim (Bool-cases (i == j)) [
        | inl g ↦ sym (ap test ((==_iff i j).0 g)) ∙ f
        | inr g ↦
            let ne : i ≢ j = ne_of i j g in
            find_from_none test count (suc i) (sym (ap pick f) ∙ e) j (ground arith) (omega arith)
      ]
    ]

-- A port that no other open socket has suits the socket.
pub with_port :
    (i p : ℕ) (n : Udp)
    → IsSound n
    → ((j : ℕ) → j < 32 → j ≢ i → uses_port n p j ≡ false)
    → Suits i (record (n.socks i) { local_port = p }) n
with_port i p n v free = record {
  count = v.counted i;
  own = λ j lt ne u w e.
      let used : uses_port n p j ≡ true = rw (w, (==_iff _ p).1 (sym e)) refl in
      absurd (ground (arith, used, free j lt ne));
}

-- A change of the queue keeps the port.
pub with_queue :
    (i k : ℕ) (q : List Datagram) (n : Udp)
    → i < 32
    → IsSound n
    → ((n.socks i).in_use ≡ true → k ≡ length q)
    → Suits i (record (n.socks i) { rx_queue = q; rx_count = k }) n
with_queue i k q n lt v e = record {
  count = e;
  own = λ j lj ne u w p. v.unique i j lt lj (λ same. ne (sym same)) u w p;
}
