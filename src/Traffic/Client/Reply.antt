-- ===== src/Traffic/Client/Reply.antt =====
-- What `send_and_recv` returns.
use distributed_apps_platfor.Base.{
  ◌≡◌, refl, ◌⊎◌, inl, inr, ℕ, zero, suc, ◌+◌, ◌≤◌, String, true, false, Option, none, some, err,
  arith, unbound_local,
}
use distributed_apps_platfor.Traffic.Client.{
  Exchange, no_socket, failure, reply, Attempts, begin, send_and_recv, tcp_ping, failed, udp_return,
  udp_loop, udp_send_and_recv,
}

module _ {D L : Type 0} where
  -- The first reply among `n` exchanges from the `i`-th one on.
  abbrev pub first_reply : (ℕ → Exchange D L) → ℕ → ℕ → Option (D × L)
  first_reply net zero i = none
  first_reply net (suc n) i = elim (net i) [
    | reply d l ↦ some (d, l)
    | _ ↦ first_reply net n (i + 1)
  ]

  -- The error of the last exchange that failed, up to the first reply.
  abbrev pub last_error : (ℕ → Exchange D L) → ℕ → ℕ → Option String → Option String
  last_error net zero i e = e
  last_error net (suc n) i e = elim (net i) [
    | reply d l ↦ e
    | no_socket x ↦ last_error net n (i + 1) (some x)
    | failure x ↦ last_error net n (i + 1) (some x)
  ]

  pub received_of : Option (D × L) → Option D
  received_of none = none
  received_of (some p) = some (p.0)

  pub latency_of : Option (D × L) → Option L
  latency_of none = none
  latency_of (some p) = some (p.1)

  Exchange-cases :
      (x : Exchange D L)
      → ((e : String) × (x ≡ no_socket e))
        ⊎ (((e : String) × (x ≡ failure e)) ⊎ ((d : D) × (l : L) × (x ≡ reply d l)))
  Exchange-cases (no_socket e) = inl (e, refl)
  Exchange-cases (failure e) = inr (inl (e, refl))
  Exchange-cases (reply d l) = inr (inr (d, l, refl))

  send_and_recv_lem :
      (net : ℕ → Exchange D L) (n : ℕ) (a : Attempts D L)
      → a.received ≡ none
      → a.latency ≡ none
      → a.opened ≡ a.closed
      → let b = send_and_recv net n a in
        (b.received ≡ received_of (first_reply net n a.made))
        × (b.latency ≡ latency_of (first_reply net n a.made))
        × (b.error ≡ last_error net n a.made a.error)
        × (b.opened ≡ b.closed)
        × (b.made ≤ a.made + n)
  unfolding send_and_recv received_of latency_of
  send_and_recv_lem net zero a hd hl ho = ground arith
  send_and_recv_lem net (suc n) a hd hl ho = elim (Exchange-cases (net a.made)) [
    | inl (e, q) ↦
        let ih = send_and_recv_lem net n (failed false e a) hd hl ho in ground (arith, ih)
    | inr (inl (e, q)) ↦
        let ih = send_and_recv_lem net n (failed true e a) hd hl (omega arith) in ground (arith, ih)
    | inr (inr (d, l, q)) ↦ ground arith
  ]

  -- A TCP ping hands on the first reply among its attempts, or no data if all of them fail, with the
  -- error of the last exchange that failed. It makes no more exchanges than attempts, and closes
  -- every socket that it makes.
  pub tcp_ping_lem :
      (net : ℕ → Exchange D L) (attempts i : ℕ)
      → let b = tcp_ping net attempts i in
        (b.received ≡ received_of (first_reply net attempts i))
        × (b.latency ≡ latency_of (first_reply net attempts i))
        × (b.error ≡ last_error net attempts i none)
        × (b.opened ≡ b.closed)
        × (b.made ≤ i + attempts)
  unfolding tcp_ping
  tcp_ping_lem net attempts i = send_and_recv_lem net attempts (begin i) refl refl refl

  udp_loop-unbound :
      (net : ℕ → Exchange D L) (n : ℕ) (a : Attempts D L) → (udp_loop net n (a, none)).1 ≡ none
  unfolding udp_loop
  udp_loop-unbound net zero a = refl
  udp_loop-unbound net (suc n) a = elim (Exchange-cases (net a.made)) [
    | inl (e, q) ↦ rw (q, udp_loop) (udp_loop-unbound net n _)
    | inr (inl (e, q)) ↦ rw (q, udp_loop) (udp_loop-unbound net n _)
    | inr (inr (d, l, q)) ↦ rw (q, udp_loop)
  ]

  -- Whatever the network answers, and however many attempts it may make, a UDP exchange ends in the
  -- reading of a name that is not bound.
  pub udp_send_and_recv-raises :
      (net : ℕ → Exchange D L) (attempts i : ℕ)
      → udp_send_and_recv net attempts i ≡ err unbound_local
  unfolding udp_send_and_recv
  udp_send_and_recv-raises net attempts i =
      return_unbound (udp_loop net attempts (begin i, none))
        (udp_loop-unbound net attempts (begin i))
    where
      return_unbound :
          (s : Attempts D L × Option String) → s.1 ≡ none → udp_return s ≡ err unbound_local
      return_unbound (a, none) h = refl
      return_unbound (a, some e) h = cc
