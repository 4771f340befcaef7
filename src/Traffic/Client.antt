-- ===== src/Traffic/Client.antt =====
-- LYDIAN/lydian/traffic/client.py: the pings of a client. The network is a function from the number
-- of the exchange, counted from 0, to what happens in it.
pub mod Reply
pub mod Rounds
use distributed_apps_platfor.Base.{
  ◌≡◌, ℕ, zero, suc, ◌+◌, ◌-◌, String, Bool, true, false, not, ◌&&◌, List, [], ◌∷◌, Option, none,
  some, get_or, Value, null, bool, int, ℤ, pos, negsuc, leb, Result, ok, err, Error, unbound_local,
  not_implemented, if◌then◌else◌, nat_eq, ◌==◌,
}

-- One exchange of `send_and_recv`: the socket is not made, the exchange raises, or data comes back
-- with its latency. Data is of type `D` and a latency of type `L`.
pub data Exchange (D L : Type 0) : Type 0 where
  no_socket : String → Exchange D L
  failure : String → Exchange D L
  reply : D → L → Exchange D L

-- The variables of `send_and_recv`: data, latency and error, with the sockets that were made and
-- closed and the number of exchanges so far. No latency stands for the initial 0.
pub record Attempts (D L : Type 0) : Type 0 where
  pub received : Option D
  pub latency : Option L
  pub error : Option String
  pub opened : ℕ
  pub closed : ℕ
  pub made : ℕ

abbrev pub begin : {D L : Type 0} → ℕ → Attempts D L
begin i = record { received = none; latency = none; error = none; opened = 0; closed = 0; made = i }

-- `'%s' % error`
udp_error : Option String → String
udp_error none = "None"
udp_error (some e) = e

module _ {D L : Type 0} where
  -- an exchange that raised, with the `finally` that closes the socket
  abbrev pub failed : Bool → String → Attempts D L → Attempts D L
  failed socket e a = record a {
    error = some e;
    opened = if socket then a.opened + 1 else a.opened;
    closed = if socket then a.closed + 1 else a.closed;
    made = a.made + 1;
  }

  abbrev pub answered : D → L → Attempts D L → Attempts D L
  answered d l a = record a {
    received = some d;
    latency = some l;
    opened = a.opened + 1;
    closed = a.closed + 1;
    made = a.made + 1;
  }

  -- `TCPClient.send_and_recv`, on the attempts that are left
  unfoldable pub send_and_recv : (ℕ → Exchange D L) → ℕ → Attempts D L → Attempts D L
  send_and_recv net zero a = a
  send_and_recv net (suc attempts) a = elim (net a.made) [
    | no_socket e ↦ send_and_recv net attempts (failed false e a)
    | failure e ↦ send_and_recv net attempts (failed true e a)
    | reply d l ↦ answered d l a
  ]

  -- What `TCPClient.ping` hands to its handler.
  unfoldable pub tcp_ping : (ℕ → Exchange D L) → ℕ → ℕ → Attempts D L
  tcp_ping net attempts i = send_and_recv net attempts (begin i)

  -- `UDPClient.send_and_recv` has the same loop, with its name `err` beside the other variables:
  -- none where it is not bound. Python binds `err` while the `except` clause runs and unbinds it at
  -- the clause's end.
  abbrev bind_err : String → Attempts D L × Option String → Attempts D L × Option String
  bind_err e (a, _) = (a, some e)

  -- the body of the `except` clause: `error = '%s' % error`
  abbrev udp_except : Bool → Attempts D L × Option String → Attempts D L × Option String
  udp_except socket (a, bound) = (failed socket (udp_error a.error) a, bound)

  abbrev unbind_err : Attempts D L × Option String → Attempts D L × Option String
  unbind_err (a, _) = (a, none)

  udp_loop : (ℕ → Exchange D L) → ℕ → Attempts D L × Option String → Attempts D L × Option String
  unfolding udp_error
  udp_loop net zero s = s
  udp_loop net (suc attempts) s = elim (net (s.0).made) [
    | no_socket e ↦ udp_loop net attempts (unbind_err (udp_except false (bind_err e s)))
    | failure e ↦ udp_loop net attempts (unbind_err (udp_except true (bind_err e s)))
    | reply d l ↦ (answered d l s.0, s.1)
  ]

  -- `return data, latency, err`
  abbrev udp_return : Attempts D L × Option String → Result (Option D × Option L × String)
  udp_return (a, none) = err unbound_local
  udp_return (a, some e) = ok (a.received, a.latency, e)

  unfoldable pub udp_send_and_recv :
      (ℕ → Exchange D L) → ℕ → ℕ → Result (Option D × Option L × String)
  unfolding udp_loop
  udp_send_and_recv net attempts i = udp_return (udp_loop net attempts (begin i, none))

-- `Client.start`, on the number of pings left, where None stands for no limit: `stop i` tells whether
-- the stop event is set before round `i`. The result is the number of pings sent, or none where the
-- fuel ran out.
unfoldable pub start : (ℕ → Bool) → ℕ → Option ℤ → ℕ → Option ℕ
start stop zero tries i = none
start stop (suc fuel) none i =
    let rest = start stop fuel none (i + 1) in if stop i then some i else rest
start stop (suc fuel) (some (pos zero)) i = some i
start stop (suc fuel) (some (pos (suc n))) i =
    let rest = start stop fuel (some (pos n)) (i + 1) in if stop i then some i else rest
start stop (suc fuel) (some (negsuc n)) i =
    let rest = start stop fuel (some (negsuc (suc n))) (i + 1) in if stop i then some i else rest

-- `Client.__init__`: the frequency, in pings per minute.
unfoldable pub frequency : Value → ℕ
frequency (int (pos n)) = if leb 1 n && leb n 60 then n else 30
frequency (bool true) = 1
frequency _ = 30

-- `tries or self.tries` and the like, on a number
unfoldable pub or_else : Option ℕ → ℕ → ℕ
or_else none d = d
or_else (some zero) d = d
or_else (some (suc n)) d = suc n
