-- ===== src/Traffic/Task/Records.antt =====
-- What a record says of a ping, and how a task's connection starts and stops.
use mathlib.Core.List.{append-nil}
use distributed_apps_platfor.Base.{
  ◌≡◌, ◌↔◌, refl, ℕ, ◌≤◌, String, Bool, true, false, not, xor, ◌++◌, List, [], ◌∷◌, Option, none,
  some, Value, is_one, length, length-append, ltb, lookup, ok, if◌then◌else◌, Eq, option_eq,
  string_eq, Bool-cases, inl, inr, ◌==◌, arith,
}
use distributed_apps_platfor.Traffic.Rule.{Rule}
use distributed_apps_platfor.Traffic.Client.{Exchange, tcp_ping}
use distributed_apps_platfor.Traffic.Client.Reply.{first_reply, received_of, tcp_ping_lem}
use distributed_apps_platfor.Traffic.Task.{TrafficRecord, record_ping, put}

-- The attributes of a rule that a record reads.
pub record IsPingable (r : Rule) (connected : Value) : Type 0 where
  pub source : (v : Value) × (lookup "src" r ≡ some v)
  pub destination : (v : Value) × (lookup "dst" r ≡ some v)
  pub protocol : (v : Value) × (lookup "protocol" r ≡ some v)
  pub port : (v : Value) × (lookup "port" r ≡ some v)
  pub expected : lookup "connected" r ≡ some connected
  pub reqid : (v : Value) × (lookup "reqid" r ≡ some v)
  pub ruleid : (v : Value) × (lookup "ruleid" r ≡ some v)

verdict {ℓ} :
    {D : Type ℓ} ⦃e : Eq D⦄ (expected : Bool) (received : Option D) (payload : D)
    → (not (xor expected (received == some payload)) ≡ true)
      ↔ ((expected ≡ true) ↔ (received ≡ some payload))
verdict ⦃e⦄ true received payload =
    ground (arith, (option_eq ⦃e = e⦄).same_iff received (some payload))
verdict ⦃e⦄ false received payload =
    ground (arith, (option_eq ⦃e = e⦄).same_iff received (some payload))

module _ {D L : Type 0} ⦃e : Eq D⦄ where
  -- For a rule with the attributes of a record, the handler puts one record of the ping: it passes
  -- exactly if the payload came back where the rule expects a connection, and anything else, or
  -- nothing, where it does not; an error is recorded exactly if it does not pass.
  pub record_ping_lem :
      (r : Rule) (payload : D) (received : Option D) (latency : L) (error : Option String)
      (connected : Value)
      → IsPingable r connected
      → (rec : TrafficRecord L) × (record_ping r payload received latency error ≡ ok rec)
        × (rec.expected ≡ is_one connected)
        × ((rec.result ≡ true) ↔ ((is_one connected ≡ true) ↔ (received ≡ some payload)))
        × (rec.error ≡ (if rec.result then none else some error))
  unfolding record_ping
  record_ping_lem r payload received latency error connected h =
      let expected = is_one connected in
      let result = not (xor expected (received == some payload)) in
      (
        record {
          source = h.source.0;
          destination = h.destination.0;
          protocol = h.protocol.0;
          port = h.port.0;
          expected = expected;
          result = result;
          latency = latency;
          error = if result then none else some error;
          reqid = h.reqid.0;
          ruleid = h.ruleid.0;
        },
        ground (
          arith, h.source.1, h.destination.1, h.protocol.1, h.port.1, h.expected, h.reqid.1,
          h.ruleid.1,
        ),
        refl,
        verdict (is_one connected) received payload,
        refl,
      )

-- The queue of records never grows past its size, and keeps what it holds, in order.
pub put_lem :
    {R : Type 0} (maxsize : ℕ) (rec : R) (queue : List R)
    → length queue ≤ maxsize
    → (length (put maxsize rec queue) ≤ maxsize)
      × (rest : List R) × (put maxsize rec queue ≡ queue ++ rest)
unfolding put
put_lem maxsize rec queue h = elim (Bool-cases (ltb (length queue) maxsize)) [
  | inl room ↦ rw room (ground (arith, length-append queue (rec ∷ [])), rec ∷ [], refl)
  | inr full ↦ rw full (h, [], rw append-nil)
]

-- The record of a TCP ping for a rule: with any network and any number of attempts it passes exactly
-- if the first reply is the payload where the rule expects a connection, and is not where it does not.
pub tcp_ping-verdict :
    {D L : Type 0} ⦃e : Eq D⦄ (net : ℕ → Exchange D L) (attempts i : ℕ) (r : Rule) (payload : D)
    (connected : Value)
    → IsPingable r connected
    → let ping = tcp_ping net attempts i in
      (rec : TrafficRecord (Option L)) × (record_ping r payload ping.received ping.latency
          ping.error
        ≡ ok rec)
      × ((rec.result ≡ true)
          ↔ ((is_one connected ≡ true) ↔ (received_of (first_reply net attempts i) ≡ some payload)))
tcp_ping-verdict net attempts i r payload connected h =
    let ping = tcp_ping net attempts i in
    let (rec, recorded, _, passes, _) =
      record_ping_lem r payload ping.received ping.latency ping.error connected h in
    (rec, recorded, rw (← ((tcp_ping_lem net attempts i).0)) passes)
