-- ===== src/Traffic/Task.antt =====
-- LYDIAN/lydian/traffic/task.py: the task that runs a client or a server for a rule, and the record
-- that it makes of a ping.
pub mod Records
pub mod Lifecycle
use distributed_apps_platfor.Base.{
  ◌≡◌, ℕ, String, Bool, true, false, not, xor, ◌&&◌, ◌++◌, List, [], ◌∷◌, Option, none, some, Value,
  null, text, truthy, is_one, Result, length, ltb, ok, err, Error, attribute_error, not_implemented,
  if◌then◌else◌, Target, HostType, posix, namespace, container, winvm, Eq, option_eq, ◌==◌, ◌>>=◌,
}
use distributed_apps_platfor.Traffic.Rule.{Rule, attr, getattr, is_tcp, is_udp, is_http}

pub data Protocol : Type 0 where
  tcp udp http : Protocol

pub data Side : Type 0 where
  client server : Side

-- The `Connection` of a task: a client or a server, stopped or running, and the network namespace
-- in which it was made.
pub record Connection : Type 0 where
  pub protocol : Protocol
  pub stopped : Bool
  pub ns : Option String

-- A `TrafficTask`. For a target of an unknown type no connection is made.
pub record Task : Type 0 where
  pub side : Side
  pub rule : Rule
  pub connection : Option Connection

-- `_get_client` and `_get_server` choose by the protocol of the rule.
protocol_of : Rule → Result Protocol
protocol_of r = do
  tcp? ← is_tcp r
  udp? ← is_udp r
  http? ← is_http r
  if tcp? then ok tcp else if udp? then ok udp else if http? then ok http else err not_implemented

-- `Connection.__init__` leaves a connection stopped; `HTTPServer.__init__` then clears the event.
abbrev pub initially_stopped : Side → Protocol → Bool
initially_stopped server http = false
initially_stopped _ _ = true

-- The class is looked up by the protocol; its arguments, with the port as an integer, are those of the rule and taken to be given.
connect : Side → Rule → Option String → Result (Option Connection)
connect side r ns = do
  protocol ← protocol_of r
  ok (some (record { protocol = protocol; stopped = initially_stopped side protocol; ns = ns }))

abbrev target_key : Side → String
target_key client = "src_target"
target_key server = "dst_target"

-- `_create_task`: a target of None has no `is_vmhost`.
create_connection : Side → Rule → Value → Result (Option Connection)
create_connection side r (Value.target t) = elim t.target_type [
  | posix ↦ connect side r none
  | namespace ↦ connect side r t.name
  | container ↦ err not_implemented
  | winvm ↦ ok none
]
create_connection side r _ = err attribute_error

-- `TrafficClientTask(record_queue, trule)` and `TrafficServerTask(trule)`
unfoldable pub create_task : Side → Rule → Result Task
unfolding create_connection connect protocol_of
create_task side r = do
  t ← attr (target_key side) r
  c ← create_connection side r t
  ok (record { side = side; rule = r; connection = c })

abbrev pub with_stopped : Bool → Task → Connection → Task
with_stopped b t c = record t { connection = some (record c { stopped = b }) }

-- `start`: the thread of the connection clears its stop event, where the connection is stopped. That of an HTTP
-- server does not, which is `http_start` of Traffic/Server: for such a task this is its first start, where the event is clear.
unfoldable pub start : Task → Result Task
start t = elim t.connection [ none ↦ err attribute_error | some c ↦ ok (with_stopped false t c) ]

-- `stop` and `close` set the stop event.
unfoldable pub stop : Task → Result Task
stop t = elim t.connection [ none ↦ err attribute_error | some c ↦ ok (with_stopped true t c) ]

unfoldable pub is_running : Task → Result Bool
is_running t = elim t.connection [ none ↦ err attribute_error | some c ↦ ok (not c.stopped) ]

-- A `TrafficRecord`, with data of latencies `L`.
pub record TrafficRecord (L : Type 0) : Type 0 where
  pub source : Value
  pub destination : Value
  pub protocol : Value
  pub port : Value
  pub expected : Bool
  pub result : Bool
  pub latency : L
  pub error : Option (Option String)
  pub reqid : Value
  pub ruleid : Value

-- `record_queue.put(rec, block=False)` on a queue of at most `maxsize` records: `queue.Full` is
-- caught and logged.
unfoldable pub put : {R : Type 0} → ℕ → R → List R → List R
put maxsize rec queue = if ltb (length queue) maxsize then queue ++ rec ∷ [] else queue

module _ {D L : Type 0} ⦃e : Eq D⦄ where
  unfoldable pub record_ping : Rule → D → Option D → L → Option String → Result (TrafficRecord L)
  record_ping r payload received latency error = do
    source ← attr "src" r
    destination ← attr "dst" r
    protocol ← attr "protocol" r
    port ← attr "port" r
    connected ← attr "connected" r
    reqid ← attr "reqid" r
    ruleid ← attr "ruleid" r
    let expected = is_one connected
    -- `not rec.expected ^ (data == payload)`
    let result = not (xor expected (received == some payload))
    ok (record {
      source = source;
      destination = destination;
      protocol = protocol;
      port = port;
      expected = expected;
      result = result;
      latency = latency;
      error = if result then none else some error;
      reqid = reqid;
      ruleid = ruleid;
    })

  -- `ping_handler`, on the queue of records
  unfoldable pub ping_handler :
      ℕ
      → Rule
      → D
      → Option D
      → L
      → Option String
      → List (TrafficRecord L)
      → Result (List (TrafficRecord L))
  unfolding record_ping put
  ping_handler maxsize r payload received latency error queue = do
    rec ← record_ping r payload received latency error
    ok (put maxsize rec queue)
