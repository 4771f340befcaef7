-- ===== src/Traffic/Task/Lifecycle.antt =====
-- How a task's connection is made, starts and stops.
use distributed_apps_platfor.Base.{
  ◌≡◌, refl, String, true, false, not, Option, none, some, Value, lookup, ok, arith, Option-cases,
  Result-cases, inl, inr, string_eq, ◌>>=◌,
}
use distributed_apps_platfor.Traffic.Rule.{Rule, attr}
use distributed_apps_platfor.Traffic.Task.{
  Task, Connection, Side, with_stopped, target_key, create_task, create_connection, connect,
  protocol_of, initially_stopped, start, stop, is_running,
}

connect-stopped :
    (side : Side) (r : Rule) (ns : Option String) (c : Connection)
    → connect side r ns ≡ ok (some c)
    → c.stopped ≡ initially_stopped side c.protocol
unfolding connect
connect-stopped side r ns c h = elim (Result-cases (protocol_of r)) [
  | inl (p, e) ↦ ground (arith, e)
  | inr (x, e) ↦ ground (arith, e)
]

create_connection-stopped :
    (side : Side) (r : Rule) (v : Value) (c : Connection)
    → create_connection side r v ≡ ok (some c)
    → c.stopped ≡ initially_stopped side c.protocol
unfolding create_connection
create_connection-stopped side r (Value.target t) c h =
    ground (arith, connect-stopped side r none c, connect-stopped side r t.name c)
create_connection-stopped side r _ c h = cc

create_task-eq :
    (side : Side) (r : Rule)
    → create_task side r ≡ (do
      v ← attr (target_key side) r
      c ← create_connection side r v
      ok (record { side = side; rule = r; connection = c }))
unfolding create_task
create_task-eq side r = refl

pub create_task-stopped :
    (side : Side) (r : Rule) (t : Task) (c : Connection)
    → create_task side r ≡ ok t
    → t.connection ≡ some c
    → c.stopped ≡ initially_stopped side c.protocol
create_task-stopped side r t c h k = elim (Option-cases (lookup (target_key side) r)) [
  | inl e ↦ ground (arith, e, create_task-eq side r)
  | inr (v, e) ↦ elim (Result-cases (create_connection side r v)) [
    | inl (o, q) ↦ ground (arith, e, q, create_task-eq side r, create_connection-stopped side r v c)
    | inr (x, q) ↦ ground (arith, e, q, create_task-eq side r)
  ]
]

-- A task that is made with a connection is not running yet, unless it is an HTTP server, which
-- reports that it runs before it is started. Started it runs, and stopped after that it does not.
pub task_lifecycle :
    (side : Side) (r : Rule) (t : Task) (c : Connection)
    → create_task side r ≡ ok t
    → t.connection ≡ some c
    → (is_running t ≡ ok (not (initially_stopped side c.protocol)))
      × (t1 : Task) × (start t ≡ ok t1)
      × (is_running t1 ≡ ok true)
      × (t2 : Task) × (stop t1 ≡ ok t2)
      × (is_running t2 ≡ ok false)
unfolding start stop is_running
task_lifecycle side r t c h k = (
  ground (arith, create_task-stopped side r t c h k),
  with_stopped false t c,
  ground arith,
  refl,
  with_stopped true (with_stopped false t c) (record c { stopped = false }),
  refl,
  refl,
)
