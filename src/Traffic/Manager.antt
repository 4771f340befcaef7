-- ===== src/Traffic/Manager.antt =====
-- LYDIAN/lydian/traffic/manager.py: the tasks of a node, one for each key. A manager is given by the
-- side of its tasks, by `key`, and by the truth value of a key.
pub mod Tasks
use distributed_apps_platfor.Base.{
  ◌≡◌, ℕ, String, Bool, true, false, not, ◌&&◌, List, [], ◌∷◌, Option, none, some, Dict, lookup,
  insert, has_key, length, Value, null, int, text, pos, ℤ, target, as_key, Result, ok, err, Error,
  attribute_error, if◌then◌else◌, Eq, ◌==◌, string_eq,
}
use distributed_apps_platfor.Base.Exec.{Exec, pure, lift, gets, modify, skip, assert, ◌>>=◌, ◌>>◌}
use distributed_apps_platfor.Traffic.Rule.{Rule, attr, enabled}
use distributed_apps_platfor.Traffic.Task.{Task, Side, client, server, create_task, start, stop}

pub record Manager (K : Type 0) : Type 0 where
  pub side : Side
  pub key : Rule → Result K
  pub valid : K → Bool

-- `ClientManager.key`: the id of the rule, a text or None
unfoldable pub client_key : Rule → Result (Option String)
client_key r = elim (attr "ruleid" r) [ ok v ↦ ok (as_key v) | err e ↦ err e ]

abbrev pub ClientKey : Type 0
ClientKey = Option String

abbrev valid_ruleid : ClientKey → Bool
valid_ruleid none = false
valid_ruleid (some s) = not (s == "")

unfoldable pub client_manager : Manager ClientKey
unfolding client_key
client_manager = record { side = client; key = client_key; valid = valid_ruleid }

-- `ServerManager.key`: the name of the target, the protocol and the port, a number or a text
abbrev pub ServerKey : Type 0
ServerKey = Option String × (Option String × (Option ℕ × Option String))

abbrev port_key : Value → Option ℕ × Option String
port_key (int (pos n)) = (some n, none)
port_key v = (none, as_key v)

target_name : Value → Result (Option String)
target_name (target t) = ok t.name
target_name _ = err attribute_error

server_key : Rule → Result ServerKey
server_key r = elim (attr "dst_target" r) [
  | err e ↦ err e
  | ok v ↦ elim (target_name v) [
    | err e ↦ err e
    | ok name ↦ elim (attr "protocol" r) [
      | err e ↦ err e
      | ok protocol ↦ elim (attr "port" r) [
        | err e ↦ err e
        | ok port ↦ ok (name, (as_key protocol, port_key port))
      ]
    ]
  ]
]

unfoldable pub server_manager : Manager ServerKey
unfolding server_key target_name
server_manager = record { side = server; key = server_key; valid = λ k. true }

module _ {K : Type 0} ⦃e : Eq K⦄ (m : Manager K) where
  -- the task that `add_task` makes and, where the rule is enabled, starts
  unfoldable pub new_task : Rule → Result Task
  new_task trule = elim (create_task m.side trule) [
    | err e ↦ err e
    | ok task ↦ elim (enabled trule) [ err e ↦ err e | ok on ↦ if on then start task else ok task ]
  ]

  unfoldable pub add_task : Rule → Exec (Dict K Task) (Unit {0})
  add_task trule = do
    key ← lift (m.key trule)
    assert (m.valid key)
    running ← gets (has_key key)
    if running then skip else do task ← lift (new_task trule); modify (insert key task)

  on_task : (Task → Result Task) → Rule → Exec (Dict K Task) (Unit {0})
  on_task f trule = do
    key ← lift (m.key trule)
    found ← gets (lookup key)
    elim found [ none ↦ skip | some task ↦ do task' ← lift (f task); modify (insert key task') ]

  unfoldable pub start_task : Rule → Exec (Dict K Task) (Unit {0})
  unfolding on_task
  start_task = on_task start

  unfoldable pub stop_task : Rule → Exec (Dict K Task) (Unit {0})
  unfolding on_task
  stop_task = on_task stop

  unfoldable pub num_tasks : Dict K Task → ℕ
  num_tasks tasks = length tasks

-- `close` closes every task and forgets them; closing raises where a task has no connection.
close_each : {K : Type 0} → Dict K Task → Result (Unit {0})
close_each [] = ok tt
close_each ((k, t) ∷ tasks) =
    let rest = close_each tasks in elim (stop t) [ err e ↦ err e | ok _ ↦ rest ]

unfoldable pub close : {K : Type 0} → Exec (Dict K Task) (Unit {0})
unfolding close_each
close tasks = elim (close_each tasks) [ err e ↦ (err e, tasks) | ok _ ↦ (ok tt, []) ]
