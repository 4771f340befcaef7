-- ===== src/Apps/Controller.antt =====
-- `TrafficControllerApp` of LYDIAN/lydian/apps/traffic_controller.py: rules are registered, started
-- and stopped on a node through the managers of its clients and servers, or by an external tool.
pub mod Consistent
pub mod Discover
pub mod Lifecycle
pub mod Switched
pub mod Halted
pub mod Again
pub mod Register
pub mod Resume
use distributed_apps_platfor.Base.{
  ◌≡◌, ℕ, String, Bool, true, false, not, ◌&&◌, ◌++◌, List, [], ◌∷◌, Option, none, some, Dict,
  lookup, insert, update, has_key, values, keep, Value, null, text, target, is_text, truthy, as_key,
  Target, Result, ok, err, Error, if◌then◌else◌, string_eq, option_eq, pair_eq, nat_eq,
}
use distributed_apps_platfor.Base.Exec.{Exec, pure, lift, gets, modify, skip, for_each, ◌>>=◌, ◌>>◌}
use distributed_apps_platfor.Sql.{Table}
use distributed_apps_platfor.Traffic.Rule.{Rule, attr, getattr, active, enabled, external}
use distributed_apps_platfor.Traffic.Task.{Task}
use distributed_apps_platfor.Traffic.Manager
use distributed_apps_platfor.Traffic.Manager.{
  ClientKey, ServerKey, client_manager, server_manager, add_task, start_task, stop_task,
}
use distributed_apps_platfor.Apps.Rules
use distributed_apps_platfor.Apps.Rules.{RulesApp}

-- A call of an external traffic tool, by the name of the tool and the rule.
pub data ToolCall : Type 0 where
  register_traffic start_traffic stop_traffic : Option String → Rule → ToolCall

module _ (sql : Table) where
  -- `ep_map` gives the target of an endpoint, `tools` holds the names of the external tools, and
  -- `calls` what they were called with, in order.
  pub record Controller : Type 0 where
    pub app : RulesApp sql
    pub clients : Dict ClientKey Task
    pub servers : Dict ServerKey Task
    pub ep_map : Dict (Option String) Target
    pub host : String
    pub tools : Dict (Option String) (Unit {0})
    pub calls : List ToolCall

  unfoldable pub on_clients : Exec (Dict ClientKey Task) (Unit {0}) → Exec Controller (Unit {0})
  on_clients m c = let (r, clients) = m c.clients in (r, record c { clients = clients })

  unfoldable pub on_servers : Exec (Dict ServerKey Task) (Unit {0}) → Exec Controller (Unit {0})
  on_servers m c = let (r, servers) = m c.servers in (r, record c { servers = servers })

  abbrev pub add_call : ToolCall → Controller → Controller
  add_call t c = record c { calls = c.calls ++ t ∷ [] }

  -- `_get_traffic_tool`, and what is done where there is such a tool
  unfoldable pub with_tool :
      Rule → (Option String → Exec Controller (Unit {0})) → Exec Controller (Unit {0})
  with_tool trule body c =
      let tool = as_key (getattr "tool" trule null) in
      if has_key tool c.tools then body tool c else (ok tt, c)

  abbrev pub target_value : Option Target → Value
  target_value none = null
  target_value (some t) = target t

  abbrev pub host_value : String → Option Target → Value
  host_value host none = null
  host_value host (some t) = text host

  -- the attributes that `_add_rule_info` sets first
  unfoldable pub with_info : Rule → Value → Value → Controller → Rule
  with_info trule src dst c =
      let src_target = lookup (as_key src) c.ep_map in
      let dst_target = lookup (as_key dst) c.ep_map in
      insert "dst_host" (host_value c.host dst_target) (
        insert "src_host" (host_value c.host src_target) (
          insert "dst_target" (target_value dst_target)
            (insert "src_target" (target_value src_target) trule)))

  -- the handlers of a rule: an external tool, or a server and then a client on this node
  unfoldable pub handle_rule : Rule → Exec Controller (Unit {0})
  handle_rule trule =
      if external trule
      then with_tool trule (λ tool. modify (add_call (register_traffic tool trule)))
      else (do
        if truthy (getattr "dst_host" trule null)
            then on_servers (add_task server_manager trule)
            else skip
        if truthy (getattr "src_host" trule null)
            then on_clients (add_task client_manager trule)
            else skip)

  -- `_add_rule_info` returns the rule with the attributes that it has set.
  unfoldable pub add_rule_info : Rule → Exec Controller Rule
  add_rule_info trule = do
    src ← lift (attr "src" trule)
    dst ← lift (attr "dst" trule)
    r ← gets (with_info trule src dst)
    if not (truthy (getattr "src_host" r null)) && not (truthy (getattr "dst_host" r null))
        then pure r
        else (do let r' = insert "state" (getattr "state" r active) r; handle_rule r'; pure r')

  unfoldable pub on_app : Exec (RulesApp sql) (Unit {0}) → Exec Controller (Unit {0})
  on_app m c = let (r, app) = m c.app in (r, record c { app = app })

  unfoldable pub register_rule : Rule → Exec Controller (Unit {0})
  register_rule trule = do r ← add_rule_info trule; on_app (Rules.add sql r true)

  -- `_get_traffic_rule` on the attributes of a rule, and the loop of `register_traffic`
  process_rules : List (Dict String Value) → List Rule → Exec Controller (List Rule)
  process_rules [] trules c = (ok trules, c)
  process_rules (rule ∷ rules) trules c =
      let (r, c') = add_rule_info (update rule []) c in
      elim r [ err e ↦ (err e, c') | ok trule ↦ process_rules rules (trules ++ trule ∷ []) c' ]

  unfoldable pub register_rules : List (Dict String Value) → Exec Controller (Unit {0})
  unfolding process_rules
  register_rules rules = do trules ← process_rules rules []; on_app (Rules.add_rules sql trules)

  -- `_start` and `_stop` of one rule
  start_rule : String → Rule → Exec Controller (Unit {0})
  start_rule ruleid trule = do
    on ← lift (enabled trule)
    if on
        then skip
        else if external trule
        then with_tool trule (λ tool c. (
          ok tt,
          record (add_call (start_traffic tool trule) c) { app = Rules.enable sql ruleid c.app },
        ))
        else (do
          modify (λ c. record c { app = Rules.enable sql ruleid c.app })
          on_clients (start_task client_manager trule))

  stop_rule : String → Rule → Exec Controller (Unit {0})
  stop_rule ruleid trule = do
    on ← lift (enabled trule)
    if not on
        then skip
        else if external trule
        then with_tool trule (λ tool c. (
          ok tt,
          record (add_call (stop_traffic tool trule) c) { app = Rules.disable sql ruleid c.app },
        ))
        else (do
          on_clients (stop_task client_manager trule)
          modify (λ c. record c { app = Rules.disable sql ruleid c.app }))

  on_rule : (String → Rule → Exec Controller (Unit {0})) → String → Exec Controller (Unit {0})
  on_rule body ruleid c = elim (lookup (some ruleid) c.app.rules) [
    | none ↦ (ok tt, c)
    | some trule ↦ body ruleid trule c
  ]

  unfoldable pub start_one : String → Exec Controller (Unit {0})
  unfolding on_rule start_rule
  start_one = on_rule start_rule

  unfoldable pub stop_one : String → Exec Controller (Unit {0})
  unfolding on_rule stop_rule
  stop_one = on_rule stop_rule

  -- `start` and `stop` hand each rule to a pool of threads, which logs what a call raises; here the
  -- calls are made one after the other.
  unfoldable pub start_rules : List String → Controller → Controller
  start_rules [] c = c
  start_rules (ruleid ∷ ruleids) c = start_rules ruleids (start_one ruleid c).1

  unfoldable pub stop_rules : List String → Controller → Controller
  stop_rules [] c = c
  stop_rules (ruleid ∷ ruleids) c = stop_rules ruleids (stop_one ruleid c).1

  unfoldable pub unregister_traffic : List String → Controller → Controller
  unregister_traffic ruleids c =
      let c' = stop_rules ruleids c in record c' { app = Rules.delete_rules sql ruleids c'.app }

  -- A rule object of the cache is changed in place.
  abbrev pub store_rule : Rule → Rule → Controller → Controller
  store_rule old trule c =
      let key = as_key (getattr "ruleid" old null) in
      record c { app = record c.app { rules = insert key trule c.app.rules } }

  -- the loop of `_resume_active_rules`
  resume_each : List Rule → Exec Controller (Unit {0})
  resume_each [] c = (ok tt, c)
  resume_each (trule ∷ trules) c =
      let (r, c') = add_rule_info trule c in
      elim r [ err e ↦ (err e, c') | ok trule' ↦ resume_each trules (store_rule trule trule' c') ]

  unfoldable pub resume_active_rules : Exec Controller (Unit {0})
  unfolding resume_each
  resume_active_rules c =
      resume_each
        (keep (λ trule. is_text (getattr "state" trule null) "ACTIVE") (values c.app.rules)) c

  unfoldable pub close : Exec Controller (Unit {0})
  unfolding on_clients on_servers
  close = do on_clients Manager.close; on_servers Manager.close
