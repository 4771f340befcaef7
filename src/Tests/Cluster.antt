-- ===== src/Tests/Cluster.antt =====
-- A request that is started on the nodes of its hosts.
use distributed_apps_platfor.Base.{
  ◌≡◌, refl, String, true, false, none, text, [], ◌∷◌, some, lookup, contains, ok, string_eq,
  option_eq, All,
}
use distributed_apps_platfor.Traffic.Task.{Task, Connection, with_stopped}
use distributed_apps_platfor.Apps.Controller.{Controller, unregister_traffic, register_rule}
use distributed_apps_platfor.Apps.Controller.Again.{Idle, register_rule-unregistered}
use distributed_apps_platfor.Apps.Controller.Consistent.{Consistent}
use distributed_apps_platfor.Apps.Controller.Switched.{IsKnown, IsStarted}
use distributed_apps_platfor.Apps.Podium.Endpoints.{Endpoints}
use distributed_apps_platfor.Apps.Podium.Traffic.Shared.{IsFilled, ruleids_on}
use distributed_apps_platfor.Apps.Controller.Halted.{halted}
use distributed_apps_platfor.Apps.Rules.{get}
use distributed_apps_platfor.Apps.Podium.Cluster.{
  rule_texts, Nodes, start_traffic, stop_traffic, unregister_hosts,
}
use distributed_apps_platfor.Apps.Podium.Cluster.Stopped.{stop_traffic_lem}
use distributed_apps_platfor.Apps.Podium.Cluster.Started.{start_traffic_lem}
use distributed_apps_platfor.Tests.Traffic.{web, task, link}
use distributed_apps_platfor.Tests.Rules.{sql, node, node-Consistent}

abbrev eps : Endpoints
eps = ("10.0.0.1", "h1") ∷ []

abbrev nodes : Nodes sql
nodes = (some "h1", node) ∷ []

web-All : All IsFilled (web ∷ [])
unfolding lookup
web-All = ((refl, refl, refl), tt)

node-there : lookup (some "h1") nodes ≡ some node
unfolding lookup
node-there = refl

start_traffic_lem_example :
    (nodes' : Nodes sql) × (node' : Controller sql) × (start_traffic sql "q-1" eps (web ∷ []) nodes
      ≡ ok nodes')
    × (lookup (some "h1") nodes' ≡ some node')
    × Consistent sql node'
    × ((k : String)
        → contains k (rule_texts (ruleids_on "q-1" eps (some "h1") (web ∷ []))) ≡ true
        → IsKnown k node.app.rules
        → IsStarted k node'.app.rules
          × ((t : Task) (c : Connection)
              → lookup (some k) node'.clients ≡ some t
              → t.connection ≡ some c
              → c.stopped ≡ false))
start_traffic_lem_example =
    start_traffic_lem sql "q-1" eps (web ∷ []) nodes (some "h1") node web-All node-there
      node-Consistent

web-IsKnown : IsKnown "r-1" node.app.rules
unfolding lookup distributed_apps_platfor.Traffic.Rule.external
web-IsKnown = record { rule = web; found = refl; internal = refl; has_state = refl }

web-inside : contains "r-1" (rule_texts (ruleids_on "q-1" eps (some "h1") (web ∷ []))) ≡ true
unfolding lookup distributed_apps_platfor.Apps.Podium.Endpoints.get_ep_host
web-inside = refl

stop_traffic_lem_example :
    ((nodes' : Nodes sql) × (node' : Controller sql) × (stop_traffic sql "q-1" eps (web ∷ []) nodes
        ≡ ok nodes')
      × (lookup (some "h1") nodes' ≡ some node')
      × Consistent sql node'
      × (halted (lookup (some "r-1") node'.clients) ≡ true))
    × ((nodes' : Nodes sql) × (node' : Controller sql) × (unregister_hosts sql "q-1" eps
            (web ∷ [])
            nodes
          ≡ ok nodes')
        × (lookup (some "h1") nodes' ≡ some node')
        × Consistent sql node'
        × (halted (lookup (some "r-1") node'.clients) ≡ true)
        × (get sql "r-1" node'.app ≡ none))
stop_traffic_lem_example =
    stop_traffic_lem sql "q-1" eps (web ∷ []) nodes (some "h1") node "r-1" web-All node-there
      node-Consistent web-inside web-IsKnown

node-client : lookup (some "r-1") node.clients ≡ some (with_stopped false task link)
unfolding lookup
node-client = refl

abbrev link_started : Connection
link_started = record link { stopped = false }

web-id : lookup "ruleid" web ≡ some (text "r-1")
unfolding lookup
web-id = refl

register_rule-unregistered_example :
    let c1 = unregister_traffic sql ("r-1" ∷ []) node in
    let c2 = (register_rule sql web c1).1 in
    (get sql "r-1" c1.app ≡ none)
    × Idle (lookup (some "r-1") c1.clients)
    × (lookup (some "r-1") c2.clients ≡ lookup (some "r-1") c1.clients)
register_rule-unregistered_example =
    register_rule-unregistered sql web "r-1" node (with_stopped false task link) link_started
      node-Consistent web-IsKnown node-client refl web-id
