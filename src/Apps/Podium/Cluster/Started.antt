-- ===== src/Apps/Podium/Cluster/Started.antt =====
-- That starting a request starts its rules on their hosts.
use distributed_apps_platfor.Base.{
  ◌≡◌, refl, String, true, false, List, Option, some, lookup, contains, All, ok, string_eq,
  option_eq, arith,
}
use distributed_apps_platfor.Sql.{Table}
use distributed_apps_platfor.Traffic.Rule.{Rule}
use distributed_apps_platfor.Traffic.Task.{Task, Connection}
use distributed_apps_platfor.Apps.Controller.{Controller, start_rules}
use distributed_apps_platfor.Apps.Controller.Consistent.{Consistent, start_rules-Consistent}
use distributed_apps_platfor.Apps.Controller.Switched.{IsKnown, IsStarted, start_rules-IsStarted}
use distributed_apps_platfor.Apps.Podium.Endpoints.{Endpoints}
use distributed_apps_platfor.Apps.Podium.Traffic.Shared.{IsFilled, ruleids_on}
use distributed_apps_platfor.Apps.Podium.Cluster.{rule_texts, Nodes, start_traffic}
use distributed_apps_platfor.Apps.Podium.Cluster.Reached.{on_request_lem}

module _ (sql : Table) where
  -- Where every rule of the primary node has its attributes, and a host is reached whose node is consistent: starting
  -- a request does not raise and leaves that node consistent; each internal rule of the request whose source
  -- is on the host, and which the node knows with a state, is then active there, and its client, if it
  -- has one with a connection, runs.
  pub start_traffic_lem :
      (reqid : String) (eps : Endpoints) (trules : List Rule) (nodes : Nodes sql)
      (h : Option String) (node : Controller sql)
      → All IsFilled trules
      → lookup h nodes ≡ some node
      → Consistent sql node
      → (nodes' : Nodes sql) × (node' : Controller sql) × (start_traffic sql reqid eps trules nodes
          ≡ ok nodes')
        × (lookup h nodes' ≡ some node')
        × Consistent sql node'
        × ((k : String)
            → contains k (rule_texts (ruleids_on reqid eps h trules)) ≡ true
            → IsKnown k node.app.rules
            → IsStarted k node'.app.rules
              × ((t : Task) (c : Connection)
                  → lookup (some k) node'.clients ≡ some t
                  → t.connection ≡ some c
                  → c.stopped ≡ false))
  unfolding start_traffic start_rules
  start_traffic_lem reqid eps trules nodes h node filled found i =
      let ks : List String = rule_texts (ruleids_on reqid eps h trules) in
      let (nodes', called, there) =
        on_request_lem sql (start_rules sql) reqid eps trules nodes h node (λ node'. refl) filled
          found in
      let consistent = start_rules-Consistent sql ks node i in
      (
        nodes',
        start_rules sql ks node,
        called,
        there,
        consistent,
        λ k inside known.
            let started = (start_rules-IsStarted sql ks k node).0 inside known in
            (
              started,
              λ t c client connection. ground (
                arith,
                consistent.agrees k started.known.rule t c started.known.found
                    started.known.internal client connection,
                started.runs,
              ),
            ),
      )
