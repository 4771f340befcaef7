-- ===== src/Apps/Podium/Cluster/Stopped.antt =====
-- That stopping and removing a request stops its clients on their hosts.
use distributed_apps_platfor.Base.{
  ◌≡◌, ◌∙◌, refl, String, true, List, Option, none, some, lookup, contains, All, ok, string_eq,
  option_eq,
}
use distributed_apps_platfor.Sql.{Table}
use distributed_apps_platfor.Traffic.Rule.{Rule}
use distributed_apps_platfor.Apps.Controller.{Controller, stop_rules, unregister_traffic}
use distributed_apps_platfor.Apps.Controller.Consistent.{Consistent, stop_rules-Consistent}
use distributed_apps_platfor.Apps.Controller.Lifecycle.{unregister_traffic-Consistent}
use distributed_apps_platfor.Apps.Controller.Switched.{IsKnown}
use distributed_apps_platfor.Apps.Controller.Halted.{halted, stop_rules-halted}
use distributed_apps_platfor.Apps.Rules.{get}
use distributed_apps_platfor.Apps.Rules.Refined.{deleted-view}
use distributed_apps_platfor.Apps.Podium.Endpoints.{Endpoints}
use distributed_apps_platfor.Apps.Podium.Traffic.Shared.{IsFilled, ruleids_on}
use distributed_apps_platfor.Apps.Podium.Cluster.{rule_texts, Nodes, stop_traffic, unregister_hosts}
use distributed_apps_platfor.Apps.Podium.Cluster.Reached.{on_request_lem}

module _ (sql : Table) where
  unregister_traffic-clients :
      (ks : List String) (c : Controller sql)
      → ((unregister_traffic sql ks c).clients ≡ (stop_rules sql ks c).clients)
        × ((k : String) → contains k ks ≡ true → get sql k (unregister_traffic sql ks c).app ≡ none)
  unfolding unregister_traffic
  unregister_traffic-clients ks c =
      (refl, λ k h. deleted-view sql ks (stop_rules sql ks c).app k ∙ rw h refl)

  -- Where every rule of the primary node has its attributes, and a host is reached whose node is consistent: stopping a
  -- request does not raise and leaves that node consistent, and so does its removal from the hosts. After either no client
  -- of an internal rule of the request runs there, where the rule's source is on the host and the node knows the rule with a
  -- state; after the removal the node has no such rule any more.
  pub stop_traffic_lem :
      (reqid : String) (eps : Endpoints) (trules : List Rule) (nodes : Nodes sql)
      (h : Option String) (node : Controller sql) (k : String)
      → All IsFilled trules
      → lookup h nodes ≡ some node
      → Consistent sql node
      → contains k (rule_texts (ruleids_on reqid eps h trules)) ≡ true
      → IsKnown k node.app.rules
      → ((nodes' : Nodes sql) × (node' : Controller sql) × (stop_traffic sql reqid eps trules nodes
            ≡ ok nodes')
          × (lookup h nodes' ≡ some node')
          × Consistent sql node'
          × (halted (lookup (some k) node'.clients) ≡ true))
        × ((nodes' : Nodes sql) × (node' : Controller sql) × (unregister_hosts sql reqid eps trules
                nodes
              ≡ ok nodes')
            × (lookup h nodes' ≡ some node')
            × Consistent sql node'
            × (halted (lookup (some k) node'.clients) ≡ true)
            × (get sql k node'.app ≡ none))
  unfolding stop_traffic unregister_hosts stop_rules unregister_traffic
      distributed_apps_platfor.Apps.Rules.delete_rules
  stop_traffic_lem reqid eps trules nodes h node k filled found i inside known =
      let ks : List String = rule_texts (ruleids_on reqid eps h trules) in
      let quiet = (stop_rules-halted sql ks k node i).0 inside known in
      let (same, gone) = unregister_traffic-clients ks node in
      let (stopped, s_called, s_there) =
        on_request_lem sql (stop_rules sql) reqid eps trules nodes h node (λ node'. refl) filled
          found in
      let (removed, r_called, r_there) =
        on_request_lem sql (unregister_traffic sql) reqid eps trules nodes h node (λ node'. refl)
          filled found in
      (
        (
          stopped,
          stop_rules sql ks node,
          s_called,
          s_there,
          stop_rules-Consistent sql ks node i,
          quiet,
        ),
        (
          removed,
          unregister_traffic sql ks node,
          r_called,
          r_there,
          unregister_traffic-Consistent sql ks node i,
          rw same quiet,
          gone k inside,
        ),
      )
