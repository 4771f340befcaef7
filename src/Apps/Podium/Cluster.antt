-- ===== src/Apps/Podium/Cluster.antt =====
-- `start_traffic`, `stop_traffic` and `unregister_traffic` of LYDIAN/lydian/apps/podium.py with the controllers of the hosts that it calls.
pub mod Reached
pub mod Started
pub mod Stopped
use distributed_apps_platfor.Base.{
  ◌≡◌, String, Bool, true, false, List, [], ◌∷◌, Option, none, some, Dict, lookup, insert, Value,
  text, as_key, Result, ok, err, ◌>>=◌, string_eq, option_eq,
}
use distributed_apps_platfor.Sql.{Table}
use distributed_apps_platfor.Traffic.Rule.{Rule}
use distributed_apps_platfor.Apps.Controller.{
  Controller, start_rules, stop_rules, unregister_traffic,
}
use distributed_apps_platfor.Apps.Podium.Endpoints.{Endpoints}
use distributed_apps_platfor.Apps.Podium.Traffic.{traffic_op}

-- the ids of rules, which are texts
abbrev pub rule_texts : List Value → List String
rule_texts [] = []
rule_texts (v ∷ vs) = elim (as_key v) [ none ↦ rule_texts vs | some k ↦ k ∷ rule_texts vs ]

module _ (sql : Table) where
  -- the controllers of the hosts that can be reached, by what `LydianClient` is given: no two are one node
  abbrev pub Nodes : Type 0
  Nodes = Dict (Option String) (Controller sql)

  module _ (op : List String → Controller sql → Controller sql) where
    -- an operation on each host; what a host that cannot be reached raises is logged
    unfoldable pub each_host : Dict (Option String) (List Value) → Nodes → Nodes
    each_host [] nodes = nodes
    each_host ((hostip, rules) ∷ hosts) nodes = elim (lookup hostip nodes) [
      | none ↦ each_host hosts nodes
      | some node ↦ each_host hosts (insert hostip (op (rule_texts rules) node) nodes)
    ]

    -- `_traffic_op` on the rules of the primary node
    unfoldable pub on_request : String → Endpoints → List Rule → Nodes → Result Nodes
    on_request reqid eps trules nodes = do
      hosts ← traffic_op reqid eps trules
      ok (each_host hosts nodes)

  unfoldable pub start_traffic : String → Endpoints → List Rule → Nodes → Result Nodes
  start_traffic = on_request (start_rules sql)

  unfoldable pub stop_traffic : String → Endpoints → List Rule → Nodes → Result Nodes
  stop_traffic = on_request (stop_rules sql)

  -- `unregister_traffic` on the hosts; the records of results that it deletes are those of sql30
  unfoldable pub unregister_hosts : String → Endpoints → List Rule → Nodes → Result Nodes
  unregister_hosts = on_request (unregister_traffic sql)
