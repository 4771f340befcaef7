-- ===== src/Apps/Podium/Traffic.antt =====
-- The requests of `Podium` in LYDIAN/lydian/apps/podium.py: an intent is registered on the hosts of
-- its two endpoints, and a request is started, stopped and removed on the hosts of its sources.
pub mod Shared
use distributed_apps_platfor.Base.{
  ◌≡◌, String, Bool, true, false, not, ◌&&◌, List, [], ◌∷◌, ◌++◌, Option, none, some, Dict, lookup,
  insert, update, get_or, values, map, Value, null, text, bool, as_key, truthy, Result, ok, err,
  Error, ◌>>=◌, key_error, attribute_error, if◌then◌else◌, ◌==◌, string_eq, option_eq, push,
  extend_all, contains, keep,
}
use distributed_apps_platfor.Sql.{Table}
use distributed_apps_platfor.Traffic.Rule.{Rule, attr, fill, schema}
use distributed_apps_platfor.Apps.Rules.{RulesApp, add_rules}
use distributed_apps_platfor.Apps.Podium.Endpoints.{Endpoints, get_ep_host}

-- an intent: a dict with the keys of a rule
abbrev pub Intent : Type 0
Intent = Dict String Value

-- the fresh ids are those that `uuid.uuid4()` returned
unfoldable pub create_traffic_intent :
    String → String → Value → Value → Value → Value → Value → Bool → Dict String Value → Intent
create_traffic_intent reqid_new ruleid_new src dst port protocol reqid connected kwargs =
    let intent =
      ("reqid", (if truthy reqid then reqid else text reqid_new))
      ∷ ("ruleid", text ruleid_new)
      ∷ ("src", src)
      ∷ ("dst", dst)
      ∷ ("port", port)
      ∷ ("protocol", protocol)
      ∷ ("connected", bool connected)
      ∷ [] in
    update (keep (λ (p : String × Value). contains p.0 schema) kwargs) intent

-- a rule object has no attribute before they are set
unfoldable pub create_traffic_rule : Intent → Rule
create_traffic_rule intent = fill (update intent [])

-- `rule[key]`
abbrev pub item : String → Intent → Result Value
item key rule = elim (lookup key rule) [ none ↦ err key_error | some v ↦ ok v ]

-- `self.get_ep_host(v)`, with None for a host that the code takes as missing
abbrev pub host_of : Endpoints → Value → Option String
host_of eps v = elim (as_key v) [
  | none ↦ none
  | some ip ↦ elim (get_ep_host ip eps) [
    | none ↦ none
    | some host ↦ if host == "" then none else some host
  ]
]

-- What the loop of `register_traffic` builds.
pub record Groups : Type 0 where
  pub servers : Dict String (List Intent)
  pub clients : Dict String (List Intent)
  pub trules : List Rule

abbrev pub no_groups : Groups
no_groups = record { servers = []; clients = []; trules = [] }

unfoldable pub add_intent : Intent → Option String → Option String → Groups → Groups
add_intent rule (some srchost) (some dsthost) g = record {
  servers = push dsthost rule g.servers;
  clients = push srchost rule g.clients;
  trules = g.trules ++ create_traffic_rule rule ∷ [];
}
add_intent rule _ _ g = g

unfoldable pub group_intents : Endpoints → List Intent → Groups → Result Groups
group_intents eps [] g = ok g
group_intents eps (rule ∷ intent) g = do
  src ← item "src" rule
  dst ← item "dst" rule
  group_intents eps intent (add_intent rule (host_of eps src) (host_of eps dst) g)

-- The calls, in phases: every call of a phase is made before the next phase starts.
unfoldable pub phases : Bool → Groups → List (Dict String (List Intent))
phases true g = g.servers ∷ g.clients ∷ []
phases false g = extend_all g.clients g.servers ∷ []

module _ (sql : Table) where
  -- `register_traffic`: the calls it makes, and what it leaves of the rules
  unfoldable pub register_traffic :
      Bool
      → Endpoints
      → List Intent
      → RulesApp sql
      → List (Dict String (List Intent)) × (Result (Unit {0}) × RulesApp sql)
  register_traffic servers_first eps intent app = elim (group_intents eps intent no_groups) [
    | err e ↦ ([], (err e, app))
    | ok g ↦ (phases servers_first g, add_rules sql g.trules app)
  ]

-- `get_rules_by_reqid` on the rules of the cache
unfoldable pub get_rules_by_reqid : String → List Rule → Result (List Rule)
get_rules_by_reqid reqid [] = ok []
get_rules_by_reqid reqid (trule ∷ trules) = do
  r ← attr "reqid" trule
  rest ← get_rules_by_reqid reqid trules
  ok (if as_key r == some reqid then trule ∷ rest else rest)

-- `self.get_ep_host(src_ip)`, None for an unknown endpoint
abbrev pub source_host : Endpoints → Value → Option String
source_host eps v = elim (as_key v) [ none ↦ none | some ip ↦ get_ep_host ip eps ]

unfoldable pub group_ruleids :
    Endpoints
    → List Rule
    → Dict (Option String) (List Value)
    → Result (Dict (Option String) (List Value))
group_ruleids eps [] d = ok d
group_ruleids eps (trule ∷ trules) d = do
  ruleid ← attr "ruleid" trule
  src ← attr "src" trule
  group_ruleids eps trules (push (source_host eps src) ruleid d)

-- `_traffic_op`: the rule ids that each host is called with, for each of its three operations
unfoldable pub traffic_op :
    String → Endpoints → List Rule → Result (Dict (Option String) (List Value))
traffic_op reqid eps rules = do trules ← get_rules_by_reqid reqid rules; group_ruleids eps trules []
