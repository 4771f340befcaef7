-- ===== src/Tests/Podium.antt =====
-- Runs of `Podium` on three hosts, one of which is not in the map.
use distributed_apps_platfor.Base.{
  ◌≡◌, refl, arith, ℕ, ◌⊎◌, String, Bool, true, false, ◌||◌, List, [], ◌∷◌, ◌++◌, map, Option, none,
  some, Dict, lookup, has_key, contains, any, is_some, Value, null, text, int, pos, Result, ok, err,
  Error, value_error, ◌==◌, string_eq, option_eq, group, Distinct, All,
}
use distributed_apps_platfor.Apps.Rules.{RulesApp, add_rules}
use distributed_apps_platfor.Apps.Podium.Endpoints.{Endpoints, get_ep_host, Remote}
use distributed_apps_platfor.Apps.Podium.Traffic.{
  Intent, Groups, no_groups, group_intents, add_intent, create_traffic_rule, register_traffic,
}
use distributed_apps_platfor.Apps.Podium.Traffic.Shared.{intents_on, IsFilled, register_traffic_lem}
use distributed_apps_platfor.Tests.Memory.{memory}

abbrev pub eps : Endpoints
eps = ("10.0.0.1", "h1") ∷ ("10.0.0.2", "h2") ∷ ("10.0.0.3", "h1") ∷ []

eps-Distinct : Distinct eps
unfolding lookup
eps-Distinct = (refl, (refl, (refl, tt)))

abbrev one : Intent
one =
    ("ruleid", text "r-1")
    ∷ ("reqid", text "q-1")
    ∷ ("src", text "10.0.0.1")
    ∷ ("dst", text "10.0.0.2")
    ∷ []

abbrev unknown : Intent
unknown =
    ("ruleid", text "r-2")
    ∷ ("reqid", text "q-1")
    ∷ ("src", text "10.0.0.9")
    ∷ ("dst", text "10.0.0.2")
    ∷ []

abbrev pub intents : List Intent
intents = one ∷ unknown ∷ []

abbrev app : RulesApp (memory "ruleid")
app = record { rules = []; db = [] }

abbrev pub remote : Remote
remote = record {
  connect = ok tt;
  interface_ips = ok (("veth0", "10.1.0.1" ∷ []) ∷ ("lo", "127.0.0.1" ∷ []) ∷ []);
  namespace_ips = ok ("10.2.0.1" ∷ []);
}

abbrev groups : Groups
groups = record {
  servers = ("h2", one ∷ []) ∷ [];
  clients = ("h1", one ∷ []) ∷ [];
  trules = create_traffic_rule one ∷ [];
}

intents-groups : group_intents eps intents no_groups ≡ ok groups
unfolding group_intents add_intent distributed_apps_platfor.Base.push
    distributed_apps_platfor.Base.extend lookup distributed_apps_platfor.Base.insert get_ep_host
intents-groups = refl

register_traffic_lem_example :
    (map (group "h2") (register_traffic (memory "ruleid") true eps intents app).0
      ≡ intents_on "dst" eps "h2" intents ∷ intents_on "src" eps "h2" intents ∷ [])
    × (map (group "h2") (register_traffic (memory "ruleid") false eps intents app).0
        ≡ (intents_on "dst" eps "h2" intents ++ intents_on "src" eps "h2" intents) ∷ [])
    × ((register_traffic (memory "ruleid") true eps intents app).1
        ≡ add_rules (memory "ruleid") groups.trules app)
register_traffic_lem_example =
    register_traffic_lem eps "h2" (memory "ruleid") intents groups app intents-groups

pub intents-All : All IsFilled intents
unfolding lookup
intents-All = ((refl, refl, refl), ((refl, refl, refl), tt))
