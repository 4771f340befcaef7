-- ===== src/Apps/Rules/Refined.antt =====
-- `RulesApp` as a map from ids to rules: what a sequence of its calls comes to, without the table and
-- without the order of the cache.
use distributed_apps_platfor.Base.{
  ◌≡◌, ◌∙◌, refl, ap, String, Bool, List, [], ◌∷◌, Option, none, some, lookup, contains, Value,
  as_key, if◌then◌else◌, ◌==◌, string_eq, option_eq, arith, Option-cases, inl, inr, lookup-insert,
  lookup-remove,
}
use distributed_apps_platfor.Sql.{Table}
use distributed_apps_platfor.Traffic.Rule.{Rule, active, inactive}
use distributed_apps_platfor.Apps.Rules.{
  RulesApp, with_state, get, add, cache, delete_rule, delete_rules, set_state, enable, disable,
  close,
}

-- A call of the app.
pub data Call : Type 0 where
  added : Rule → Bool → Call
  deleted : List String → Call
  enabled disabled : String → Call
  closed : Call

-- A map of rules, up to the order in which they were put.
abbrev pub RuleMap : Type 0
RuleMap = String → Option Rule

abbrev map_rule : Value → Option Rule → Option Rule
map_rule state none = none
map_rule state (some r) = some (with_state state r)

-- what a call does to the map
abbrev pub call_spec : Call → RuleMap → RuleMap
call_spec (added r to_db) m k = elim (lookup "ruleid" r) [
  | none ↦ m k
  | some ruleid ↦ if as_key ruleid == some k then some r else m k
]
call_spec (deleted ruleids) m k = if contains k ruleids then none else m k
call_spec (enabled ruleid) m k = if ruleid == k then map_rule active (m k) else m k
call_spec (disabled ruleid) m k = if ruleid == k then map_rule inactive (m k) else m k
call_spec closed m k = m k

abbrev pub calls_spec : List Call → RuleMap → RuleMap
calls_spec [] m = m
calls_spec (c ∷ cs) m = calls_spec cs (call_spec c m)

module _ (sql : Table) where
  -- a call on the app; what `add` raises is raised after it has changed the app
  abbrev pub run_call : Call → RulesApp sql → RulesApp sql
  run_call (added r to_db) app = (add sql r to_db app).1
  run_call (deleted ruleids) app = delete_rules sql ruleids app
  run_call (enabled ruleid) app = enable sql ruleid app
  run_call (disabled ruleid) app = disable sql ruleid app
  run_call closed app = close sql app

  abbrev pub run_calls : List Call → RulesApp sql → RulesApp sql
  run_calls [] app = app
  run_calls (c ∷ cs) app = run_calls cs (run_call c app)

  abbrev pub view : RulesApp sql → RuleMap
  view app k = get sql k app

  added-view :
      (r : Rule) (to_db : Bool) (app : RulesApp sql) (k : String)
      → get sql k (add sql r to_db app).1 ≡ call_spec (added r to_db) (view app) k
  unfolding get add cache
  added-view r to_db app k = elim (Option-cases (lookup "ruleid" r)) [
    | inl e ↦ ground (arith, e)
    | inr (v, e) ↦ ground (arith, e, lookup-insert (as_key v) (some k) r app.rules)
  ]

  set_state-view :
      (v : Value) (ruleid : String) (app : RulesApp sql) (k : String)
      → get sql k (set_state sql v ruleid app)
        ≡ (if ruleid == k then map_rule v (get sql k app) else get sql k app)
  unfolding get set_state
  set_state-view v ruleid app k = elim (Option-cases (lookup (some ruleid) app.rules)) [
    | inl e ↦ ground (arith, e, string_eq.same_iff ruleid k)
    | inr (r, e) ↦ ground (
      arith,
      e,
      lookup-insert (some ruleid) (some k) (with_state v r) app.rules,
      string_eq.same_iff ruleid k,
    )
  ]

  pub deleted-view :
      (ruleids : List String) (app : RulesApp sql) (k : String)
      → get sql k (delete_rules sql ruleids app)
        ≡ (if contains k ruleids then none else get sql k app)
  unfolding get delete_rules delete_rule
  deleted-view [] app k = refl
  deleted-view (ruleid ∷ ruleids) app k = ground (
    arith,
    deleted-view ruleids (delete_rule sql ruleid app) k,
    lookup-remove (some ruleid) (some k) app.rules,
    string_eq.same_iff ruleid k,
    string_eq.same_iff k ruleid,
  )

  run_call-view :
      (c : Call) (app : RulesApp sql) (k : String)
      → get sql k (run_call c app) ≡ call_spec c (view app) k
  unfolding enable disable close get
  run_call-view (added r to_db) app k = added-view r to_db app k
  run_call-view (deleted ruleids) app k = deleted-view ruleids app k
  run_call-view (enabled ruleid) app k = set_state-view active ruleid app k
  run_call-view (disabled ruleid) app k = set_state-view inactive ruleid app k
  run_call-view closed app k = refl

  -- After any sequence of adding rules, with the table or without, deleting, enabling and disabling rules and
  -- closing the app, `get` gives for every id what the same sequence gives on a map of rules: the
  -- last rule added under the id and not deleted since, with the state set last.
  pub run_calls-refines :
      (cs : List Call) (app : RulesApp sql) (k : String)
      → get sql k (run_calls cs app) ≡ calls_spec cs (view app) k
  run_calls-refines [] app k = refl
  run_calls-refines (c ∷ cs) app k =
      run_calls-refines cs (run_call c app) k
      ∙ ap (λ m. calls_spec cs m k) (λ i j. run_call-view c app j i)
