-- ===== src/Apps/Rules.antt =====
-- `RulesApp` of LYDIAN/lydian/apps/rules.py: a cache of rules in front of the table of rules.
-- The table is that of ./rules.db, which each operation opens, also where the app was given another file.
pub mod Synced
pub mod Refined
pub mod Rows
pub mod Load
use distributed_apps_platfor.Base.{
  ◌≡◌, String, Bool, true, false, not, ◌&&◌, List, [], ◌∷◌, Option, none, some, Dict, lookup,
  insert, remove, has_key, keys, values, get_or, is_some, contains, keep, Value, null, text, truthy,
  is_text, as_key, Result, ok, err, Error, attribute_error, if◌then◌else◌, ◌==◌, string_eq,
  option_eq,
}
use distributed_apps_platfor.Base.Exec.{Exec, lift, modify, for_each, ◌>>=◌, ◌>>◌}
use distributed_apps_platfor.Sql.{Table}
use distributed_apps_platfor.Traffic.Rule.{
  Rule, schema, getattr, attr, as_dict, enabled, active, inactive,
}

-- The attributes of a rule object that are stored under a key of the schema, and the conversions
-- of `TYPES_MAP`: none where `int` or `float` raises.
pub record Casts : Type 0 where
  pub to_int : Value → Option Value
  pub to_float : Value → Option Value
  pub to_str : Value → Value

-- `TrafficRule.SCHEMA.get(key)` in `TYPES_MAP`, where it is not `str`.
abbrev pub int_fields : List String
int_fields = "port" ∷ "interval" ∷ "tries" ∷ "attempts" ∷ []

-- A value of a row as `load_from_db` sets it: a conversion that raises leaves it as it is.
pub converted : Casts → String → Value → Value
converted casts key null = null
converted casts key val =
    if is_text val ""
    then val
    else if contains key int_fields
    then get_or (casts.to_int val) val
    else if key == "sockettimeout"
    then get_or (casts.to_float val) val
    else casts.to_str val

-- `self._rules[ruleid].state = state`, where the rule is there.
abbrev pub with_state : Value → Rule → Rule
with_state state r = insert "state" state r

module _ (sql : Table) where
  open sql use {Db, ids, cell, write, update, delete}

  pub record RulesApp : Type 0 where
    pub rules : Dict (Option String) Rule
    pub db : Db

  -- one round of the loop of `save_to_db` for a rule with this id; a rule id is a text or None
  save_row : List String → Dict String Value → Option String → Db → Db
  save_row curr_rule_ids row none d = d
  save_row curr_rule_ids row (some ruleid) d =
      if ruleid == ""
      then d
      else if contains ruleid curr_rule_ids
      then update ruleid row d
      else write ruleid row d

  save_rule : List String → Rule → Db → Db
  unfolding save_row
  save_rule curr_rule_ids trule d =
      let row = keep (λ (p : String × Value). contains p.0 schema) (as_dict trule) in
      save_row curr_rule_ids row (as_key (getattr "ruleid" trule null)) d

  save_rules : List String → List Rule → Db → Db
  save_rules curr_rule_ids [] d = d
  save_rules curr_rule_ids (trule ∷ trules) d =
      save_rules curr_rule_ids trules (save_rule curr_rule_ids trule d)

  unfoldable pub save_to_db : List Rule → Db → Db
  unfolding save_rules save_rule
  save_to_db trules d = save_rules (ids d) trules d

  unfoldable pub get : String → RulesApp → Option Rule
  get ruleid app = lookup (some ruleid) app.rules

  -- `self._rules[trule.ruleid] = trule`
  unfoldable pub cache : Rule → Exec RulesApp (Unit {0})
  cache trule = do
    ruleid ← lift (attr "ruleid" trule)
    modify (λ app. record app { rules = insert (as_key ruleid) trule app.rules })

  unfoldable pub add : Rule → Bool → Exec RulesApp (Unit {0})
  add trule to_db = do
    modify (λ app. if to_db then record app { db = save_to_db (trule ∷ []) app.db } else app)
    cache trule

  unfoldable pub add_rules : List Rule → Exec RulesApp (Unit {0})
  add_rules trules = do
    for_each trules (λ trule. add trule false)
    modify (λ app. record app { db = save_to_db trules app.db })

  -- one round of `delete_rules`
  unfoldable pub delete_rule : String → RulesApp → RulesApp
  delete_rule ruleid app = record {
    rules = remove (some ruleid) app.rules;
    db = delete ruleid app.db;
  }

  unfoldable pub delete_rules : List String → RulesApp → RulesApp
  delete_rules [] app = app
  delete_rules (ruleid ∷ ruleids) app = delete_rules ruleids (delete_rule ruleid app)

  set_state : Value → String → RulesApp → RulesApp
  set_state state ruleid app = elim (lookup (some ruleid) app.rules) [
    | none ↦ app
    | some rule ↦ record {
      rules = insert (some ruleid) (with_state state rule) app.rules;
      db = update ruleid (("state", state) ∷ []) app.db;
    }
  ]

  unfoldable pub disable : String → RulesApp → RulesApp
  unfolding set_state
  disable = set_state inactive

  unfoldable pub enable : String → RulesApp → RulesApp
  unfolding set_state
  enable = set_state active

  -- an unknown rule is logged, and then `rule.state` of None raises
  unfoldable pub is_enabled : String → RulesApp → Result Bool
  is_enabled ruleid app = elim (lookup (some ruleid) app.rules) [
    | none ↦ err attribute_error
    | some rule ↦ enabled rule
  ]

  unfoldable pub close : RulesApp → RulesApp
  close app = record app { db = save_to_db (values app.rules) app.db }

  module _ (casts : Casts) where
    load_fields : Db → String → List String → Rule → Rule
    load_fields d ruleid [] trule = trule
    load_fields d ruleid (key ∷ fields) trule =
        load_fields d ruleid fields (insert key (converted casts key (cell d ruleid key)) trule)

    load_rows : Db → List String → Dict (Option String) Rule → Dict (Option String) Rule
    load_rows d [] rules = rules
    load_rows d (ruleid ∷ rest) rules =
        let trule = load_fields d ruleid schema [] in
        load_rows d rest (insert (as_key (getattr "ruleid" trule null)) trule rules)

    -- `RulesApp.__init__` on a database file: the cache is empty and is then loaded.
    unfoldable pub load_from_db : Db → RulesApp
    unfolding load_rows load_fields
    load_from_db d = record { rules = load_rows d (ids d) []; db = d }
