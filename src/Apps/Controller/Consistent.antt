-- ===== src/Apps/Controller/Consistent.antt =====
-- A node runs the client of a rule exactly while the rule is active.
use distributed_apps_platfor.Base.{
  ◌≡◌, ◌⊎◌, refl, ap, String, Bool, true, false, not, List, [], ◌∷◌, Option, none, some, Dict,
  lookup, insert, lookup-insert, lookup-insert_self, Value, null, text, is_text, ok, string_eq,
  option_eq, ◌==◌, arith, Option-cases, inl, inr,
}
use distributed_apps_platfor.Sql.{Table}
use distributed_apps_platfor.Traffic.Rule.{Rule, getattr, active, inactive, external}
use distributed_apps_platfor.Traffic.Task.{Task, Connection}
use distributed_apps_platfor.Traffic.Manager.{ClientKey, client_manager, start_task, stop_task}
use distributed_apps_platfor.Traffic.Manager.Tasks.{
  start_task-others, start_task-runs, stop_task-stops, stop_task-raises,
}
use distributed_apps_platfor.Apps.Rules
use distributed_apps_platfor.Apps.Rules.{RulesApp}
use distributed_apps_platfor.Apps.Rules.Rows.{enable-disable_rules}
use distributed_apps_platfor.Apps.Controller.{
  Controller, on_clients, with_tool, start_one, stop_one, start_rules, stop_rules,
}

abbrev pub RulesOf : Type 0
RulesOf = Dict (Option String) Rule

abbrev pub is_active : Rule → Bool
is_active r = is_text (getattr "state" r null) "ACTIVE"

-- Each rule is cached under its own id, and a client with a connection runs exactly if the rule
-- under its id, where that rule is for the internal handlers, is active.
pub record IsConsistent (rules : RulesOf) (clients : Dict ClientKey Task) : Type 0 where
  pub keyed :
      (k : String) (r : Rule) → lookup (some k) rules ≡ some r → lookup "ruleid" r ≡ some (text k)
  pub agrees :
      (k : String) (r : Rule) (t : Task) (c : Connection)
      → lookup (some k) rules ≡ some r
      → external r ≡ false
      → lookup (some k) clients ≡ some t
      → t.connection ≡ some c
      → not c.stopped ≡ is_active r

-- The rule under `k` gets the state `v`, and of the clients only the one under `k` may change: if
-- that one runs as `v` says, the node stays consistent.
module _ (rules : RulesOf) (clients clients' : Dict ClientKey Task) (k : String) (r : Rule)
    (v : Value) (found : lookup (some k) rules ≡ some r) (consistent : IsConsistent rules clients)
    (others : (j : String) → (k == j) ≡ false → lookup (some j) clients' ≡ lookup (some j) clients)
    (runs : (t : Task) (c : Connection)
      → external r ≡ false
      → lookup (some k) clients' ≡ some t
      → t.connection ≡ some c
      → not c.stopped ≡ is_text v "ACTIVE") where
  external-state : external (insert "state" v r) ≡ external r
  unfolding external
  external-state = rw lookup-insert

  set-keyed :
      (j : String) (q : Rule)
      → lookup (some j) (insert (some k) (insert "state" v r) rules) ≡ some q
      → lookup "ruleid" q ≡ some (text j)
  set-keyed j q h = ground (
    arith,
    lookup-insert (some k) (some j) (insert "state" v r) rules,
    string_eq.same_iff k j,
    lookup-insert "state" "ruleid" v r,
    consistent.keyed k r found,
    consistent.keyed j q,
  )

  set-agrees :
      (j : String) (q : Rule) (t : Task) (c : Connection)
      → lookup (some j) (insert (some k) (insert "state" v r) rules) ≡ some q
      → external q ≡ false
      → lookup (some j) clients' ≡ some t
      → t.connection ≡ some c
      → not c.stopped ≡ is_active q
  set-agrees j q t c h x l d = ground (
    arith,
    lookup-insert (some k) (some j) (insert "state" v r) rules,
    string_eq.same_iff k j,
    lookup-insert_self "state" v r,
    external-state,
    others j,
    runs t c,
    consistent.agrees j q t c,
  )

  set-IsConsistent : IsConsistent (insert (some k) (insert "state" v r) rules) clients'
  set-IsConsistent = record { keyed = set-keyed; agrees = set-agrees }

pub key_of :
    (r : Rule) (k : String) → lookup "ruleid" r ≡ some (text k) → client_manager.key r ≡ ok (some k)
unfolding client_manager
key_of r k h = ground arith

module _ (sql : Table) where
  pub start_one-effect :
      (k : String) (r : Rule) (c : Controller sql)
      → lookup (some k) c.app.rules ≡ some r
      → let c' = (start_one sql k c).1 in
        ((c'.app.rules ≡ c.app.rules) × (c'.clients ≡ c.clients))
        ⊎ (((c'.app.rules ≡ (Rules.enable sql k c.app).rules)
              × (c'.clients ≡ c.clients)
              × (external r ≡ true))
            ⊎ ((c'.app.rules ≡ (Rules.enable sql k c.app).rules)
                × (c'.clients ≡ (start_task client_manager r c.clients).1)))
  unfolding start_one on_clients with_tool
  start_one-effect k r c h = ground (arith, h)

  pub stop_one-effect :
      (k : String) (r : Rule) (c : Controller sql)
      → lookup (some k) c.app.rules ≡ some r
      → let c' = (stop_one sql k c).1 in
        ((c'.app.rules ≡ c.app.rules) × (c'.clients ≡ c.clients))
        ⊎ (((c'.app.rules ≡ (Rules.disable sql k c.app).rules)
              × (c'.clients ≡ c.clients)
              × (external r ≡ true))
            ⊎ (((c'.app.rules ≡ (Rules.disable sql k c.app).rules)
                  × (c'.clients ≡ (stop_task client_manager r c.clients).1))
                ⊎ ((c'.app.rules ≡ c.app.rules)
                    × (c'.clients ≡ (stop_task client_manager r c.clients).1)
                    × ¬ ((stop_task client_manager r c.clients).0 ≡ ok tt))))
  unfolding stop_one on_clients with_tool
  stop_one-effect k r c h = ground (arith, h)

  abbrev pub Consistent : Controller sql → Type 0
  Consistent c = IsConsistent c.app.rules c.clients

  start_rule-Consistent :
      (k : String) (r : Rule) (c : Controller sql)
      → lookup (some k) c.app.rules ≡ some r
      → Consistent c
      → Consistent (start_one sql k c).1
  start_rule-Consistent k r c h i = elim (start_one-effect k r c h) [
    | inl (rules, clients) ↦ rw (rules, clients) i
    | inr (inl (rules, clients, ext)) ↦
        rw (rules, clients, (enable-disable_rules sql k r c.app h).0)
          (set-IsConsistent c.app.rules c.clients c.clients k r active h i (λ j n. refl)
            (λ t d x l q. cc))
    | inr (inr (rules, clients)) ↦
        let key = key_of r k (i.keyed k r h) in
        rw (rules, clients, (enable-disable_rules sql k r c.app h).0)
          (set-IsConsistent c.app.rules c.clients _ k r active h i
            (λ j n. (start_task-others client_manager r (some k) (some j) c.clients key n).0)
            (λ t d x l q. ap not (start_task-runs client_manager r (some k) t d c.clients key l q)))
  ]

  pub unknown-unchanged :
      (k : String) (c : Controller sql)
      → lookup (some k) c.app.rules ≡ none
      → (start_one sql k c ≡ (ok tt, c)) × (stop_one sql k c ≡ (ok tt, c))
  unfolding start_one stop_one
  unknown-unchanged k c h = (ground arith, ground arith)

  stop_rule-Consistent :
      (k : String) (r : Rule) (c : Controller sql)
      → lookup (some k) c.app.rules ≡ some r
      → Consistent c
      → Consistent (stop_one sql k c).1
  stop_rule-Consistent k r c h i = elim (stop_one-effect k r c h) [
    | inl (rules, clients) ↦ rw (rules, clients) i
    | inr (inl (rules, clients, ext)) ↦
        rw (rules, clients, (enable-disable_rules sql k r c.app h).1)
          (set-IsConsistent c.app.rules c.clients c.clients k r inactive h i (λ j n. refl)
            (λ t d x l q. cc))
    | inr (inr (inl (rules, clients))) ↦
        let key = key_of r k (i.keyed k r h) in
        rw (rules, clients, (enable-disable_rules sql k r c.app h).1)
          (set-IsConsistent c.app.rules c.clients _ k r inactive h i
            (λ j n. (start_task-others client_manager r (some k) (some j) c.clients key n).1)
            (λ t d x l q. ap not (stop_task-stops client_manager r (some k) t d c.clients key l q)))
    | inr (inr (inr (rules, clients, raised))) ↦
        rw (rules, clients, stop_task-raises client_manager r c.clients raised) i
  ]

  -- Starting a rule, whether it is known or not, keeps the clients in step with the rules.
  pub start_one-Consistent :
      (k : String) (c : Controller sql) → Consistent c → Consistent (start_one sql k c).1
  start_one-Consistent k c i = elim (Option-cases (lookup (some k) c.app.rules)) [
    | inl e ↦ rw ((unknown-unchanged k c e).0) i
    | inr (r, e) ↦ start_rule-Consistent k r c e i
  ]

  pub stop_one-Consistent :
      (k : String) (c : Controller sql) → Consistent c → Consistent (stop_one sql k c).1
  stop_one-Consistent k c i = elim (Option-cases (lookup (some k) c.app.rules)) [
    | inl e ↦ rw ((unknown-unchanged k c e).1) i
    | inr (r, e) ↦ stop_rule-Consistent k r c e i
  ]

  pub start_rules-Consistent :
      (ks : List String) (c : Controller sql) → Consistent c → Consistent (start_rules sql ks c)
  unfolding start_rules
  start_rules-Consistent [] c i = i
  start_rules-Consistent (k ∷ ks) c i = start_rules-Consistent ks _ (start_one-Consistent k c i)

  pub stop_rules-Consistent :
      (ks : List String) (c : Controller sql) → Consistent c → Consistent (stop_rules sql ks c)
  unfolding stop_rules
  stop_rules-Consistent [] c i = i
  stop_rules-Consistent (k ∷ ks) c i = stop_rules-Consistent ks _ (stop_one-Consistent k c i)

  -- On a consistent node, whatever rules are started and then stopped, known or not, internal or not,
  -- the node stays consistent: each internal rule's client runs exactly if the rule is active.
  pub start_rules-stop_rules-Consistent :
      (starts stops : List String) (c : Controller sql)
      → Consistent c
      → Consistent (start_rules sql starts c)
        × Consistent (stop_rules sql stops (start_rules sql starts c))
  start_rules-stop_rules-Consistent starts stops c i =
      let started = start_rules-Consistent starts c i in
      (started, stop_rules-Consistent stops _ started)
