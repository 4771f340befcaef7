-- ===== src/Apps/Controller/Lifecycle.antt =====
-- The calls that a node receives over its life, as the steps of a transition system.
use distributed_apps_platfor.Base.{
  ◌≡◌, refl, String, false, not, List, [], ◌∷◌, none, some, Dict, lookup, insert, lookup-insert,
  lookup-insert_self, lookup-remove, text, ok, string_eq, option_eq, ◌==◌, arith, inl, inr,
}
use distributed_apps_platfor.Sql.{Table}
use distributed_apps_platfor.Traffic.Rule.{Rule}
use distributed_apps_platfor.Traffic.Task.{Task, Connection}
use distributed_apps_platfor.Traffic.Manager.{ClientKey, client_manager, add_task}
use distributed_apps_platfor.Apps.Rules
use distributed_apps_platfor.Apps.Rules.{RulesApp}
use distributed_apps_platfor.Apps.Controller.{
  Controller, register_rule, start_rules, stop_rules, unregister_traffic,
}
use distributed_apps_platfor.Apps.Controller.Consistent.{
  IsConsistent, Consistent, RulesOf, is_active, key_of, start_rules-Consistent,
  stop_rules-Consistent,
}
use distributed_apps_platfor.Apps.Controller.Register.{
  register_rule-effect, add_task-cases, new_task-runs,
}

-- A rule cached under a key that had no client, together with the client that may be made for it.
module _ (rules : RulesOf) (clients clients' : Dict ClientKey Task) (k : String) (r : Rule)
    (keyed : lookup "ruleid" r ≡ some (text k)) (free : lookup (some k) clients ≡ none)
    (consistent : IsConsistent rules clients)
    (others : (j : String) → (k == j) ≡ false → lookup (some j) clients' ≡ lookup (some j) clients)
    (runs : (t : Task) (c : Connection)
      → lookup (some k) clients' ≡ some t
      → t.connection ≡ some c
      → not c.stopped ≡ is_active r) where
  cached-IsConsistent : IsConsistent (insert (some k) r rules) clients'
  cached-IsConsistent = record {
    keyed = λ j q h. ground (
      arith,
      lookup-insert (some k) (some j) r rules,
      string_eq.same_iff k j,
      keyed,
      consistent.keyed j q,
    );
    agrees = λ j q t c h x l d. ground (
      arith,
      lookup-insert (some k) (some j) r rules,
      string_eq.same_iff k j,
      others j,
      runs t c,
      consistent.agrees j q t c,
    );
  }

-- A key that is taken keeps its task.
add_task-taken :
    (r : Rule) (k : ClientKey) (t : Task) (tasks : Dict ClientKey Task)
    → client_manager.key r ≡ ok k
    → lookup k tasks ≡ some t
    → (add_task client_manager r tasks).1 ≡ tasks
unfolding add_task
add_task-taken r k t tasks h there = ground arith

-- Rules that go away leave the others as they are.
forgotten-IsConsistent :
    (rules rules' : RulesOf) (clients : Dict ClientKey Task)
    → ((j : String) (q : Rule) → lookup (some j) rules' ≡ some q → lookup (some j) rules ≡ some q)
    → IsConsistent rules clients
    → IsConsistent rules' clients
forgotten-IsConsistent rules rules' clients within consistent = record {
  keyed = λ j q h. consistent.keyed j q (within j q h);
  agrees = λ j q t c h. consistent.agrees j q t c (within j q h);
}

module _ (sql : Table) where
  delete_rules-within :
      (ks : List String) (app : RulesApp sql) (j : String) (q : Rule)
      → lookup (some j) (Rules.delete_rules sql ks app).rules ≡ some q
      → lookup (some j) app.rules ≡ some q
  unfolding Rules.delete_rules Rules.delete_rule
  delete_rules-within [] app j q h = h
  delete_rules-within (k ∷ ks) app j q h =
      let rest = delete_rules-within ks (Rules.delete_rule sql k app) j q h in
      ground (arith, lookup-remove (some k) (some j) app.rules)

  pub unregister_traffic-Consistent :
      (ks : List String) (c : Controller sql)
      → Consistent sql c
      → Consistent sql (unregister_traffic sql ks c)
  unfolding unregister_traffic
  unregister_traffic-Consistent ks c i =
      forgotten-IsConsistent _ _ _ (delete_rules-within ks (stop_rules sql ks c).app)
        (stop_rules-Consistent sql ks c i)

  -- the clients once a rule was added, where its key had none
  added-IsConsistent :
      (k : String) (r : Rule) (rules : RulesOf) (clients : Dict ClientKey Task)
      → lookup "ruleid" r ≡ some (text k)
      → lookup (some k) clients ≡ none
      → IsConsistent rules clients
      → IsConsistent (insert (some k) r rules) (add_task client_manager r clients).1
  added-IsConsistent k r rules clients keyed free i = elim (add_task-cases r clients) [
    | inl e ↦
        rw e
          (cached-IsConsistent rules clients clients k r keyed free i (λ j n. refl) (λ t c l q. cc))
    | inr (j, t, q, made, e) ↦
        let same : j ≡ some k = ground (arith, key_of r k keyed) in
        rw (e, same)
          (cached-IsConsistent rules clients _ k r keyed free i
            (λ h n. ground (arith, lookup-insert (some k) (some h) t clients))
            (λ u c l d.
              ground (arith, lookup-insert_self (some k) t clients, new_task-runs r t c made)))
  ]

  register_rule-Consistent :
      (r : Rule) (k : String) (c : Controller sql)
      → lookup "ruleid" r ≡ some (text k)
      → lookup (some k) c.clients ≡ none
      → Consistent sql c
      → Consistent sql (register_rule sql r c).1
  register_rule-Consistent r k c h free i = elim (register_rule-effect sql r k c h) [
    | inl (rules, clients) ↦ rw (rules, clients) i
    | inr (r', keyed, rules, inl clients) ↦
        rw (rules, clients)
          (cached-IsConsistent c.app.rules c.clients c.clients k r' keyed free i (λ j n. refl)
            (λ t d l q. cc))
    | inr (r', keyed, rules, inr clients) ↦
        rw (rules, clients) (added-IsConsistent k r' c.app.rules c.clients keyed free i)
  ]

  -- registering a rule under an id that has a client leaves the client as it is
  pub register_rule-taken :
      (r : Rule) (k : String) (t : Task) (c : Controller sql)
      → lookup "ruleid" r ≡ some (text k)
      → lookup (some k) c.clients ≡ some t
      → lookup (some k) (register_rule sql r c).1.clients ≡ some t
  register_rule-taken r k t c h there = elim (register_rule-effect sql r k c h) [
    | inl (rules, clients) ↦ rw clients there
    | inr (r', keyed, rules, inl clients) ↦ rw clients there
    | inr (r', keyed, rules, inr clients) ↦
        rw (clients, add_task-taken r' (some k) t c.clients (key_of r' k keyed) there) there
  ]

  -- A call that a node receives. A rule is registered under an id that has no client.
  pub data Step : Controller sql → Controller sql → Type 0 where
    register :
        (r : Rule) (k : String) {c : Controller sql}
        → lookup "ruleid" r ≡ some (text k)
        → lookup (some k) c.clients ≡ none
        → Step c (register_rule sql r c).1
    started : (ks : List String) {c : Controller sql} → Step c (start_rules sql ks c)
    stopped : (ks : List String) {c : Controller sql} → Step c (stop_rules sql ks c)
    unregister : (ks : List String) {c : Controller sql} → Step c (unregister_traffic sql ks c)

  pub data Reach (c : Controller sql) : Controller sql → Type 0 where
    here : Reach c c
    after : {d e : Controller sql} → Reach c d → Step d e → Reach c e

  step-Consistent : {c d : Controller sql} → Step c d → Consistent sql c → Consistent sql d
  step-Consistent (register r k {c} h free) i = register_rule-Consistent r k c h free i
  step-Consistent (started ks {c}) i = start_rules-Consistent sql ks c i
  step-Consistent (stopped ks {c}) i = stop_rules-Consistent sql ks c i
  step-Consistent (unregister ks {c}) i = unregister_traffic-Consistent ks c i

  -- In every state that a node reaches from a consistent one by registering rules under ids that
  -- have no client, starting, stopping and unregistering rules, in any order and number, the client
  -- of each internal rule runs exactly if the rule is active.
  pub Reach-Consistent : {c d : Controller sql} → Consistent sql c → Reach c d → Consistent sql d
  Reach-Consistent i here = i
  Reach-Consistent i (after run step) = step-Consistent step (Reach-Consistent i run)
