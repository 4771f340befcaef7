-- ===== src/Apps/Controller/Register.antt =====
-- What registering a rule does to the clients and the rules of a node.
use distributed_apps_platfor.Base.{
  ◌≡◌, ◌∙◌, ◌⊎◌, refl, String, true, not, ◌&&◌, some, Dict, lookup, insert, has_key, lookup-insert,
  Value, text, Result, ok, err, Error, string_eq, option_eq, pair_eq, nat_eq, arith, Bool-cases,
  Option-cases, Result-cases, inl, inr,
}
use distributed_apps_platfor.Sql.{Table}
use distributed_apps_platfor.Traffic.Rule.{Rule, getattr, active, enabled}
use distributed_apps_platfor.Traffic.Task.{Task, Connection, client, create_task, start}
use distributed_apps_platfor.Traffic.Task.Lifecycle.{create_task-stopped}
use distributed_apps_platfor.Traffic.Manager.{
  ClientKey, client_manager, server_manager, new_task, add_task,
}
use distributed_apps_platfor.Traffic.Manager.Tasks.{add_task-raises}
use distributed_apps_platfor.Apps.Rules
use distributed_apps_platfor.Apps.Rules.{RulesApp}
use distributed_apps_platfor.Apps.Controller.{
  Controller, on_clients, on_servers, with_tool, handle_rule, add_rule_info, register_rule,
  with_info,
}
use distributed_apps_platfor.Apps.Controller.Consistent.{is_active}
use distributed_apps_platfor.Apps.Controller.{on_app}

stopped_at_first :
    (r : Rule) (t : Task) (c : Connection)
    → create_task client r ≡ ok t
    → t.connection ≡ some c
    → c.stopped ≡ true
stopped_at_first r t c h q = create_task-stopped client r t c h q

-- the task of a client runs exactly if its rule is active
pub new_task-runs :
    (r : Rule) (t : Task) (c : Connection)
    → new_task client_manager r ≡ ok t
    → t.connection ≡ some c
    → not c.stopped ≡ is_active r
unfolding new_task client_manager start enabled
new_task-runs r t c h q = elim (Result-cases (create_task client r)) [
  | inl (u, e) ↦ elim (Option-cases u.connection) [
    | inl f ↦ ground (arith, f, stopped_at_first r u c e)
    | inr (d, f) ↦ ground (arith, f, stopped_at_first r u d e)
  ]
  | inr (x, e) ↦ cc
]

pub add_task-cases :
    (r : Rule) (tasks : Dict ClientKey Task)
    → ((add_task client_manager r tasks).1 ≡ tasks)
      ⊎ ((k : ClientKey) × (t : Task) × (client_manager.key r ≡ ok k)
          × (new_task client_manager r ≡ ok t)
          × ((add_task client_manager r tasks).1 ≡ insert k t tasks))
unfolding add_task
add_task-cases r tasks = elim (Result-cases (client_manager.key r)) [
  | inr (y, q) ↦ inl (ground arith)
  | inl (k, q) ↦ elim (Result-cases (new_task client_manager r)) [
    | inr (y, c) ↦ inl (ground arith)
    | inl (t, c) ↦ elim (Bool-cases (client_manager.valid k && not (has_key k tasks))) [
      | inl v ↦ inr (k, t, q, c, ground arith)
      | inr v ↦ inl (ground arith)
    ]
  ]
]

pair_ok {ℓ κ} : {A : Type ℓ} {S : Type κ} (p : Result A × S) (a : A) → p.0 ≡ ok a → p ≡ (ok a, p.1)
pair_ok (r, s) a h = cc

module _ (sql : Table) where
  -- the attributes that `_add_rule_info` sets are others than these
  with_info-keeps :
      (r : Rule) (src dst : Value) (c : Controller sql)
      → (lookup "ruleid" (with_info sql r src dst c) ≡ lookup "ruleid" r)
        × (lookup "tool" (with_info sql r src dst c) ≡ lookup "tool" r)
        × (lookup "state" (with_info sql r src dst c) ≡ lookup "state" r)
  unfolding with_info
  with_info-keeps r src dst c = (simp lookup-insert, simp lookup-insert, simp lookup-insert)

  handle_rule-effect :
      (r : Rule) (c : Controller sql)
      → let (res, c') = handle_rule sql r c in
        (c'.app ≡ c.app)
        × ((c'.clients ≡ c.clients) ⊎ (c'.clients ≡ (add_task client_manager r c.clients).1))
  unfolding handle_rule with_tool on_clients on_servers
  handle_rule-effect r c = elim (Result-cases (add_task server_manager r c.servers).0) [
    | inl (u, e) ↦ ground (arith, e)
    | inr (x, e) ↦ ground (arith, e)
  ]

  -- what `_add_rule_info` returns: the rule with its hosts, after its handlers where it has one
  add_rule_info-cases :
      (r r' : Rule) (c c' : Controller sql)
      → add_rule_info sql r c ≡ (ok r', c')
      → (src dst : Value) × (let r1 = with_info sql r src dst c in
          let r2 = insert "state" (getattr "state" r1 active) r1 in
          ((r' ≡ r1) × (c' ≡ c)) ⊎ ((r' ≡ r2) × (c' ≡ (handle_rule sql r2 c).1)))
  unfolding add_rule_info
  add_rule_info-cases r r' c c' h = elim (Option-cases (lookup "src" r)) [
    | inl e ↦ absurd (ground (arith, e))
    | inr (src, e) ↦ elim (Option-cases (lookup "dst" r)) [
      | inl f ↦ absurd (ground (arith, e, f))
      | inr (dst, f) ↦
          let r1 = with_info sql r src dst c in
          let r2 = insert "state" (getattr "state" r1 active) r1 in
          (
            src,
            dst,
            elim (Result-cases (handle_rule sql r2 c).0) [
              | inl (u, g) ↦ ground (arith, e, f, g)
              | inr (x, g) ↦ ground (arith, e, f, g)
            ],
          )
    ]
  ]

  add_rule_info-effect :
      (r r' : Rule) (c c' : Controller sql)
      → add_rule_info sql r c ≡ (ok r', c')
      → (c'.app ≡ c.app)
        × (lookup "ruleid" r' ≡ lookup "ruleid" r)
        × ((c'.clients ≡ c.clients) ⊎ (c'.clients ≡ (add_task client_manager r' c.clients).1))
  add_rule_info-effect r r' c c' h =
      let (src, dst, cases) = add_rule_info-cases r r' c c' h in
      let r1 = with_info sql r src dst c in
      let r2 = insert "state" (getattr "state" r1 active) r1 in
      elim cases [
        | inl (e, f) ↦ rw (e, f) (refl, (with_info-keeps r src dst c).0, inl refl)
        | inr (e, f) ↦
            let (app, clients) = handle_rule-effect r2 c in
            rw (e, f) (app, simp lookup-insert ((with_info-keeps r src dst c).0), clients)
      ]

  handle_rule-raises :
      (r : Rule) (c : Controller sql) (x : Error)
      → (handle_rule sql r c).0 ≡ err x
      → (handle_rule sql r c).1.clients ≡ c.clients
  unfolding handle_rule with_tool on_clients on_servers
  handle_rule-raises r c x h = elim (Result-cases (add_task client_manager r c.clients).0) [
    | inl (v, f) ↦ elim (Result-cases (add_task server_manager r c.servers).0) [
      | inl (u, e) ↦ ground (arith, e, f)
      | inr (y, e) ↦ ground (arith, e)
    ]
    | inr (z, f) ↦
        let same = add_task-raises client_manager r c.clients z f in
        elim (Result-cases (add_task server_manager r c.servers).0) [
          | inl (u, e) ↦ ground (arith, e, f, same)
          | inr (y, e) ↦ ground (arith, e, f, same)
        ]
  ]

  add_rule_info-raises :
      (r : Rule) (c : Controller sql) (x : Error)
      → (add_rule_info sql r c).0 ≡ err x
      → let c' = (add_rule_info sql r c).1 in (c'.app ≡ c.app) × (c'.clients ≡ c.clients)
  unfolding add_rule_info
  add_rule_info-raises r c x h = elim (Option-cases (lookup "src" r)) [
    | inl e ↦ ground (arith, e)
    | inr (src, e) ↦ elim (Option-cases (lookup "dst" r)) [
      | inl f ↦ ground (arith, e, f)
      | inr (dst, f) ↦
          let r1 = with_info sql r src dst c in
          let r2 = insert "state" (getattr "state" r1 active) r1 in
          ground (arith, e, f, handle_rule-raises r2 c x, (handle_rule-effect r2 c).0)
    ]
  ]

  add-keyed :
      (r : Rule) (k : String) (app : RulesApp sql)
      → lookup "ruleid" r ≡ some (text k)
      → (Rules.add sql r true app).1.rules ≡ insert (some k) r app.rules
  unfolding Rules.add Rules.cache
  add-keyed r k app h = ground (arith, h)

  -- a registered rule is cached under its id, unless registering it raised
  pub register_rule-effect :
      (r : Rule) (k : String) (c : Controller sql)
      → lookup "ruleid" r ≡ some (text k)
      → let c' = (register_rule sql r c).1 in
        ((c'.app.rules ≡ c.app.rules) × (c'.clients ≡ c.clients))
        ⊎ ((r' : Rule) × (lookup "ruleid" r' ≡ some (text k))
            × (c'.app.rules ≡ insert (some k) r' c.app.rules)
            × ((c'.clients ≡ c.clients) ⊎ (c'.clients ≡ (add_task client_manager r' c.clients).1)))
  unfolding register_rule on_app
  register_rule-effect r k c h = elim (Result-cases (add_rule_info sql r c).0) [
    | inr (x, e) ↦
        let (app, clients) = add_rule_info-raises r c x e in inl (ground (arith, e, app, clients))
    | inl (r', e) ↦
        let c1 = (add_rule_info sql r c).1 in
        let (app, key, clients) =
          add_rule_info-effect r r' c c1 (pair_ok (add_rule_info sql r c) r' e) in
        let done = add-keyed r' k c1.app (key ∙ h) in
        inr (r', key ∙ h, ground (arith, e, done, app), ground (arith, e, done, clients))
  ]
