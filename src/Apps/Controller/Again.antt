-- ===== src/Apps/Controller/Again.antt =====
-- A rule that is unregistered and registered again under the same id.
use distributed_apps_platfor.Base.{
  ◌≡◌, ◌∙◌, refl, String, true, [], ◌∷◌, Option, none, some, lookup, lookup-insert_self, text,
  is_text, string_eq, option_eq, arith, Option-cases, Bool-cases, inl, inr,
}
use distributed_apps_platfor.Sql.{Table}
use distributed_apps_platfor.Traffic.Rule.{Rule}
use distributed_apps_platfor.Traffic.Task.{Task, Connection, with_stopped}
use distributed_apps_platfor.Traffic.Manager.{client_manager}
use distributed_apps_platfor.Traffic.Manager.Tasks.{start_task-stop_task}
use distributed_apps_platfor.Apps.Rules.{get}
use distributed_apps_platfor.Apps.Rules.Refined.{deleted-view}
use distributed_apps_platfor.Apps.Controller.{
  Controller, stop_one, stop_rules, unregister_traffic, register_rule,
}
use distributed_apps_platfor.Apps.Controller.Consistent.{Consistent, key_of}
use distributed_apps_platfor.Apps.Controller.Switched.{IsKnown}
use distributed_apps_platfor.Apps.Controller.Halted.{stop_one-internal}
use distributed_apps_platfor.Apps.Controller.Lifecycle.{register_rule-taken}

-- a client that is kept under the id, with a connection that is stopped
abbrev pub Idle : Option Task → Type 0
Idle o = (t : Task) × (d : Connection) × (o ≡ some t) × (t.connection ≡ some d) × (d.stopped ≡ true)

module _ (sql : Table) where
  stop_one-Idle :
      (k : String) (c : Controller sql) (t : Task) (d : Connection)
      → Consistent sql c
      → IsKnown k c.app.rules
      → lookup (some k) c.clients ≡ some t
      → t.connection ≡ some d
      → Idle (lookup (some k) (stop_one sql k c).1.clients)
  stop_one-Idle k c t d i h found conn = elim (Option-cases (lookup "state" h.rule)) [
    | inl e ↦ absurd (ground (arith, e, h.has_state))
    | inr (v, e) ↦
        let (off, on) = stop_one-internal sql k h.rule v c h.found h.internal e in
        elim (Bool-cases (is_text v "ACTIVE")) [
          | inl q ↦
              let key = key_of h.rule k (i.keyed k h.rule h.found) in
              let stopped =
                start_task-stop_task client_manager h.rule (some k) t d c.clients key found conn in
              (
                with_stopped true t d,
                record d { stopped = true },
                rw (on q, stopped.1)
                    (lookup-insert_self (some k) (with_stopped true t d) c.clients),
                refl,
                refl,
              )
          | inr q ↦ (
            t,
            d,
            rw (off q) found,
            conn,
            ground (arith, i.agrees k h.rule t d h.found h.internal found conn, e, q),
          )
        ]
  ]

  unregister_one :
      (k : String) (c : Controller sql)
      → ((unregister_traffic sql (k ∷ []) c).clients ≡ (stop_one sql k c).1.clients)
        × (get sql k (unregister_traffic sql (k ∷ []) c).app ≡ none)
  unfolding unregister_traffic stop_rules
  unregister_one k c = (
    refl,
    deleted-view sql (k ∷ []) (stop_rules sql (k ∷ []) c).app k
        ∙ ground (arith, string_eq.same_iff k k),
  )

  -- On a consistent node, where an internal rule that the node knows with a state has a client with a connection: after the rule
  -- is unregistered the node has no rule under its id, but still its client, which is stopped; and a rule that is then registered under the
  -- same id, whatever its state, gets this stopped client.
  pub register_rule-unregistered :
      (r : Rule) (k : String) (c : Controller sql) (t : Task) (d : Connection)
      → Consistent sql c
      → IsKnown k c.app.rules
      → lookup (some k) c.clients ≡ some t
      → t.connection ≡ some d
      → lookup "ruleid" r ≡ some (text k)
      → let c1 = unregister_traffic sql (k ∷ []) c in
        let c2 = (register_rule sql r c1).1 in
        (get sql k c1.app ≡ none)
        × Idle (lookup (some k) c1.clients)
        × (lookup (some k) c2.clients ≡ lookup (some k) c1.clients)
  register_rule-unregistered r k c t d i known found conn keyed =
      let (same, gone) = unregister_one k c in
      let (t', d', there, conn', off) = stop_one-Idle k c t d i known found conn in
      let kept : lookup (some k) (unregister_traffic sql (k ∷ []) c).clients ≡ some t' =
        rw same there in
      (
        gone,
        (t', d', kept, conn', off),
        register_rule-taken sql r k t' (unregister_traffic sql (k ∷ []) c) keyed kept
            ∙ rw kept refl,
      )
